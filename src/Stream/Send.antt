-- ===== src/Stream/Send.antt =====
-- Sending: `send_frame` of src/detail/stream_impl.hpp and `send_awaitable` of src/tcp.cpp.
pub mod Laws
use fiona.Errno.{ebusy}
use fiona.Base.{
  ℕ, suc, ◌-◌, ℤ, pos, neg, pos_part, is_neg, Bool, true, false, not, ◌&&◌, Result, ok, err, Option,
  none, some, List, [], ◌∷◌, if◌then◌else◌,
}
use fiona.Ring.Entries.{Cqe, Frame, sends, send, cancel, fixed_file, skip_success}
use fiona.Ring.{Call, reserves, prepares, submits}
use fiona.Stream.Frames.{OpFrame, SendFrame, process_op, take_handle, initiate, reset_send}
use fiona.Stream.{StreamImpl}

-- `send_frame::await_process_cqe`: a failed send marks the stream as not connected.
unfoldable pub process_send : StreamImpl → Cqe → StreamImpl
unfolding process_op
process_send s cqe = record s {
  send = record (s.send) { op = process_op s.send.op cqe };
  connected = if is_neg cqe.res then false else s.connected;
}

-- The loop's round on a completion of the send.
unfoldable pub complete_send : StreamImpl → Cqe → Option ℕ × StreamImpl
unfolding process_send take_handle
complete_send s cqe =
    let s' = process_send s cqe in
    let (h, f) = take_handle s'.send.op in
    (h, record s' { send = record (s'.send) { op = f }; count = s'.count - 1 })

-- `~send_awaitable`
unfoldable pub destroy_awaitable : StreamImpl → List Call
destroy_awaitable s =
    if s.send.op.initiated && not s.send.op.done
    then reserves 1
      ∷ prepares (record { op = cancel sends; user_data = none; flags = skip_success ∷ [] })
      ∷ submits
      ∷ []
    else []

-- `send_awaitable::await_suspend`, for a buffer of `len` bytes at time `now`.
unfoldable pub await_suspend : (now len : ℕ) → StreamImpl → ℕ → Result ℤ (StreamImpl × List Call)
unfolding initiate
await_suspend now len s h =
    if s.send.op.initiated
    then err (pos ebusy)
    else ok (
      record s {
        send = record { op = initiate s.send.op h; last_send = now };
        count = suc s.count;
      },
      reserves 1
          ∷ prepares
              (record { op = send s.fd len; user_data = some sends; flags = fixed_file ∷ [] })
          ∷ [],
    )

-- `send_awaitable::await_resume`
unfoldable pub await_resume : StreamImpl → StreamImpl × Result ℤ ℕ
unfolding reset_send
await_resume s = (
  record s { send = reset_send s.send },
  if is_neg s.send.op.res then err (neg s.send.op.res) else ok (pos_part s.send.op.res),
)

-- `co_await stream.async_send( buf )` up to the suspension: where `await_suspend` throws, the
-- awaitable is destroyed.
unfoldable pub async_send :
    (now len : ℕ) → StreamImpl → ℕ → StreamImpl × Result ℤ (Unit {0}) × List Call
unfolding await_suspend destroy_awaitable
async_send now len s h = elim (await_suspend now len s h) [
  | err e ↦ (s, err e, destroy_awaitable s)
  | ok (s', cs) ↦ (s', ok tt, cs)
]
