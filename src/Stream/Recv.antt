-- ===== src/Stream/Recv.antt =====
-- Receiving: `recv_frame` of src/detail/stream_impl.hpp, `recv_awaitable` and `set_buffer_group` of
-- src/tcp.cpp. `group` is what `get_buffer_group` finds for the stream's group.
pub mod Laws
use fiona.Errno.{ecanceled, etimedout, einval, ebusy}
use fiona.Base.{
  ℕ, zero, suc, ◌-◌, ℤ, pos, negsuc, neg, pos_part, is_neg, is_errno, is_zero, is_positive, Bool,
  true, false, not, ◌&&◌, ◌||◌, Result, ok, err, Option, none, some, is_some, List, [], ◌∷◌, ◌++◌,
  if◌then◌else◌, ◌==◌, get_elem?,
}
use fiona.Ring.Entries.{Cqe, Frame, recvs, recv_multishot, fixed_file, buffer_select}
use fiona.Ring.{Call, reserves, prepares}
use fiona.Buffers.Provided.{RecvBuffer, recv_buffer, BufRing, RingCall, take_buffer, replenish}
use fiona.Stream.Frames.{RecvFrame}
use fiona.Stream.{StreamImpl}

-- The error of a completion: a cancellation that the stream did not ask for is the timer's.
abbrev error_of : StreamImpl → Cqe → Option ℤ
error_of s cqe =
    if is_neg cqe.res
    then if is_errno cqe.res ecanceled && not s.stream_cancelled
      then some (pos etimedout)
      else some (neg cqe.res)
    else s.recv.ec

-- The last part: with IORING_CQE_F_MORE the submission goes on, under one more reference.
pub rearmed : StreamImpl → Cqe → StreamImpl
rearmed s cqe = record s {
  recv = record (s.recv) { initiated = cqe.more };
  count = if cqe.more then suc s.count else s.count;
}

-- The buffer of a completion: none for an error, an empty one for the end of the stream, and else the
-- one that the kernel filled, moved out of its ring. `none` is a fault.
pub received : BufRing → Cqe → Option (BufRing × List RecvBuffer)
received ring cqe =
    if is_neg cqe.res
    then some (ring, [])
    else if is_zero cqe.res
    then some (ring, recv_buffer 0 ∷ [])
    else elim (take_buffer ring cqe.buffer_id (pos_part cqe.res)) [
      | none ↦ none
      | some (ring', b) ↦ some (ring', b ∷ [])
    ]

-- The assertions on a completion fail: an error comes last and once, the end of the stream comes last,
-- and bytes come into a buffer with a capacity. That the flag for a buffer is set where bytes came, and
-- not at the end, is not modelled.
unfoldable pub asserts_fail : Option ℤ → BufRing → Cqe → Bool
asserts_fail ec ring cqe =
    if is_neg cqe.res
    then cqe.more || is_some ec
    else if is_zero cqe.res
    then cqe.more
    else elim (get_elem? ring.bufs cqe.buffer_id) [ none ↦ false | some b ↦ b.capacity == 0 ]

-- What `recv_frame::await_process_cqe` does at time `now`, where its assertions hold.
unfoldable pub taken_in : ℕ → StreamImpl → BufRing → Cqe → Option (StreamImpl × BufRing)
unfolding rearmed received
taken_in now s ring cqe = elim (received ring cqe) [
  | none ↦ none
  | some (ring', bs) ↦ some (
    rearmed
        (record s {
          recv = record (s.recv) {
            buffers = s.recv.buffers ++ bs;
            ec = error_of s cqe;
            last_recv = if is_positive cqe.res then now else s.recv.last_recv;
          };
        })
        cqe,
    ring',
  )
]

-- `recv_frame::await_process_cqe`; a failed assertion is a fault.
unfoldable pub process_recv : ℕ → StreamImpl → BufRing → Cqe → Option (StreamImpl × BufRing)
process_recv now s ring cqe =
    if asserts_fail s.recv.ec ring cqe then none else taken_in now s ring cqe

-- The loop's round on a completion of the receive.
unfoldable pub complete_recv :
    ℕ → StreamImpl → BufRing → Cqe → Option (Option ℕ × StreamImpl × BufRing)
unfolding process_recv
complete_recv now s ring cqe = elim (process_recv now s ring cqe) [
  | none ↦ none
  | some (s', ring') ↦
      some
        (s'.recv.h, record s' { recv = record (s'.recv) { h = none }; count = s'.count - 1 }, ring')
]

-- `recv_frame::schedule_recv`
unfoldable pub schedule_recv : ℕ → StreamImpl → StreamImpl × List Call
schedule_recv now s = (
  record s { recv = record (s.recv) { initiated = true; last_recv = now }; count = suc s.count },
  reserves 1
      ∷ prepares (record {
        op = recv_multishot s.fd s.recv.buffer_group_id;
        user_data = some recvs;
        flags = fixed_file ∷ buffer_select ∷ [];
      })
      ∷ [],
)

-- `recv_awaitable::await_ready`
unfoldable pub await_ready : StreamImpl → Bool
await_ready s = elim s.recv.buffers [ [] ↦ false | b ∷ bs ↦ true ]

-- `recv_awaitable::await_suspend`: whether the coroutine stays suspended. The handle is kept also
-- where the call throws.
unfoldable pub await_suspend : ℕ → StreamImpl → ℕ → StreamImpl × Result ℤ Bool × List Call
unfolding schedule_recv
await_suspend now s h =
    let s' = record s { recv = record (s.recv) { h = some h } } in
    if is_some s.recv.ec
    then (s', ok false, [])
    else if s.recv.initiated
    then (s', ok true, [])
    else if is_errno s.recv.buffer_group_id 1
    then (s', err (pos einval), [])
    else (let (s'', cs) = schedule_recv now s' in (s'', ok true, cs))

abbrev or_zero : Option ℤ → ℤ
or_zero none = pos 0
or_zero (some e) = e

-- `recv_awaitable::await_resume`: the error where there are no buffers, and else all buffers, with
-- their slots in the ring refilled.
unfoldable pub await_resume :
    StreamImpl → BufRing → StreamImpl × BufRing × Result ℤ (List RecvBuffer) × List RingCall
await_resume s ring = elim s.recv.buffers [
  | [] ↦ (record s { recv = record (s.recv) { ec = none } }, ring, err (or_zero s.recv.ec), [])
  | b ∷ bs ↦
      let (ring', cs) = replenish ring (b ∷ bs) in
      (record s { recv = record (s.recv) { buffers = [] } }, ring', ok (b ∷ bs), cs)
]

-- `stream::set_buffer_group`
unfoldable pub set_buffer_group :
    StreamImpl → (bgid : ℕ) → (group : Option BufRing) → Result ℤ StreamImpl
set_buffer_group s bgid group =
    if s.recv.initiated
    then err (pos ebusy)
    else if is_some group
    then ok (record s { recv = record (s.recv) { buffer_group_id = pos bgid } })
    else err (pos einval)
