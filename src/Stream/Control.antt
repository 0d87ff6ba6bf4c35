-- ===== src/Stream/Control.antt =====
-- Cancelling and shutting down: `cancel_frame` and `shutdown_frame` of src/detail/stream_impl.hpp,
-- `stream_cancel_awaitable` and `shutdown_awaitable` of src/tcp.cpp.
use fiona.Base.{
  ℕ, suc, ◌-◌, ℤ, neg, pos_part, is_neg, is_zero, is_errno, true, Result, ok, err, Option, some,
  List, [], ◌∷◌, if◌then◌else◌,
}
use fiona.Ring.Entries.{Cqe, cancels, shutdowns, cancel_fd, shutdown, fixed_file}
use fiona.Ring.{Call, reserves, prepares}
use fiona.Stream.Frames.{
  idle, process_op, take_handle, initiate, reset_shutdown, process_timeout_cancel,
}
use fiona.Stream.{StreamImpl}

-- `stream_cancel_awaitable::await_suspend`
unfoldable pub cancel_suspend : StreamImpl → ℕ → StreamImpl × List Call
unfolding initiate
cancel_suspend s h = (
  record s { cancel = initiate s.cancel h; count = suc s.count; stream_cancelled = true },
  reserves 1 ∷ prepares (record { op = cancel_fd s.fd; user_data = some cancels; flags = [] }) ∷ [],
)

-- The loop's round on a completion of the cancellation.
unfoldable pub complete_cancel : StreamImpl → Cqe → Option ℕ × StreamImpl
unfolding process_op take_handle
complete_cancel s cqe =
    let (h, f) = take_handle (process_op s.cancel cqe) in
    (h, record s { cancel = f; count = s.count - 1 })

-- `stream_cancel_awaitable::await_resume`: 0 on a closed stream, whatever the kernel said.
unfoldable pub cancel_resume : StreamImpl → StreamImpl × Result ℤ ℕ
cancel_resume s = (
  record s { cancel = idle },
  if is_errno s.fd 1
      then ok 0
      else if is_neg s.cancel.res
      then err (neg s.cancel.res)
      else ok (pos_part s.cancel.res),
)

-- `stream::async_shutdown` and `shutdown_awaitable::await_suspend`.
unfoldable pub shutdown_suspend : (how : ℕ) → StreamImpl → ℕ → StreamImpl × List Call
unfolding initiate
shutdown_suspend how s h = (
  record s { shutdown = record { op = initiate s.shutdown.op h; how = how }; count = suc s.count },
  reserves 1
      ∷ prepares
          (record { op = shutdown s.fd how; user_data = some shutdowns; flags = fixed_file ∷ [] })
      ∷ [],
)

-- The loop's round on a completion of the shutdown.
unfoldable pub complete_shutdown : StreamImpl → Cqe → Option ℕ × StreamImpl
unfolding process_op take_handle
complete_shutdown s cqe =
    let (h, f) = take_handle (process_op s.shutdown.op cqe) in
    (h, record s { shutdown = record (s.shutdown) { op = f }; count = s.count - 1 })

-- `shutdown_awaitable::await_resume`
unfoldable pub shutdown_resume : StreamImpl → StreamImpl × Result ℤ (Unit {0})
unfolding reset_shutdown
shutdown_resume s = (
  record s { shutdown = reset_shutdown s.shutdown },
  if is_zero s.shutdown.op.res then ok tt else err (neg s.shutdown.op.res),
)

-- The loop's round on a completion of the cancellation that a tick asked for.
unfoldable pub complete_timeout_cancel : StreamImpl → Cqe → StreamImpl
unfolding process_timeout_cancel
complete_timeout_cancel s cqe = record s {
  timeout_cancel = process_timeout_cancel s.timeout_cancel cqe;
  count = s.count - 1;
}
