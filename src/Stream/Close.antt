-- ===== src/Stream/Close.antt =====
-- Closing: `close_frame` of src/detail/stream_impl.hpp and `stream_close_awaitable` of src/tcp.cpp.
pub mod Laws
use fiona.Base.{
  ℕ, suc, ◌+◌, ◌-◌, ℤ, pos, negsuc, neg, is_zero, Bool, true, false, to_int, Result, ok, err,
  Option, none, some, List, [], ◌∷◌, ◌++◌, if◌then◌else◌,
}
use fiona.Ring.Entries.{Cqe, Frame, closes, cancel_fd, close_direct, hardlink, skip_success}
use fiona.Ring.{Call, reserves, prepares}
use fiona.Executor.Files.{release_fd}
use fiona.Stream.Frames.{OpFrame, idle, process_op, take_handle, initiate}
use fiona.Stream.{StreamImpl, queue_timer_cancel}

-- `close_frame::await_process_cqe`: the slot is given back whatever the kernel says.
unfoldable pub process_close : StreamImpl → List ℕ → Cqe → StreamImpl × List ℕ
unfolding process_op release_fd
process_close s fds cqe = (
  record s { close = process_op s.close cqe; fd = negsuc 0; connected = false },
  release_fd s.fd fds,
)

-- The loop's round on a completion of the close.
unfoldable pub complete_close : StreamImpl → List ℕ → Cqe → Option ℕ × StreamImpl × List ℕ
unfolding process_close take_handle
complete_close s fds cqe =
    let (s', fds') = process_close s fds cqe in
    let (h, f) = take_handle s'.close in (h, record s' { close = f; count = s'.count - 1 }, fds')

-- `stream_close_awaitable::await_suspend`: a cancellation of all on the slot, linked to the close of
-- the slot, and the cancellation of the timeout if it runs.
unfoldable pub await_suspend : StreamImpl → ℕ → StreamImpl × List Call
unfolding queue_timer_cancel initiate
await_suspend s h =
    let (s', timer) = queue_timer_cancel (record s { stream_cancelled = true }) in
    (
      record s' { close = initiate s'.close h; count = suc s'.count },
      reserves (2 + to_int s.timeout.initiated)
          ∷ prepares (record {
            op = cancel_fd s.fd;
            user_data = none;
            flags = hardlink ∷ skip_success ∷ [];
          })
          ∷ prepares (record { op = close_direct s.fd; user_data = some closes; flags = [] })
          ∷ timer,
    )

-- `stream_close_awaitable::await_resume`
unfoldable pub await_resume : StreamImpl → StreamImpl × Result ℤ (Unit {0})
await_resume s =
    (record s { close = idle }, if is_zero s.close.res then ok tt else err (neg s.close.res))
