-- ===== src/Stream/Timeout.antt =====
-- `timeout_frame::await_process_cqe` of src/detail/stream_impl.hpp: the tick of a stream's timeout.
pub mod Laws
use fiona.Errno.{ecanceled, etime}
use fiona.Base.{
  ℕ, suc, ◌+◌, ◌-◌, ◌*◌, ℤ, pos_part, neg_part, is_errno, is_zero, Bool, true, false, not, ◌&&◌,
  ◌||◌, Option, none, some, List, [], ◌∷◌, ◌++◌, leb, if◌then◌else◌,
}
use fiona.Ring.Entries.{Timespec, Cqe, Frame, timeout_cancels, cancel_fd}
use fiona.Ring.{Call, reserves, prepares}
use fiona.Stream.Frames.{TimeoutFrame, TimeoutCancelFrame}
use fiona.Stream.{StreamImpl, timer_entry}

-- `now - last >= seconds{ ts.tv_sec } + nanoseconds{ ts.tv_nsec }`, with no difference taken.
unfoldable pub elapsed : (now last : ℕ) → Timespec → Bool
elapsed now last ts =
    leb (last + pos_part ts.sec * 1_000_000_000 + ts.nsec) (now + neg_part ts.sec * 1_000_000_000)

-- A receive or a send has been quiet for the whole period.
unfoldable pub should_cancel : ℕ → StreamImpl → Bool
unfolding elapsed
should_cancel now s =
    (s.recv.initiated && elapsed now s.recv.last_recv s.ts)
    || (s.send.op.initiated && not s.send.op.done && elapsed now s.send.last_send s.ts)

abbrev rearm : List Call
rearm = reserves 1 ∷ prepares timer_entry ∷ []

-- `if ( should_cancel )`: everything on the slot is cancelled, under the `timeout_cancel_frame`.
-- The assertion that the stream has a slot is not tested.
cancel_all : StreamImpl → StreamImpl × List Call
cancel_all s = (
  record s { timeout_cancel = record (s.timeout_cancel) { initiated = true }; count = suc s.count },
  reserves 1
      ∷ prepares (record { op = cancel_fd s.fd; user_data = some timeout_cancels; flags = [] })
      ∷ [],
)

-- A tick at time `now`, past the early returns.
tick : ℕ → StreamImpl → Cqe → StreamImpl × List Call
unfolding cancel_all
tick now s cqe =
    let (s', cs) = if should_cancel now s then cancel_all s else (s, []) in
    let s'' = record s' {
      timeout = if cqe.more then s'.timeout else record (s'.timeout) { initiated = true };
      count = suc s'.count;
    } in
    (s'', cs ++ (if cqe.more then [] else rearm))

-- The third early return is a failed assertion, with its assignment.
unfoldable pub process_timeout : ℕ → StreamImpl → Cqe → StreamImpl × List Call
unfolding tick
process_timeout now s cqe =
    if is_errno cqe.res ecanceled && s.timeout.cancelled
    then (record s { timeout = record { initiated = false; cancelled = false } }, [])
    else if is_errno cqe.res ecanceled
    then (
      record s { timeout = record (s.timeout) { initiated = true }; count = suc s.count },
      rearm,
    )
    else if not (is_errno cqe.res etime) && not (is_zero cqe.res)
    then (record s { timeout = record (s.timeout) { initiated = false } }, [])
    else tick now s cqe

-- The loop's round on a completion of the timeout; there is no coroutine to resume.
unfoldable pub complete_timeout : ℕ → StreamImpl → Cqe → StreamImpl × List Call
unfolding process_timeout
complete_timeout now s cqe =
    let (s', cs) = process_timeout now s cqe in (record s' { count = s'.count - 1 }, cs)
