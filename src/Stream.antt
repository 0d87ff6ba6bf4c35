-- ===== src/Stream.antt =====
-- A TCP stream: `stream_impl` and its frames, of src/detail/stream_impl.hpp, and `stream` of src/tcp.cpp.
-- A time is a number of nanoseconds of the steady clock, and is an argument of what reads the clock.
-- The free file slots and the ring of provided buffers are passed in and handed back.
pub mod Frames
pub mod Timeout
pub mod Recv
pub mod Send
pub mod Close
pub mod Control
pub mod Refs
pub mod Calls
pub mod Tests
use fiona.Base.{
  ℕ, zero, suc, ◌+◌, ◌-◌, ◌*◌, ℤ, pos, negsuc, pos_part, neg_part, is_neg, is_errno, is_zero, Bool,
  true, false, not, ◌&&◌, ◌||◌, Option, none, some, List, [], ◌∷◌, ◌++◌, leb, to_int, ◌==◌,
  if◌then◌else◌,
}
use fiona.Ring.Entries.{
  Timespec, Cqe, Frame, Sqe, timeouts, recvs, timeout_multishot, timeout_remove, cancel,
  close_direct, skip_success,
}
use fiona.Ring.{Call, reserves, prepares, gets, submits}
use fiona.Executor.Files.{release_fd}
use Frames.{
  OpFrame, ShutdownFrame, SendFrame, RecvFrame, TimeoutFrame, TimeoutCancelFrame, idle, active,
}

-- `stream_impl`, with the count of `ref_count`.
pub record StreamImpl : Type 0 where
  pub cancel : OpFrame
  pub close : OpFrame
  pub shutdown : ShutdownFrame
  pub send : SendFrame
  pub recv : RecvFrame
  pub timeout : TimeoutFrame
  pub timeout_cancel : TimeoutCancelFrame
  pub ts : Timespec
  pub fd : ℤ
  pub connected : Bool
  pub stream_cancelled : Bool
  pub count : ℕ

-- The entry that (re)starts the stream's periodic timeout.
abbrev pub timer_entry : Sqe
timer_entry = record { op = timeout_multishot timeouts; user_data = some timeouts; flags = [] }

-- The constructor, at time `now`: it starts the timeout, and the stream that owns the object holds a
-- reference beside that of the timeout.
unfoldable pub stream_impl : (now : ℕ) (fd : ℤ) → StreamImpl × List Call
stream_impl now fd = (
  record {
    cancel = idle;
    close = idle;
    shutdown = record { op = idle; how = 0 };
    send = record { op = idle; last_send = now };
    recv = record {
      buffers = [];
      ec = none;
      h = none;
      last_recv = now;
      buffer_group_id = negsuc 0;
      initiated = false;
    };
    timeout = record { initiated = true; cancelled = false };
    timeout_cancel = record { res = pos 0; initiated = false };
    ts = record { sec = pos 3; nsec = 0 };
    fd = fd;
    connected = false;
    stream_cancelled = false;
    count = 2;
  },
  reserves 1 ∷ prepares timer_entry ∷ [],
)

-- `~stream_impl`: a slot that is still held is closed and given back.
unfoldable pub destroy_impl : StreamImpl → List ℕ → StreamImpl × List ℕ × List Call
unfolding release_fd
destroy_impl s fds = if is_neg s.fd then (s, fds, []) else (
  record s { fd = negsuc 0 },
  release_fd s.fd fds,
  gets (record { op = close_direct s.fd; user_data = none; flags = skip_success ∷ [] })
      ∷ submits
      ∷ [],
)

-- `queue_timer_cancel`
unfoldable pub queue_timer_cancel : StreamImpl → StreamImpl × List Call
queue_timer_cancel s =
    if s.timeout.initiated
    then (
      record s { timeout = record (s.timeout) { cancelled = true } },
      prepares
            (record { op = timeout_remove timeouts; user_data = none; flags = skip_success ∷ [] })
          ∷ [],
    )
    else (s, [])

-- `stream::cancel_timer`
unfoldable pub cancel_timer : StreamImpl → StreamImpl × List Call
unfolding queue_timer_cancel
cancel_timer s = let (s', cs) = queue_timer_cancel s in (s', reserves 1 ∷ (cs ++ submits ∷ []))

-- `stream::cancel_recv`
unfoldable pub cancel_recv : StreamImpl → List Call
cancel_recv s =
    if s.recv.initiated
    then reserves 1
      ∷ prepares (record { op = cancel recvs; user_data = none; flags = skip_success ∷ [] })
      ∷ submits
      ∷ []
    else []

-- An awaitable of the stream is constructed with a copy of the stream's `p_stream_`, and the
-- destruction of that member drops it again. The same is true of a copy of the stream itself.
unfoldable pub hold : StreamImpl → StreamImpl
hold s = record s { count = suc s.count }

unfoldable pub let_go : StreamImpl → StreamImpl
let_go s = record s { count = s.count - 1 }

-- The references of the frames in flight, as `stream::~stream` subtracts them.
unfoldable pub frame_refs : StreamImpl → ℕ
unfolding active
frame_refs s =
    active s.cancel
    + to_int s.timeout_cancel.initiated
    + active s.close
    + active s.shutdown.op
    + active s.send.op
    + to_int s.recv.initiated
    + to_int s.timeout.initiated

-- `stream::~stream`: where no other owner and no awaitable holds the stream, it cancels the timeout
-- and the receive. The owner's reference is dropped in either case. The assertion that the difference
-- is positive is a theorem about the count (Stream/Refs/Life.antt), not a test.
unfoldable pub destroy_stream : StreamImpl → StreamImpl × List Call
unfolding cancel_timer cancel_recv
destroy_stream s =
    if s.count - frame_refs s == 1
    then (let (s', cs) = cancel_timer s in
        (record s' { count = s'.count - 1 }, cs ++ cancel_recv s'))
    else (record s { count = s.count - 1 }, [])

-- `stream::timeout`: the new period, and the removal of the running timeout, which its completion
-- starts again.
unfoldable pub set_timeout : StreamImpl → Timespec → StreamImpl × List Call
set_timeout s ts = (
  record s { ts = ts },
  reserves 1
      ∷ prepares
          (record { op = timeout_remove timeouts; user_data = none; flags = skip_success ∷ [] })
      ∷ [],
)
