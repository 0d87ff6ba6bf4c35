-- ===== src/Stream/Frames.antt =====
-- The frames of a stream that keep to themselves, of src/detail/stream_impl.hpp.
use fiona.Base.{ℕ, ℤ, pos, Bool, true, false, not, ◌&&◌, Option, none, some, List, to_int}
use fiona.Ring.Entries.{Cqe}
use fiona.Buffers.Provided.{RecvBuffer}

-- `cancel_frame`; `close_frame`, `socket_frame`, `connect_frame` and the acceptor's close frame have
-- the same members.
pub record OpFrame : Type 0 where
  pub h : Option ℕ
  pub res : ℤ
  pub initiated : Bool
  pub done : Bool

-- `reset`, and the state of a new frame.
abbrev pub idle : OpFrame
idle = record { h = none; res = pos 0; initiated = false; done = false }

-- `is_active`, as the number that it counts for.
unfoldable pub active : OpFrame → ℕ
active f = to_int (f.initiated && not f.done)

-- `cancel_frame::await_process_cqe`, and what `close_frame` and `send_frame` do to themselves.
unfoldable pub process_op : OpFrame → Cqe → OpFrame
process_op f cqe = record f { done = true; res = cqe.res }

-- `handle`: the handle, and the frame without it.
unfoldable pub take_handle : OpFrame → Option ℕ × OpFrame
take_handle f = (f.h, record f { h = none })

-- A submission: the waiting coroutine is kept, and the frame is in flight.
unfoldable pub initiate : OpFrame → ℕ → OpFrame
initiate f h = record f { h = some h; initiated = true }

-- `shutdown_frame`
pub record ShutdownFrame : Type 0 where
  pub op : OpFrame
  pub how : ℕ

-- `shutdown_frame::reset`
unfoldable pub reset_shutdown : ShutdownFrame → ShutdownFrame
reset_shutdown f = record { op = idle; how = 0 }

-- `send_frame`
pub record SendFrame : Type 0 where
  pub op : OpFrame
  pub last_send : ℕ

-- `send_frame::reset`, which keeps the time of the last send.
unfoldable pub reset_send : SendFrame → SendFrame
reset_send f = record f { op = idle }

-- `recv_frame`. The received buffers are a list, as `Sequence` justifies; `res_` is never written.
pub record RecvFrame : Type 0 where
  pub buffers : List RecvBuffer
  pub ec : Option ℤ
  pub h : Option ℕ
  pub last_recv : ℕ
  pub buffer_group_id : ℤ
  pub initiated : Bool

-- `timeout_frame`
pub record TimeoutFrame : Type 0 where
  pub initiated : Bool
  pub cancelled : Bool

-- `timeout_cancel_frame`
pub record TimeoutCancelFrame : Type 0 where
  pub res : ℤ
  pub initiated : Bool

-- `timeout_cancel_frame::await_process_cqe`
unfoldable pub process_timeout_cancel : TimeoutCancelFrame → Cqe → TimeoutCancelFrame
process_timeout_cancel f cqe = record { res = cqe.res; initiated = false }
