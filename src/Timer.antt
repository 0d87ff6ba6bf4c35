-- ===== src/Timer.antt =====
-- src/time.cpp and include/fiona/detail/time.hpp: a timer with its two frames, one for the wait and
-- one for its cancellation. A coroutine handle is its address; a null handle is `none`. A cleared
-- error code is `none`. The children have the two awaitables.
pub mod Wait
pub mod Cancel
pub mod Refs
pub mod Tests
use fiona.Errno.{etime}
use fiona.Base.{
  ℕ, suc, ◌+◌, ◌-◌, ◌*◌, ◌/◌, ◌%◌, ℤ, pos, negsuc, neg, is_neg, is_zero, is_pos, Bool, true, false,
  not, ◌&&◌, ◌||◌, Option, none, some, if◌then◌else◌,
}
use fiona.Ring.Entries.{Timespec, Cqe}

-- `duration_to_timespec`, at a duration in nanoseconds: the seconds are rounded down. It is what the
-- template computes where no step leaves the 64 bits, which its theorem bounds.
pub duration_to_timespec : ℤ → Timespec
duration_to_timespec (pos n) = record { sec = pos (n / 1_000_000_000); nsec = n % 1_000_000_000 }
duration_to_timespec (negsuc n) = record {
  sec = negsuc (n / 1_000_000_000);
  nsec = 999_999_999 - n % 1_000_000_000;
}

pub record TimeoutFrame : Type 0 where
  pub ec : Option ℤ
  pub ts : Timespec
  pub h : Option ℕ
  pub initiated : Bool
  pub done : Bool

pub record CancelFrame : Type 0 where
  pub ec : Option ℤ
  pub h : Option ℕ
  pub initiated : Bool
  pub done : Bool

-- `timer_impl`, with the count of `ref_count`.
pub record TimerImpl : Type 0 where
  pub tf : TimeoutFrame
  pub cf : CancelFrame
  pub count : ℕ

abbrev pub zero_ts : Timespec
zero_ts = record { sec = pos 0; nsec = 0 }

-- `timeout_frame::reset`
pub reset_timeout : TimeoutFrame → TimeoutFrame
reset_timeout f = record f { ts = zero_ts; h = none; initiated = false; done = false; ec = none }

-- `timeout_frame::await_process_cqe`
pub process_timeout : TimeoutFrame → Cqe → TimeoutFrame
process_timeout f cqe =
    let e = neg cqe.res in
    if not (is_zero e) && not (is_pos e etime)
    then record f { done = true; ec = some e }
    else record f { done = true }

-- `timeout_frame::handle`: the handle, and the frame without it.
pub handle_timeout : TimeoutFrame → Option ℕ × TimeoutFrame
handle_timeout f = (f.h, record f { h = none })

-- `cancel_frame::reset`
pub reset_cancel : CancelFrame → CancelFrame
reset_cancel f = record f { initiated = false; done = false; ec = none }

-- `cancel_frame::await_process_cqe`
pub process_cancel : CancelFrame → Cqe → CancelFrame
process_cancel f cqe =
    if is_neg cqe.res
    then record f { done = true; ec = some (neg cqe.res) }
    else record f { done = true }

-- `cancel_frame::handle`
pub handle_cancel : CancelFrame → Option ℕ × CancelFrame
handle_cancel f = (f.h, record f { h = none })

-- `timer::timer`: one reference, that of the timer.
pub timer_impl : TimerImpl
timer_impl = record {
  tf = record { ec = none; ts = zero_ts; h = none; initiated = false; done = false };
  cf = record { ec = none; h = none; initiated = false; done = false };
  count = 1;
}

-- A copy of the timer's `ptimer_`, which an awaitable is constructed with and which a copy of the
-- timer has, and its destruction.
unfoldable pub hold : TimerImpl → TimerImpl
hold t = record t { count = suc t.count }

unfoldable pub let_go : TimerImpl → TimerImpl
let_go t = record t { count = t.count - 1 }

-- What `io_context::run` does with a completion of the wait: process it, take the handle to resume,
-- and drop the reference of the submission.
pub complete_timeout : TimerImpl → Cqe → Option ℕ × TimerImpl
unfolding process_timeout handle_timeout
complete_timeout t cqe =
    let (h, f) = handle_timeout (process_timeout t.tf cqe) in
    (h, record t { tf = f; count = t.count - 1 })

-- The same for a completion of the cancellation.
pub complete_cancel : TimerImpl → Cqe → Option ℕ × TimerImpl
unfolding process_cancel handle_cancel
complete_cancel t cqe =
    let (h, f) = handle_cancel (process_cancel t.cf cqe) in
    (h, record t { cf = f; count = t.count - 1 })
