-- ===== src/Timer/Tests.antt =====
-- A new timer, one that waits, and one whose wait is being cancelled.
use fiona.Base.{
  ◌+◌, ◌*◌, ◌<◌, ◌≤◌, ◌≡◌, refl, ℤ, pos, negsuc, true, false, none, some, arith, pos_part, neg_part,
}
use fiona.Ring.Entries.{Timespec, Cqe}
use fiona.Timer.{TimerImpl, zero_ts, timer_impl, hold, duration_to_timespec, complete_timeout}
use fiona.Timer.Wait
use fiona.Timer.Wait.{timer_awaitable, async_wait}
use fiona.Timer.Wait.Laws.{int64_end, duration_to_timespec_lem}
use fiona.Timer.Cancel
use fiona.Timer.Refs.{Balanced, here, next, waits, cancels, asks_wait, asks_cancel, Reach-Balanced}

abbrev idle : TimerImpl
idle = record {
  tf = record { ec = none; ts = zero_ts; h = none; initiated = false; done = false };
  cf = record { ec = none; h = none; initiated = false; done = false };
  count = 1;
}

abbrev half_second : Timespec
half_second = record { sec = pos 0; nsec = 500_000_000 }

abbrev waiting : TimerImpl
waiting = record idle {
  tf = record { ec = none; ts = half_second; h = some 40; initiated = true; done = false };
  count = 2;
}

abbrev cancelling : TimerImpl
cancelling = record waiting {
  cf = record { ec = none; h = some 48; initiated = true; done = false };
  count = 3;
}

abbrev cqe : ℤ → Cqe
cqe r = record { res = r; more = false; buffer_id = 0 }

idle_waits : (async_wait idle half_second 40).0 ≡ record waiting { count = 3 }
unfolding async_wait
idle_waits = refl

-- -62 is -ETIME.
expires : (complete_timeout waiting (cqe (negsuc 61))).0 ≡ some 40
unfolding complete_timeout
expires = refl

before_zero : duration_to_timespec (negsuc 0) ≡ record { sec = negsuc 0; nsec = 999_999_999 }
unfolding duration_to_timespec
before_zero = refl

-- A second and a half before zero.
duration_to_timespec_lem_example :
    let ts = duration_to_timespec (negsuc 1_499_999_999) in
    (ts.nsec < 1_000_000_000)
    × (pos_part ts.sec * 1_000_000_000 + ts.nsec + 1_500_000_000 ≡ neg_part ts.sec * 1_000_000_000)
    × (pos_part ts.sec * 1_000_000_000 < int64_end)
    × (neg_part ts.sec * 1_000_000_000 ≤ int64_end)
unfolding duration_to_timespec
duration_to_timespec_lem_example =
    duration_to_timespec_lem (negsuc 1_499_999_999) (omega arith) (omega arith)

-- A timer with one owner, whose wait and whose cancellation are suspended on.
Reach-Balanced_example : Balanced 3 (record cancelling { count = 5 })
unfolding timer_impl hold timer_awaitable Wait.await_suspend Cancel.await_suspend
Reach-Balanced_example = Reach-Balanced (
    next (asks_cancel (next (asks_wait half_second (here refl refl) refl) (waits 40 _ refl)) refl)
      (cancels 48 _ refl))
