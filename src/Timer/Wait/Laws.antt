-- ===== src/Timer/Wait/Laws.antt =====
-- What a wait comes to.
use fiona.Errno.{ebusy, etime}
use fiona.Base.{
  ℕ, ◌+◌, ◌*◌, ◌<◌, ◌≤◌, ◌≡◌, ℤ, pos, negsuc, pos_part, neg_part, neg, is_zero, is_errno, true,
  false, ◌||◌, Result, ok, err, none, some, [], ◌∷◌, arith, if◌then◌else◌,
}
use fiona.Ring.Entries.{Timespec, Cqe, timer_timeout, cancel, timeout, skip_success}
use fiona.Ring.{gets, submits}
use fiona.Timer.{TimerImpl, duration_to_timespec, complete_timeout}
use fiona.Timer.Wait.{async_wait, end_wait}

abbrev pub int64_end : ℕ
int64_end = 9_223_372_036_854_775_808

-- For a duration of whole nanoseconds in 64 bits that is not within a second of the least one, the time
-- that is set is the duration asked for: seconds and nanoseconds add up to it, with the nanoseconds
-- below a second, for negative durations too, and the seconds, as nanoseconds, are of 64 bits again, so
-- that no step of the conversion overflows.
pub duration_to_timespec_lem :
    (d : ℤ)
    → pos_part d < int64_end
    → neg_part d + 1_000_000_000 ≤ int64_end
    → let ts = duration_to_timespec d in
      (ts.nsec < 1_000_000_000)
      × (pos_part ts.sec * 1_000_000_000 + ts.nsec + neg_part d
          ≡ pos_part d + neg_part ts.sec * 1_000_000_000)
      × (pos_part ts.sec * 1_000_000_000 < int64_end)
      × (neg_part ts.sec * 1_000_000_000 ≤ int64_end)
unfolding duration_to_timespec
duration_to_timespec_lem (pos n) h l = (omega arith, omega arith, omega (arith, h), omega arith)
duration_to_timespec_lem (negsuc n) h l = (omega arith, omega arith, omega arith, omega (arith, l))

-- No wait is under way, and no result waits to be fetched.
pub record IsIdle (t : TimerImpl) : Type 0 where
  pub idle : t.tf.initiated ≡ false
  pub fetched : t.tf.done ≡ false
  pub clear : t.tf.ec ≡ none

-- What the kernel's result means to the caller: 0 and -ETIME are success.
abbrev pub meaning : ℤ → Result ℤ (Unit {0})
meaning r = if is_zero r || is_errno r etime then ok tt else err (neg r)

-- A wait on an idle timer queues one timeout; its completion resumes the waiting coroutine with the
-- meaning of the kernel's result, and leaves the timer idle, with as many references as before.
async_wait_complete :
    (t : TimerImpl) (ts : Timespec) (h : ℕ) (cqe : Cqe)
    → IsIdle t
    → let started = async_wait t ts h in
      let completed = complete_timeout started.0 cqe in
      let resumed = end_wait completed.1 in
      (started.1 ≡ ok tt)
      × (started.2
          ≡ gets (record { op = timeout timer_timeout; user_data = some timer_timeout; flags = [] })
            ∷ [])
      × (started.0.tf.ts ≡ ts)
      × (completed.0 ≡ some h)
      × (resumed.1 ≡ meaning cqe.res)
      × IsIdle resumed.0
      × (resumed.0.count ≡ t.count)
      × (resumed.0.cf ≡ t.cf)
unfolding async_wait complete_timeout end_wait
async_wait_complete t ts h cqe i = ground arith

-- A wait on a timer whose wait is in flight is refused with EBUSY, but not without effect: the
-- time of the first wait is overwritten, and the first wait is cancelled.
async_wait-busy :
    (t : TimerImpl) (ts : Timespec) (h : ℕ)
    → t.tf.initiated ≡ true
    → t.tf.done ≡ false
    → async_wait t ts h ≡ (
      record t { tf = record (t.tf) { ts = ts } },
      err (pos ebusy),
      gets (record { op = cancel timer_timeout; user_data = none; flags = skip_success ∷ [] })
          ∷ submits
          ∷ [],
    )
unfolding async_wait
async_wait-busy t ts h i d = ground arith
