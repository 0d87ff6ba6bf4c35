-- ===== src/Timer/Cancel/Laws.antt =====
-- What a cancellation of a timer comes to.
use fiona.Base.{
  ℕ, ◌≡◌, ℤ, is_neg, neg, false, Result, ok, err, none, some, [], ◌∷◌, arith, if◌then◌else◌,
}
use fiona.Ring.Entries.{Cqe, timer_timeout, timer_cancel, cancel}
use fiona.Ring.{gets}
use fiona.Timer.{TimerImpl, complete_cancel}
use fiona.Timer.Cancel.{async_cancel, end_cancel}

-- The caller gets the error of a negative result, and success for any other.
abbrev pub meaning : ℤ → Result ℤ (Unit {0})
meaning r = if is_neg r then err (neg r) else ok tt

-- A cancellation, where none is under way and no error is left of one, queues one entry that aims
-- at the wait; its completion resumes the caller with the meaning of the kernel's result, and the
-- timer's wait and its number of references are as before.
async_cancel_complete :
    (t : TimerImpl) (h : ℕ) (cqe : Cqe)
    → t.cf.initiated ≡ false
    → t.cf.ec ≡ none
    → let started = async_cancel t h in
      let completed = complete_cancel started.0 cqe in
      let resumed = end_cancel completed.1 in
      (started.1 ≡ ok tt)
      × (started.2
          ≡ gets (record { op = cancel timer_timeout; user_data = some timer_cancel; flags = [] })
            ∷ [])
      × (completed.0 ≡ some h)
      × (resumed.1 ≡ meaning cqe.res)
      × (resumed.0.cf.initiated ≡ false)
      × (resumed.0.tf ≡ t.tf)
      × (resumed.0.count ≡ t.count)
unfolding async_cancel complete_cancel end_cancel
async_cancel_complete t h cqe i c = ground arith
