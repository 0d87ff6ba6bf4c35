-- ===== src/Timer/Cancel.antt =====
-- `timer_cancel_awaitable` of src/time.cpp.
pub mod Laws
use fiona.Errno.{ebusy}
use fiona.Base.{
  ℕ, suc, ℤ, pos, Bool, true, false, not, ◌||◌, Result, ok, err, Option, none, some, List, [], ◌∷◌,
  if◌then◌else◌,
}
use fiona.Ring.Entries.{Frame, timer_timeout, timer_cancel, cancel}
use fiona.Ring.{Call, gets}
use fiona.Timer.{CancelFrame, TimerImpl, reset_cancel, hold, let_go}

pub await_ready : TimerImpl → Result ℤ Bool
await_ready t = if t.cf.initiated then err (pos ebusy) else ok false

unfoldable pub await_suspend : TimerImpl → ℕ → Result ℤ (TimerImpl × List Call)
await_suspend t h =
    if t.cf.initiated
    then err (pos ebusy)
    else ok (
      record t { cf = record (t.cf) { h = some h; initiated = true }; count = suc t.count },
      gets (record { op = cancel timer_timeout; user_data = some timer_cancel; flags = [] }) ∷ [],
    )

abbrev to_result : Option ℤ → Result ℤ (Unit {0})
to_result none = ok tt
to_result (some e) = err e

-- Outside a finished cancellation the call throws EBUSY and changes nothing.
unfoldable pub await_resume : TimerImpl → TimerImpl × Result ℤ (Unit {0})
unfolding reset_cancel
await_resume t =
    if not t.cf.initiated || not t.cf.done
    then (t, err (pos ebusy))
    else (record t { cf = reset_cancel t.cf }, to_result t.cf.ec)

-- `co_await timer.async_cancel()` up to the suspension: the awaitable has a reference of its own. Its
-- destructor makes no call.
unfoldable pub async_cancel : TimerImpl → ℕ → TimerImpl × Result ℤ (Unit {0}) × List Call
unfolding await_ready await_suspend hold let_go
async_cancel t h =
    let made = hold t in
    elim (await_ready made) [
      | err e ↦ (let_go made, err e, [])
      | ok _ ↦ elim (await_suspend made h) [
        | err e ↦ (let_go made, err e, [])
        | ok (t', cs) ↦ (t', ok tt, cs)
      ]
    ]

-- The end of the expression after its resumption.
unfoldable pub end_cancel : TimerImpl → TimerImpl × Result ℤ (Unit {0})
unfolding await_resume let_go
end_cancel t = let (t', r) = await_resume t in (let_go t', r)
