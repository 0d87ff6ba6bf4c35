-- ===== src/Timer/Wait.antt =====
-- `timer_awaitable` of src/time.cpp, and `co_await timer.async_wait( d )` as the language runs it.
pub mod Laws
use fiona.Errno.{ebusy}
use fiona.Base.{
  ℕ, suc, ℤ, pos, Bool, true, false, not, ◌&&◌, Result, ok, err, Option, none, some, List, [], ◌∷◌,
  if◌then◌else◌,
}
use fiona.Ring.Entries.{Timespec, Frame, timer_timeout, cancel, timeout, skip_success}
use fiona.Ring.{Call, gets, submits}
use fiona.Timer.{TimeoutFrame, TimerImpl, reset_timeout, hold, let_go}

-- The constructor stores the time in the frame.
unfoldable pub timer_awaitable : TimerImpl → Timespec → TimerImpl
timer_awaitable t ts = record t { tf = record (t.tf) { ts = ts } }

-- The destructor cancels a wait that is in flight.
pub destroy_awaitable : TimerImpl → List Call
destroy_awaitable t =
    if t.tf.initiated && not t.tf.done
    then gets (record { op = cancel timer_timeout; user_data = none; flags = skip_success ∷ [] })
      ∷ submits
      ∷ []
    else []

pub await_ready : TimerImpl → Result ℤ Bool
await_ready t = if t.tf.initiated then err (pos ebusy) else ok false

unfoldable pub await_suspend : TimerImpl → ℕ → Result ℤ (TimerImpl × List Call)
await_suspend t h =
    if t.tf.initiated
    then err (pos ebusy)
    else ok (
      record t { tf = record (t.tf) { h = some h; initiated = true }; count = suc t.count },
      gets (record { op = timeout timer_timeout; user_data = some timer_timeout; flags = [] }) ∷ [],
    )

abbrev to_result : Option ℤ → Result ℤ (Unit {0})
to_result none = ok tt
to_result (some e) = err e

unfoldable pub await_resume : TimerImpl → TimerImpl × Result ℤ (Unit {0})
unfolding reset_timeout
await_resume t = (record t { tf = reset_timeout t.tf }, to_result t.tf.ec)

-- `co_await`: the awaitable is made, with a reference of its own, asked, and suspended on. An
-- exception from either call ends the expression, and the awaitable is destroyed; else it lives
-- through the suspension.
unfoldable pub async_wait : TimerImpl → Timespec → ℕ → TimerImpl × Result ℤ (Unit {0}) × List Call
unfolding timer_awaitable destroy_awaitable await_ready await_suspend hold let_go
async_wait t ts h =
    let made = timer_awaitable (hold t) ts in
    elim (await_ready made) [
      | err e ↦ (let_go made, err e, destroy_awaitable made)
      | ok _ ↦ elim (await_suspend made h) [
        | err e ↦ (let_go made, err e, destroy_awaitable made)
        | ok (t', cs) ↦ (t', ok tt, cs)
      ]
    ]

-- The end of the expression after its resumption: the result is fetched and the awaitable destroyed.
unfoldable pub end_wait : TimerImpl → TimerImpl × Result ℤ (Unit {0}) × List Call
unfolding await_resume destroy_awaitable let_go
end_wait t = let (t', r) = await_resume t in (let_go t', r, destroy_awaitable t')
