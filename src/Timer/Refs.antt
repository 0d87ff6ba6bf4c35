-- ===== src/Timer/Refs.antt =====
-- The references to a timer: those of its owners and of its awaitables, and one for each submission in
-- flight.
use mathlib.Core.Path.{subst}
use fiona.Base.{ℕ, suc, ◌+◌, ◌≡◌, refl, sym, ok, List, Bool, true, false, not, ◌&&◌, arith, to_int}
use fiona.Ring.{Call}
use fiona.Ring.Entries.{Timespec, Cqe}
use fiona.Timer.{TimerImpl, timer_impl, hold, let_go, complete_timeout, complete_cancel}
use fiona.Timer.Wait
use fiona.Timer.Wait.{timer_awaitable}
use fiona.Timer.Cancel

abbrev pub in_flight : Bool → Bool → ℕ
in_flight initiated done = to_int (initiated && not done)

-- The references held, by `holders` copies of the timer and awaitables and by the ring.
pub record Balanced (holders : ℕ) (t : TimerImpl) : Type 0 where
  pub refs :
      t.count ≡ holders + in_flight t.tf.initiated t.tf.done + in_flight t.cf.initiated t.cf.done
  pub wait_done : t.tf.initiated ≡ false → t.tf.done ≡ false
  pub cancel_done : t.cf.initiated ≡ false → t.cf.done ≡ false

-- What an awaitable does, and what the kernel completes: a completion arrives for what is in flight.
pub data Step (t u : TimerImpl) : Type 0 where
  waits : (h : ℕ) (cs : List Call) → Wait.await_suspend t h ≡ ok (u, cs) → Step t u
  cancels : (h : ℕ) (cs : List Call) → Cancel.await_suspend t h ≡ ok (u, cs) → Step t u
  wait_completes :
      (cqe : Cqe)
      → (t.tf.initiated && not t.tf.done) ≡ true
      → u ≡ (complete_timeout t cqe).1
      → Step t u
  cancel_completes :
      (cqe : Cqe)
      → (t.cf.initiated && not t.cf.done) ≡ true
      → u ≡ (complete_cancel t cqe).1
      → Step t u
  wait_resumes : t.tf.done ≡ true → u ≡ (Wait.await_resume t).0 → Step t u
  cancel_resumes : u ≡ (Cancel.await_resume t).0 → Step t u

-- The states of the timer `t`, with the number of its owners and of its awaitables: an owner is
-- copied and destroyed and makes awaitables, and an awaitable ends, also while its operation is in
-- flight.
pub data Reach (t : TimerImpl) : ℕ → ℕ → TimerImpl → Type 0 where
  here : {n a : ℕ} → n ≡ 1 → a ≡ 0 → Reach t n a t
  next : {n a : ℕ} {u w : TimerImpl} → Reach t n a u → Step u w → Reach t n a w
  asks_wait :
      {n a : ℕ} {u w : TimerImpl} (ts : Timespec)
      → Reach t (suc n) a u
      → w ≡ timer_awaitable (hold u) ts
      → Reach t (suc n) (suc a) w
  asks_cancel :
      {n a : ℕ} {u w : TimerImpl} → Reach t (suc n) a u → w ≡ hold u → Reach t (suc n) (suc a) w
  ends : {n a : ℕ} {u w : TimerImpl} → Reach t n (suc a) u → w ≡ let_go u → Reach t n a w
  copies :
      {n a : ℕ} {u w : TimerImpl} → Reach t (suc n) a u → w ≡ hold u → Reach t (suc (suc n)) a w
  destroys : {n a : ℕ} {u w : TimerImpl} → Reach t (suc n) a u → w ≡ let_go u → Reach t n a w

module _ (owners : ℕ) (t : TimerImpl) (b : Balanced owners t) where
  waits-Balanced :
      (h : ℕ) (u : TimerImpl) (cs : List Call)
      → Wait.await_suspend t h ≡ ok (u, cs)
      → Balanced owners u
  unfolding Wait.await_suspend
  waits-Balanced h u cs e = ground arith

  cancels-Balanced :
      (h : ℕ) (u : TimerImpl) (cs : List Call)
      → Cancel.await_suspend t h ≡ ok (u, cs)
      → Balanced owners u
  unfolding Cancel.await_suspend
  cancels-Balanced h u cs e = ground arith

  wait_completes-Balanced :
      (cqe : Cqe)
      → (t.tf.initiated && not t.tf.done) ≡ true
      → Balanced owners (complete_timeout t cqe).1
  unfolding complete_timeout
  wait_completes-Balanced cqe h = ground arith

  cancel_completes-Balanced :
      (cqe : Cqe)
      → (t.cf.initiated && not t.cf.done) ≡ true
      → Balanced owners (complete_cancel t cqe).1
  unfolding complete_cancel
  cancel_completes-Balanced cqe h = ground arith

  wait_resumes-Balanced : t.tf.done ≡ true → Balanced owners (Wait.await_resume t).0
  unfolding Wait.await_resume
  wait_resumes-Balanced h = ground arith

  cancel_resumes-Balanced : Balanced owners (Cancel.await_resume t).0
  unfolding Cancel.await_resume
  cancel_resumes-Balanced = ground arith

Step-Balanced : {owners : ℕ} {t u : TimerImpl} → Step t u → Balanced owners t → Balanced owners u
Step-Balanced {owners} {t} {u} (waits h cs e) b = waits-Balanced owners t b h u cs e
Step-Balanced {owners} {t} {u} (cancels h cs e) b = cancels-Balanced owners t b h u cs e
Step-Balanced {owners} {t} (wait_completes cqe h e) b =
    subst (Balanced owners) (sym e) (wait_completes-Balanced owners t b cqe h)
Step-Balanced {owners} {t} (cancel_completes cqe h e) b =
    subst (Balanced owners) (sym e) (cancel_completes-Balanced owners t b cqe h)
Step-Balanced {owners} {t} (wait_resumes h e) b =
    subst (Balanced owners) (sym e) (wait_resumes-Balanced owners t b h)
Step-Balanced {owners} {t} (cancel_resumes e) b =
    subst (Balanced owners) (sym e) (cancel_resumes-Balanced owners t b)

timer_impl-Balanced : Balanced 1 timer_impl
unfolding timer_impl
timer_impl-Balanced = ground arith

hold-Balanced : (n : ℕ) (t : TimerImpl) → Balanced n t → Balanced (suc n) (hold t)
unfolding hold
hold-Balanced n t b = ground arith

let_go-Balanced : (n : ℕ) (t : TimerImpl) → Balanced (suc n) t → Balanced n (let_go t)
unfolding let_go
let_go-Balanced n t b = ground arith

timer_awaitable-Balanced :
    (n : ℕ) (t : TimerImpl) (ts : Timespec) → Balanced n t → Balanced n (timer_awaitable t ts)
unfolding timer_awaitable
timer_awaitable-Balanced n t ts b = ground arith

cast : {m n : ℕ} {t u : TimerImpl} → Balanced m t → m ≡ n → u ≡ t → Balanced n u
cast {t = t} b e f = rw f (subst (λ k. Balanced k t) e b)

-- Through any run of waits, cancellations, completions, resumptions and ends of awaitables of a new
-- timer, with copies of the timer made and destroyed, its reference count is one for each owner, one
-- for each awaitable and one for each submission in flight.
pub Reach-Balanced : {n a : ℕ} {t : TimerImpl} → Reach timer_impl n a t → Balanced (n + a) t
Reach-Balanced (here e f) = rw (e, f) timer_impl-Balanced
Reach-Balanced (next r s) = Step-Balanced s (Reach-Balanced r)
Reach-Balanced (asks_wait {n} {a} {u} ts r e) =
    cast
      (timer_awaitable-Balanced (suc (suc n + a)) (hold u) ts
        (hold-Balanced (suc n + a) u (Reach-Balanced r)))
      (omega arith) e
Reach-Balanced (asks_cancel {n} {a} {u} r e) =
    cast (hold-Balanced (suc n + a) u (Reach-Balanced r)) (omega arith) e
Reach-Balanced (ends {n} {a} {u} r e) =
    rw e (let_go-Balanced (n + a) u (cast (Reach-Balanced r) (omega arith) refl))
Reach-Balanced (copies {n} {a} {u} r e) =
    cast (hold-Balanced (suc n + a) u (Reach-Balanced r)) (omega arith) e
Reach-Balanced (destroys {n} {a} {u} r e) =
    rw e (let_go-Balanced (n + a) u (cast (Reach-Balanced r) (omega arith) refl))
