-- ===== src/Task/Unawaited.antt =====
-- What becomes of the outcome of a spawned coroutine that no one awaits.
use fiona.Base.{ℕ, ◌≡◌, refl, Option, none, some, ◌==◌, ==_self, without, if◌then◌else◌}
use fiona.Executor.Tasks.{update, erase_task}
use fiona.Executor.Tasks.Counts.{drop_ref-counted}
use fiona.Task.{
  Body, returns, throws, Scheduler, Ended, hands_over, escapes, ends, emplace, end_task,
  destroy_awaitable, unhandled_exception,
}
use fiona.Task.Spawned.{IsRunning, awaitable, left, awaited, update_self, ended, ends_running}

-- The stored exception after the end of a body that no one heard of: the first is kept.
abbrev pub report {ℓ} : {A : Type ℓ} → Body A → Option ℕ → Option ℕ
report (returns a) x = x
report (throws e) none = some e
report (throws e) (some r) = some r

-- The end of a body without an awaitable: the task is gone, or the exception leaves it as it is.
abbrev unheard {ℓ} : {A : Type ℓ} → Body A → (gone kept : Scheduler A) → Ended A
unheard (returns a) gone kept = hands_over none gone
unheard (throws e) gone kept = escapes e kept

module _ {ℓ} {A : Type ℓ} (s : Scheduler A) (h : ℕ) (c : IsRunning s h none) where
  -- The running task without its awaitable.
  abbrev dropped : Scheduler A
  dropped = record s { map = record (s.map) { frames = update s.map.frames h (some 1) } }

  drop_running : destroy_awaitable (awaitable h) s ≡ some dropped
  unfolding destroy_awaitable
  drop_running = rw (c.count, c.promise, drop_ref-counted s.map.frames h 1 c.count) refl

  -- What the end of the task leaves then.
  abbrev alone : Body A → Scheduler A
  alone b = record {
    map = record {
      tasks = without h s.map.tasks;
      frames = update (update s.map.frames h (some 1)) h none;
    };
    promise = λ x. if x == h then record { variant = left b; continuation = none } else s.promise x;
    exception_ptr = s.exception_ptr;
  }

  ends-dropped : (b : Body A) → ends h b dropped ≡ some (unheard b (alone b) dropped)
  unfolding ends emplace end_task erase_task
  ends-dropped (returns a) =
      let one = update_self h s.map.frames (some 1) in
      rw
        (
          one,
          c.promise,
          ==_self h,
          c.task,
          drop_ref-counted (update s.map.frames h (some 1)) h 0 one,
        )
        refl
  ends-dropped (throws e) =
      let one = update_self h s.map.frames (some 1) in
      rw (awaited (update s.map.frames h (some 1)) h 1 one, one) refl

  drop_stored :
      (b : Body A) (x : Option ℕ)
      → destroy_awaitable (awaitable h) (record (ended h s none b) { exception_ptr = x })
        ≡ some (record (alone b) { exception_ptr = report b x })
  unfolding destroy_awaitable unhandled_exception
  drop_stored (returns a) x =
      let one = update_self h s.map.frames (some 1) in
      rw (one, ==_self h, drop_ref-counted (update s.map.frames h (some 1)) h 0 one) refl
  drop_stored (throws e) none =
      let one = update_self h s.map.frames (some 1) in
      rw (one, ==_self h, drop_ref-counted (update s.map.frames h (some 1)) h 0 one) refl
  drop_stored (throws e) (some r) =
      let one = update_self h s.map.frames (some 1) in
      rw (one, ==_self h, drop_ref-counted (update s.map.frames h (some 1)) h 0 one) refl

  -- Where the awaitable of a running task that no one awaits ends before the body does, a value is dropped
  -- and the task dies, and an exception leaves the `resume` that ran the body. Where the body ends
  -- first, it hands over to no one, and an exception is stored when the awaitable ends, unless another
  -- is stored already. The frame is dead then.
  pub unawaited :
      (b : Body A)
      → (s₁ d t : Scheduler A) × (destroy_awaitable (awaitable h) s ≡ some s₁)
        × (ends h b s₁ ≡ some (unheard b d s₁))
        × (ends h b s ≡ some (hands_over none t))
        × (destroy_awaitable (awaitable h) t
            ≡ some (record d { exception_ptr = report b s.exception_ptr }))
        × (s₁.exception_ptr ≡ s.exception_ptr)
        × (d.exception_ptr ≡ s.exception_ptr)
        × (d.map.frames h ≡ none)
  unawaited b = (
    dropped,
    alone b,
    ended h s none b,
    drop_running,
    ends-dropped b,
    ends_running h s none c b,
    drop_stored b s.exception_ptr,
    refl,
    refl,
    update_self h (update s.map.frames h (some 1)) none,
  )
