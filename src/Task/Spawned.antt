-- ===== src/Task/Spawned.antt =====
-- A spawned coroutine and its awaitable.
use fiona.Base.{
  ◌>>=◌, ℕ, suc, ◌≡◌, refl, Bool, true, false, Result, Option, none, some, has, without, arith, ltb,
  not, ◌==◌, ==_self, if◌then◌else◌,
}
use fiona.Executor.Tasks.{Heap, update, erase_task, has_awaiter}
use fiona.Executor.Tasks.Counts.{drop_ref-counted}
use fiona.Task.{
  Promise, Variant, uninit, value, error, Body, returns, throws, result, Scheduler, SpawnAwaitable,
  Ended, hands_over, escapes, with_promise, emplace, end_task, ends, spawn_suspend, spawn_resume,
  destroy_awaitable,
}
use fiona.Task.Awaits.{outcome}

-- A spawned task whose body has not ended, with the coroutine that awaits it, if any; its frame is held
-- by the task map and by its awaitable.
pub record IsRunning {ℓ} {A : Type ℓ} (s : Scheduler A) (h : ℕ) (o : Option ℕ) : Type ℓ where
  pub count : s.map.frames h ≡ some 2
  pub task : has h s.map.tasks ≡ true
  pub promise : s.promise h ≡ record { variant = uninit; continuation = o }

abbrev pub awaitable : ℕ → SpawnAwaitable
awaitable h = record { task = h; was_awaited = false }

-- What an awaiting coroutine sees, and what is left.
pub record Delivery {ℓ} (A : Type ℓ) : Type ℓ where
  pub suspends : Bool
  pub resumed : Option ℕ
  pub gets : Result ℕ A
  pub scheduler : Scheduler A

module _ {ℓ} {A : Type ℓ} where
  abbrev pub moved : {B : Type ℓ} → Ended A → (Option ℕ → Scheduler A → Option B) → Option B
  moved (hands_over o s) f = f o s
  moved (escapes e s) f = none

  -- The parent awaits, the body ends, the parent goes on, and the awaitable ends.
  unfoldable pub await_end : (h parent : ℕ) → Body A → Scheduler A → Option (Delivery A)
  await_end h parent b s = spawn_suspend (awaitable h) parent s >>= λ w. ends h b w.1 >>= λ t.
      moved t λ o s₂. spawn_resume (awaitable h) s₂ >>= λ r. destroy_awaitable r.1 s₂ >>= λ s₃.
      some (record { suspends = w.0; resumed = o; gets = r.0; scheduler = s₃ })

  -- The body ends, the parent awaits and goes on at once, and the awaitable ends.
  unfoldable pub end_await : (h parent : ℕ) → Body A → Scheduler A → Option (Delivery A)
  end_await h parent b s = ends h b s >>= λ t. moved t λ o s₁.
      spawn_suspend (awaitable h) parent s₁ >>= λ w. spawn_resume (awaitable h) w.1 >>= λ r.
      destroy_awaitable r.1 w.1 >>= λ s₃.
      some (record { suspends = w.0; resumed = o; gets = r.0; scheduler = s₃ })

  -- The task is off the map, its frame is dead, and nothing else has changed but its promise.
  pub record Settled (h : ℕ) (s d : Scheduler A) : Type 0 where
    pub tasks : d.map.tasks ≡ without h s.map.tasks
    pub dead : d.map.frames h ≡ none
    pub others : (x : ℕ) → (x == h) ≡ false → d.map.frames x ≡ s.map.frames x
    pub exception : d.exception_ptr ≡ s.exception_ptr

abbrev pub left {ℓ} : {A : Type ℓ} → Body A → Variant A
left (returns a) = value a
left (throws e) = error e

pub update_self : (h : ℕ) (f : Heap) (n : Option ℕ) → update f h n h ≡ n
update_self h f n = rw (==_self h) refl

pub awaited : (f : Heap) (h n : ℕ) → f h ≡ some n → has_awaiter h f ≡ ltb 1 n
unfolding has_awaiter
awaited f h n e = rw (e, has_awaiter) refl

module _ {ℓ} {A : Type ℓ} (h : ℕ) where
  -- What the end of a running task leaves.
  abbrev pub ended : (s : Scheduler A) (o : Option ℕ) → Body A → Scheduler A
  ended s o b = record {
    map = record { tasks = without h s.map.tasks; frames = update s.map.frames h (some 1) };
    promise = λ x. if x == h then record { variant = left b; continuation = o } else s.promise x;
    exception_ptr = s.exception_ptr;
  }

  pub ends_running :
      (s : Scheduler A) (o : Option ℕ)
      → IsRunning s h o
      → (b : Body A) → ends h b s ≡ some (hands_over o (ended s o b))
  unfolding ends emplace end_task erase_task
  ends_running s o c (returns a) =
      rw (c.count, c.promise, ==_self h, c.task, drop_ref-counted s.map.frames h 1 c.count) refl
  ends_running s o c (throws e) =
      rw
        (
          awaited s.map.frames h 2 c.count,
          c.count,
          c.promise,
          ==_self h,
          c.task,
          drop_ref-counted s.map.frames h 1 c.count,
        )
        refl

  pub suspend_lem :
      (s : Scheduler A) (n parent : ℕ) (p : Promise A)
      → s.map.frames h ≡ some (suc n)
      → s.promise h ≡ p
      → spawn_suspend (awaitable h) parent s
        ≡ some (not (ltb (suc n) 2), with_promise h (record p { continuation = some parent }) s)
  unfolding spawn_suspend
  suspend_lem s n parent p e q = rw (e, q) (ground arith)

  pub resume_lem :
      (s : Scheduler A) (n : ℕ) (b : Body A) (o : Option ℕ)
      → s.map.frames h ≡ some n
      → s.promise h ≡ record { variant = left b; continuation = o }
      → spawn_resume (awaitable h) s ≡ some (outcome b, record { task = h; was_awaited = true })
  unfolding spawn_resume result
  resume_lem s n (returns a) o e q = rw (e, q) refl
  resume_lem s n (throws r) o e q = rw (e, q) refl

  pub destroy_lem :
      (s : Scheduler A) (b : Body A) (o : Option ℕ)
      → s.map.frames h ≡ some 1
      → s.promise h ≡ record { variant = left b; continuation = o }
      → destroy_awaitable (record { task = h; was_awaited = true }) s
        ≡ some (record s { map = record (s.map) { frames = update s.map.frames h none } })
  unfolding destroy_awaitable
  destroy_lem s (returns a) o e q = rw (e, q, drop_ref-counted s.map.frames h 0 e) refl
  destroy_lem s (throws r) o e q = rw (e, q, drop_ref-counted s.map.frames h 0 e) refl

  pub promise_self : (p : Promise A) (s : Scheduler A) → (with_promise h p s).promise h ≡ p
  promise_self p s = rw (==_self h) refl

  pub ended_self :
      (s : Scheduler A) (o : Option ℕ) (b : Body A)
      → (ended s o b).promise h ≡ record { variant = left b; continuation = o }
  ended_self s o b = rw (==_self h) refl

  pub settled :
      (s : Scheduler A) (x : ℕ)
      → (x == h) ≡ false
      → update (update s.map.frames h (some 1)) h none x ≡ s.map.frames x
  settled s x e = rw (e) refl
