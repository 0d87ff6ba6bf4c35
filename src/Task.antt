-- ===== src/Task.antt =====
-- The coroutines of include/fiona/task.hpp, and those that include/fiona/executor.hpp spawns: who is
-- resumed when one ends, and what it gets. `A` is the type of a task's value; an exception is a
-- number. Where the code uses a promise whose frame is dead, reads a value that no one wrote, or
-- fails an assertion, an operation is `none`.
pub mod Awaits
pub mod Spawned
pub mod Delivery
pub mod Unawaited
pub mod Handles
pub mod Tests
use fiona.Base.{
  ◌>>=◌, ℕ, zero, suc, Bool, true, false, not, ◌&&◌, Result, ok, err, Option, none, some, is_some,
  List, [], ◌∷◌, ltb, leb, ◌==◌, if◌then◌else◌,
}
use fiona.Executor.Tasks.{Heap, TaskMap, drop_ref, erase_task, has_awaiter}

-- `result_type` with the union that it tells apart.
pub data Variant {ℓ} (A : Type ℓ) : Type ℓ where
  uninit : Variant A
  value : A → Variant A
  error : ℕ → Variant A

-- `promise` and `internal_promise_base`; the count of the latter is in the heap of frames.
pub record Promise {ℓ} (A : Type ℓ) : Type ℓ where
  pub variant : Variant A
  pub continuation : Option ℕ

-- How the body of a coroutine ends.
pub data Body {ℓ} (A : Type ℓ) : Type ℓ where
  returns : A → Body A
  throws : ℕ → Body A

-- `task::awaitable::await_ready`, on whether there is a coroutine and whether it is done.
unfoldable pub await_ready : (present done : Bool) → Bool
await_ready present done = if present then done else true

module _ {ℓ} {A : Type ℓ} where
  abbrev pub new_promise : Promise A
  new_promise = record { variant = uninit; continuation = none }

  -- `set_continuation`
  unfoldable pub set_continuation : ℕ → Promise A → Option (Promise A)
  set_continuation h p =
      if is_some p.continuation then none else some (record p { continuation = some h })

  -- `return_value` and `unhandled_exception` of `promise`
  unfoldable pub finish : Body A → Promise A → Promise A
  finish (returns a) p = record p { variant = value a }
  finish (throws e) p = record p { variant = error e }

  -- `result`: the value, or the exception that is rethrown.
  unfoldable pub result : Promise A → Option (Result ℕ A)
  result p = elim p.variant [ uninit ↦ none | value a ↦ some (ok a) | error e ↦ some (err e) ]

  -- `task::awaitable::await_suspend`: the child at `h` is resumed next.
  unfoldable pub await_suspend : (h parent : ℕ) → Promise A → Option (ℕ × Promise A)
  unfolding set_continuation
  await_suspend h parent p = set_continuation parent p >>= λ p'. some (h, p')

  -- `final_awaitable::await_suspend` of a `promise`: who is resumed next.
  unfoldable pub final_suspend : Promise A → Option ℕ
  final_suspend p = p.continuation

-- The task map with the counts, the promises in the frames, and `exception_ptr_`.
pub record Scheduler {ℓ} (A : Type ℓ) : Type ℓ where
  pub map : TaskMap
  pub promise : ℕ → Promise A
  pub exception_ptr : Option ℕ

-- `spawn_awaitable`
pub record SpawnAwaitable : Type 0 where
  pub task : ℕ
  pub was_awaited : Bool

-- What the resumption of a coroutine comes to when its body ends: it hands over to a coroutine, if
-- any, or the exception leaves `resume`.
pub data Ended {ℓ} (A : Type ℓ) : Type ℓ where
  hands_over : Option ℕ → Scheduler A → Ended A
  escapes : ℕ → Scheduler A → Ended A

module _ {ℓ} {A : Type ℓ} where
  -- The promise in the frame at `h`.
  abbrev pub promise_at : ℕ → Scheduler A → Option (Promise A)
  promise_at h s = if is_some (s.map.frames h) then some (s.promise h) else none

  abbrev pub with_promise : ℕ → Promise A → Scheduler A → Scheduler A
  with_promise h p s = record s { promise = λ x. if x == h then p else s.promise x }

  -- `promise_variant::emplace`
  unfoldable pub emplace : A → Promise A → Option (Promise A)
  emplace a p = elim p.variant [
    | uninit ↦ some (record p { variant = value a })
    | value b ↦ none
    | error e ↦ none
  ]

  -- `final_awaitable::await_suspend` of an `internal_promise`
  unfoldable pub end_task : ℕ → Scheduler A → Option (Ended A)
  unfolding erase_task
  end_task h s = do
    p ← promise_at h s
    m ← erase_task h s.map
    some (hands_over p.continuation (record s { map = m }))

  -- The end of the body of a spawned coroutine: `return_value` or `unhandled_exception`, and then the
  -- final suspension.
  unfoldable pub ends : ℕ → Body A → Scheduler A → Option (Ended A)
  unfolding emplace end_task has_awaiter
  ends h (returns a) s = do p ← promise_at h s; p' ← emplace a p; end_task h (with_promise h p' s)
  ends h (throws e) s = promise_at h s >>= λ p.
      if has_awaiter h s.map.frames
      then end_task h (with_promise h (record p { variant = error e }) s)
      else some (escapes e s)

  -- `spawn_awaitable::await_suspend`: whether the awaiting coroutine stays suspended.
  unfoldable pub spawn_suspend :
      SpawnAwaitable → (parent : ℕ) → Scheduler A → Option (Bool × Scheduler A)
  spawn_suspend a parent s = promise_at a.task s >>= λ p. s.map.frames a.task >>= λ n.
      if leb 1 n
      then some (not (ltb n 2), with_promise a.task (record p { continuation = some parent }) s)
      else none

  -- `spawn_awaitable::await_resume`
  unfoldable pub spawn_resume : SpawnAwaitable → Scheduler A → Option (Result ℕ A × SpawnAwaitable)
  unfolding result
  spawn_resume a s = do
    p ← promise_at a.task s
    r ← result p
    some (r, record a { was_awaited = true })

  -- `executor_access_policy::unhandled_exception`: the first exception is kept.
  unfoldable pub unhandled_exception : ℕ → Scheduler A → Scheduler A
  unhandled_exception e s =
      if is_some s.exception_ptr then s else record s { exception_ptr = some e }

  abbrev reported : SpawnAwaitable → Promise A → Scheduler A → Scheduler A
  reported a p s = elim p.variant [
    | uninit ↦ s
    | value v ↦ s
    | error e ↦ if a.was_awaited then s else unhandled_exception e s
  ]

  -- `~spawn_awaitable`, and the end of its `task_`.
  unfoldable pub destroy_awaitable : SpawnAwaitable → Scheduler A → Option (Scheduler A)
  unfolding unhandled_exception drop_ref
  destroy_awaitable a s = do
    p ← promise_at a.task s
    f ← drop_ref a.task s.map.frames
    let s' = reported a p s in some (record s' { map = record (s'.map) { frames = f } })
