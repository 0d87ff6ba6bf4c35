-- ===== src/Task/Awaits.antt =====
-- A task of include/fiona/task.hpp that another coroutine awaits.
use fiona.Base.{ℕ, ◌≡◌, refl, Result, ok, err, none, some}
use fiona.Task.{
  Promise, uninit, Body, returns, throws, new_promise, set_continuation, finish, result,
  await_suspend, final_suspend,
}

module _ {ℓ} {A : Type ℓ} where
  -- What the body ended with, as `result` gives it.
  abbrev pub outcome : Body A → Result ℕ A
  outcome (returns a) = ok a
  outcome (throws e) = err e

  -- A coroutine that awaits a new task hands over to it; when the task's body ends, the task hands over
  -- to that coroutine, and what it gets is the value or the exception that the body ended with. No
  -- second coroutine can await the task.
  await_task :
      (h parent other : ℕ) (b : Body A)
      → (p : Promise A) × (await_suspend h parent new_promise ≡ some (h, p))
        × (final_suspend (finish b p) ≡ some parent)
        × (result (finish b p) ≡ some (outcome b))
        × (set_continuation other p ≡ none)
  unfolding await_suspend set_continuation finish result final_suspend
  await_task h parent other (returns a) =
      (record { variant = uninit; continuation = some parent }, refl, refl, refl, refl)
  await_task h parent other (throws e) =
      (record { variant = uninit; continuation = some parent }, refl, refl, refl, refl)
