-- ===== src/Executor/Tasks.antt =====
-- `task_map` of include/fiona/detail/common.hpp and the spawned coroutines of
-- include/fiona/executor.hpp. `frames` is the heap of coroutine frames: the `count_` of the promise at
-- an address, `none` where no frame lives. An operation is `none` where it uses a dead frame or fails
-- an assertion.
pub mod Counts
pub mod Life
pub mod Clear
pub mod Handles
pub mod Tests
use fiona.Base.{
  ◌>>=◌, without, has-without_self, has-without_ne, Distinct-without, ℕ, zero, suc, Bool, true,
  false, Option, none, some, List, [], ◌∷◌, has, ltb, ◌==◌, if◌then◌else◌,
}

abbrev pub Heap : Type 0
Heap = ℕ → Option ℕ

pub record TaskMap : Type 0 where
  pub tasks : List ℕ
  pub frames : Heap

abbrev pub update : Heap → ℕ → Option ℕ → Heap
update f h c x = if x == h then c else f x

-- `++h_.promise().count_`
unfoldable pub copy : ℕ → Heap → Option Heap
copy h f = elim (f h) [ none ↦ none | some n ↦ some (update f h (some (suc n))) ]

abbrev dropped : Heap → ℕ → ℕ → Option Heap
dropped f h zero = none
dropped f h (suc zero) = some (update f h none)
dropped f h (suc (suc n)) = some (update f h (some (suc n)))

-- `if ( --h_.promise().count_ == 0 ) h_.destroy()`, as in `~internal_task`.
unfoldable pub drop_ref : ℕ → Heap → Option Heap
drop_ref h f = elim (f h) [ none ↦ none | some n ↦ dropped f h n ]

-- `internal_task( h )`: the count of a new frame is set to 1.
unfoldable pub internal_task : ℕ → Heap → Heap
internal_task h f = update f h (some 1)

-- `task_map::add_task`
unfoldable pub add_task : ℕ → TaskMap → Option TaskMap
unfolding copy
add_task h m = do
  f ← copy h m.frames
  some (record { tasks = if has h m.tasks then m.tasks else h ∷ m.tasks; frames = f })

-- `task_map::erase_task`
unfoldable pub erase_task : ℕ → TaskMap → Option TaskMap
unfolding drop_ref
erase_task h m =
    if has h m.tasks
    then (do f ← drop_ref h m.frames; some (record { tasks = without h m.tasks; frames = f }))
    else none

-- The loop of `task_map::clear`, which takes the first entry until none is left.
clear_loop : List ℕ → Heap → Option TaskMap
clear_loop [] f = some (record { tasks = []; frames = f })
clear_loop (h ∷ hs) f = drop_ref h f >>= clear_loop hs

unfoldable pub clear : TaskMap → Option TaskMap
unfolding clear_loop
clear m = clear_loop m.tasks m.frames

-- `executor::spawn` on a new frame `h`, with the copies of `internal_task` that it makes: the argument
-- of `spawn_awaitable`, the member, and the ends of the argument and of the local variable.
unfoldable pub spawn : ℕ → TaskMap → Option TaskMap
unfolding internal_task add_task copy drop_ref
spawn h m = do
  m' ← add_task h (record m { frames = internal_task h m.frames })
  f₁ ← copy h m'.frames
  f₂ ← copy h f₁
  f₃ ← drop_ref h f₂
  f₄ ← drop_ref h f₃
  some (record m' { frames = f₄ })

-- The adoption of a posted task by the pipe's frame: the local `internal_task` ends with its scope.
unfoldable pub adopt : ℕ → TaskMap → Option TaskMap
unfolding internal_task add_task drop_ref
adopt h m = do
  m' ← add_task h (record m { frames = internal_task h m.frames })
  f ← drop_ref h m'.frames
  some (record m' { frames = f })

-- `has_awaiter` of `internal_promise_base::unhandled_exception`
unfoldable pub has_awaiter : ℕ → Heap → Bool
has_awaiter h f = elim (f h) [ none ↦ false | some n ↦ ltb 1 n ]
