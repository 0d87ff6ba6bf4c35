-- ===== src/RunLoop.antt =====
-- `io_context::run` of src/io_context.cpp with its `guard`. The frames that completions name are known
-- by their address, and `refs` has their use counts. What a coroutine does when it is resumed, and what
-- a frame does with its completion (the complete_ functions of the other parts), is the parameter
-- `Program`; the completions that the kernel posts are lists that the caller gives.
pub mod Steps
pub mod Passes
pub mod Guard
pub mod Loop
pub mod Frame
pub mod Tests
use fiona.Base.{
  ◌>>=◌, ℕ, zero, suc, Bool, true, false, Option, none, some, List, [], ◌∷◌, ◌++◌, drop, has, leb,
  not, if◌then◌else◌, or_else,
}
use fiona.Ring.Entries.{Cqe}
use fiona.Executor.Tasks.{Heap, TaskMap, update, clear}

-- An entry of the completion queue: the frame behind its `user_data`, unless that is null.
pub record Completion : Type 0 where
  pub user_data : Option ℕ
  pub cqe : Cqe

-- `io_context_frame` as far as the loop uses it; `world` is what frames and coroutines keep.
pub record Context (S : Type 0) : Type 0 where
  pub tasks : TaskMap
  pub refs : Heap
  pub run_queue : List ℕ
  pub exception_ptr : Option ℕ
  pub world : S

-- A call that returns a value or lets an exception escape.
pub data Outcome (S A : Type 0) : Type 0 where
  returned : A → Context S → Outcome S A
  raised : ℕ → Context S → Outcome S A

-- `resume` of a coroutine handle; `await_process_cqe` of a frame and then its `handle()`; and what the
-- destructors in the coroutine frames do that `task_map::clear` destroys, given the map before and the
-- context with the empty map.
pub record Program (S : Type 0) : Type 0 where
  pub resume : ℕ → Context S → Outcome S Unit
  pub process : ℕ → Cqe → Context S → Outcome S (Option ℕ)
  pub destroy : TaskMap → Context S → Context S

-- `use_count()`; a dead frame has none.
abbrev pub use_count : Heap → ℕ → ℕ
use_count f h = or_else 0 (f h)

abbrev released : Heap → ℕ → ℕ → Option Heap
released f h zero = none
released f h (suc zero) = some (update f h none)
released f h (suc (suc n)) = some (update f h (some (suc n)))

-- `intrusive_ptr_release`
unfoldable pub release : ℕ → Heap → Option Heap
release h f = released f h (use_count f h)

-- All lists in order.
abbrev pub join : List (List Completion) → List Completion
join [] = []
join (xs ∷ xss) = xs ++ join xss

-- What the loop over a batch leaves: the context, the handles written, the count that `advance_guard`
-- gives back, and the exception that left the loop, if any.
pub record Batch (S : Type 0) : Type 0 where
  pub context : Context S
  pub handles : List ℕ
  pub advanced : ℕ
  pub thrown : Option ℕ

-- The loop of `~guard` over the completions that are left, with the frames of the earlier ones.
unfoldable pub reap : List Completion → (blacklist : List ℕ) → Heap → Option Heap
unfolding release
reap [] blacklist f = some f
reap (x ∷ xs) blacklist f = elim x.user_data [
  | none ↦ reap xs blacklist f
  | some q ↦
      if has q blacklist then reap xs blacklist f else release q f >>= reap xs (q ∷ blacklist)
]

-- What leaves the loop of `run` is its end or an exception, with the completions not yet taken off
-- the queue; or the loop waits for a completion.
pub data Halt (S : Type 0) : Type 0 where
  leaves : Outcome S Unit → (left : List Completion) → Halt S
  waits : Context S → Halt S

module _ {S : Type 0} where
  -- The end of the scope of `q`.
  abbrev ended : {A : Type 0} → ℕ → Outcome S A → Option (Outcome S A)
  ended q (returned o c) = release q c.refs >>= λ f. some (returned o (record c { refs = f }))
  ended q (raised e c) = release q c.refs >>= λ f. some (raised e (record c { refs = f }))

  -- The test of `exception_ptr_` after a call.
  abbrev pub checked : {A : Type 0} → Outcome S A → Outcome S A
  checked (raised e c) = raised e c
  checked (returned o c) = elim c.exception_ptr [ none ↦ returned o c | some e ↦ raised e c ]

  -- The body of the loop for one completion.
  unfoldable pub step : Program S → Completion → Context S → Option (Outcome S (Option ℕ))
  unfolding release
  step p x c = elim x.user_data [
    | none ↦ some (returned none c)
    | some q ↦ if leb 1 (use_count c.refs q) then ended q (checked (p.process q x.cqe c)) else none
  ]

  abbrev pub push : Option ℕ → Batch S → Batch S
  push none b = record b { advanced = suc b.advanced }
  push (some h) b = record b { handles = h ∷ b.handles; advanced = suc b.advanced }

  -- The loop over the completions that are ready.
  unfoldable pub batch : Program S → List Completion → Context S → Option (Batch S)
  unfolding step
  batch p [] c = some (record { context = c; handles = []; advanced = 0; thrown = none })
  batch p (x ∷ xs) c = step p x c >>= λ o. elim o [
    | returned h c' ↦ batch p xs c' >>= λ b. some (push h b)
    | raised e c' ↦ some (record { context = c'; handles = []; advanced = 0; thrown = some e })
  ]

  -- The loop that resumes the handles of a batch.
  unfoldable pub resume_all : Program S → List ℕ → Context S → Outcome S Unit
  resume_all p [] c = returned tt c
  resume_all p (h ∷ hs) c = elim (p.resume h c) [
    | returned u c' ↦ resume_all p hs c'
    | raised e c' ↦ raised e c'
  ]

  abbrev pub popped : Context S → Context S
  popped c = record c { run_queue = drop 1 c.run_queue }

  -- What follows `h.resume()` for the front of the run queue: its removal and the test.
  abbrev pub resumed : Outcome S Unit → Outcome S Unit
  resumed (raised e c) = raised e c
  resumed (returned u c) = checked (returned u (popped c))

  -- The loop over the run queue, for at most `fuel` handles.
  unfoldable pub drain : (fuel : ℕ) → Program S → Context S → Option (Outcome S Unit)
  drain zero p c = none
  drain (suc fuel) p c = elim c.run_queue [
    | [] ↦ some (returned tt c)
    | h ∷ hs ↦ elim (resumed (p.resume h c)) [
      | returned u c' ↦ drain fuel p c'
      | raised e c' ↦ some (raised e c')
    ]
  ]

  -- `~guard`, where `left` are the completions that it finds.
  unfoldable pub clean_up : Program S → (left : List Completion) → Context S → Option (Context S)
  unfolding reap
  clean_up p left c = clear c.tasks >>= λ m.
      let e = p.destroy c.tasks (record c { tasks = m }) in
      reap left [] e.refs >>= λ f. some (record e { refs = f })

  abbrev pub is_empty : Context S → Bool
  is_empty c = elim c.tasks.tasks [ [] ↦ true | _ ↦ false ]

  -- The part of an iteration that precedes the wait: what ends the loop, or the context that waits.
  unfoldable pub turn : (fuel : ℕ) → Program S → Context S → Option (Outcome S Bool)
  unfolding drain
  turn fuel p c =
      if is_empty c then some (checked (returned false c)) else elim (checked (returned tt c)) [
        | raised e c' ↦ some (raised e c')
        | returned u c' ↦ drain fuel p c' >>= λ o. elim o [
          | raised e c'' ↦ some (raised e c'')
          | returned u' c'' ↦
              some (if is_empty c'' then checked (returned false c'') else returned true c'')
        ]
      ]

  -- The loop of `run`, where `posted` has what the kernel posts for each wait. An iteration drains
  -- at most `fuel` handles.
  unfoldable pub loop :
      (fuel : ℕ) → Program S → (posted : List (List Completion)) → Context S → Option (Halt S)
  unfolding turn batch resume_all
  loop fuel p [] c = turn fuel p c >>= λ o. elim o [
    | raised e c' ↦ some (leaves (raised e c') [])
    | returned more c' ↦ some (if more then waits c' else leaves (returned tt c') [])
  ]
  loop fuel p (xs ∷ posted) c = turn fuel p c >>= λ o. elim o [
    | raised e c' ↦ some (leaves (raised e c') (join (xs ∷ posted)))
    | returned more c' ↦
        if not more
        then some (leaves (returned tt c') (join (xs ∷ posted)))
        else batch p xs c' >>= λ b. elim b.thrown [
          | some e ↦ some (leaves (raised e b.context) (drop b.advanced xs ++ join posted))
          | none ↦ elim (resume_all p b.handles b.context) [
            | raised e c'' ↦ some (leaves (raised e c'') (join posted))
            | returned u c'' ↦ loop fuel p posted c''
          ]
        ]
  ]

  -- The counts of the frame that `pipe_awaitable` makes: its own reference and that of its entry.
  abbrev pub opened : ℕ → Context S → Context S
  opened pipe c = record c { refs = update c.refs pipe (some 2) }

  -- The end of `pipe_awaitable`, and then of the guard.
  unfoldable pub close_down :
      Program S → (pipe : ℕ) → (left : List Completion) → Context S → Option (Context S)
  unfolding release clean_up
  close_down p pipe left c = release pipe c.refs >>= λ f. clean_up p left (record c { refs = f })

  -- `io_context::run`, with the frame of its pipe at a new address. `none` stands also for a loop
  -- that waits for a completion.
  unfoldable pub run :
      (fuel pipe : ℕ)
      → Program S
      → (posted : List (List Completion)) → Context S
      → Option (Outcome S Unit)
  unfolding loop close_down
  run fuel pipe p posted c = loop fuel p posted (opened pipe c) >>= λ h. elim h [
    | waits c' ↦ none
    | leaves (returned u c') left ↦ close_down p pipe left c' >>= λ d. some (returned u d)
    | leaves (raised e c') left ↦ close_down p pipe left c' >>= λ d. some (raised e d)
  ]
