-- ===== src/RunLoop/Loop.antt =====
-- The iterations of `io_context::run`.
use fiona.Base.{
  ℕ, ◌+◌, ◌<◌, ◌≤◌, ◌≡◌, refl, true, some, List, [], ◌∷◌, Distinct, All, has, to_int, if◌then◌else◌,
  if_cases,
}
use fiona.Executor.Tasks.{Heap}
use fiona.Executor.Tasks.Clear.{Lives, one_less, clear_lem}
use fiona.RunLoop.{
  release, Completion, Context, Outcome, returned, raised, Program, use_count, resumed, is_empty,
  turn, loop, join, run, opened, close_down, clean_up,
}
use fiona.RunLoop.Guard.{named, reap_lem}

module _ {S : Type 0} where
  -- The run queue is empty, or an exception left the loop over it.
  abbrev pub Drained : Outcome S Unit → Type 0
  Drained (returned u c) = c.run_queue ≡ []
  Drained (raised e c) = Unit

  -- Each turn of the loop over the run queue that does not throw makes the weight less.
  abbrev pub Lightens : Program S → (Context S → ℕ) → Type 0
  Lightens p weight =
      (h : ℕ) (hs : List ℕ) (c c' : Context S)
      → c.run_queue ≡ h ∷ hs
      → resumed (p.resume h c) ≡ returned tt c'
      → weight c' < weight c

  -- The context that the guard's clean-up finds: the pipe's frame is released, the tasks are off the map
  -- with one reference less, and the destructors in the frames that died have run.
  abbrev pub unwound : Program S → (refs : Heap) → Context S → Context S
  unwound p refs c = p.destroy c.tasks (record c {
    tasks = record {
      tasks = [];
      frames = λ x. if has x c.tasks.tasks then one_less (c.tasks.frames x) else c.tasks.frames x;
    };
    refs = refs;
  })

  -- What the clean-up leaves: one reference less for each frame that a completion left on the queue
  -- names, and all else as it found it.
  pub record Closed (left : List Completion) (e d : Context S) : Type 0 where
    pub counts : (x : ℕ) → use_count d.refs x + to_int (named x left) ≡ use_count e.refs x
    pub tasks : d.tasks ≡ e.tasks
    pub stored : d.exception_ptr ≡ e.exception_ptr
    pub queued : d.run_queue ≡ e.run_queue

  -- Where the tasks are distinct and live, the pipe's frame lives, and each frame that a completion left
  -- on the queue names lives still once the tasks are off the map and destroyed, the end of `run` does
  -- not fail: each frame that a completion left names is released exactly once, however many name it,
  -- no other count changes, and the tasks, the stored exception and the run queue are left as the
  -- destructors left them.
  pub close_down-Closed :
      (p : Program S) (pipe : ℕ) (left : List Completion) (c : Context S) (f : Heap)
      → Distinct c.tasks.tasks
      → All (Lives c.tasks.frames) c.tasks.tasks
      → release pipe c.refs ≡ some f
      → ((x : ℕ) → named x left ≡ true → 1 ≤ use_count (unwound p f c).refs x)
      → (d : Context S) × (close_down p pipe left c ≡ some d) × Closed left (unwound p f c) d
  unfolding close_down clean_up
  close_down-Closed p pipe left c f dis live r a =
      let (f₂, e₂, l₂) = reap_lem left (unwound p f c).refs a in
      (
        record (unwound p f c) { refs = f₂ },
        rw (r, clear_lem c.tasks dis live, e₂) refl,
        record { counts = l₂; tasks = refl; stored = refl; queued = refl },
      )

  turn_stored :
      (fuel : ℕ) (p : Program S) (c : Context S) (e : ℕ)
      → c.exception_ptr ≡ some e
      → turn fuel p c ≡ some (raised e c)
  unfolding turn
  turn_stored fuel p c e s =
      simp s (if_cases (λ z. z ≡ some (raised e c)) (is_empty c) refl (λ w. refl))

  -- Where an exception is stored at the start of `run` and the conditions hold under which its end does
  -- not fail, the run throws that exception, for any program: no coroutine is resumed and no completion
  -- is handed to its frame. Only the end of `run` has its effect, so that the exception is still
  -- stored, unless a destructor changes that, and the next run throws it again.
  pub run_stored :
      (fuel pipe : ℕ) (p : Program S) (posted : List (List Completion)) (c : Context S) (e : ℕ)
      (f : Heap)
      → c.exception_ptr ≡ some e
      → Distinct c.tasks.tasks
      → All (Lives c.tasks.frames) c.tasks.tasks
      → release pipe (opened pipe c).refs ≡ some f
      → ((x : ℕ)
          → named x (join posted) ≡ true
          → 1 ≤ use_count (unwound p f (opened pipe c)).refs x)
      → (d : Context S) × (run fuel pipe p posted c ≡ some (raised e d))
        × Closed (join posted) (unwound p f (opened pipe c)) d
  unfolding run loop
  run_stored fuel pipe p posted c e f s dis live r a = go posted a
    where
      halts : turn fuel p (opened pipe c) ≡ some (raised e (opened pipe c))
      halts = turn_stored fuel p (opened pipe c) e s

      go :
          (posted : List (List Completion))
          → ((x : ℕ)
              → named x (join posted) ≡ true
              → 1 ≤ use_count (unwound p f (opened pipe c)).refs x)
          → (d : Context S) × (run fuel pipe p posted c ≡ some (raised e d))
            × Closed (join posted) (unwound p f (opened pipe c)) d
      go [] b =
          let (d, g, k) = close_down-Closed p pipe [] (opened pipe c) f dis live r b in
          (d, rw (halts, g) refl, k)
      go (xs ∷ xss) b =
          let (d, g, k) =
            close_down-Closed p pipe (join (xs ∷ xss)) (opened pipe c) f dis live r b in
          (d, rw (halts, g) refl, k)
