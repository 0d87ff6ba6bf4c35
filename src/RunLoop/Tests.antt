-- ===== src/RunLoop/Tests.antt =====
-- A frame at address 7 that takes a reference for another entry with each completion and wakes the
-- coroutine at 64, and throws 5 on an error; coroutines that do nothing.
use mathlib.Core.Path.{fun_ext}
use fiona.RunLoop.Loop.{Closed, unwound, close_down-Closed, run_stored}
use fiona.RunLoop.{
  step, Completion, Context, returned, raised, Program, Batch, use_count, batch, release, reap,
  join, run, close_down, opened,
}
use fiona.Base.{
  err, ℕ, suc, ◌+◌, ◌≡◌, refl, ap, Bool, true, false, none, some, List, [], ◌∷◌, arith, pos, negsuc,
  is_neg, drop, length, ◌==◌, if◌then◌else◌, if_cases, or_else,
}
use fiona.Executor.Tasks.{Heap, update}
use fiona.Ring.Entries.{Cqe}
use fiona.RunLoop.Steps.{Accounts, Keeps, context, count}
use fiona.RunLoop.Passes.{Passed, batch-Passed}
use fiona.RunLoop.Frame.{Params, Answers, io_context_frame}
use fiona.RunLoop.Guard.{thrown_twice}

abbrev World : Type 0
World = ℕ → ℕ

abbrev owed : World → ℕ → ℕ
owed w x = w x

abbrev rearmed : ℕ → Context World → Context World
rearmed q c = record c {
  refs = update c.refs q (some (suc (use_count c.refs q)));
  world = λ x. if x == q then suc (c.world x) else c.world x;
}

abbrev server : Program World
server = record {
  resume = λ h c. returned tt c;
  process = λ q y c. if is_neg y.res then raised 5 c else returned (some 64) (rearmed q c);
  destroy = λ m c. c;
}

rearmed-Accounts :
    (q : ℕ) (xs : List Completion) (c : Context World)
    → Accounts owed xs c
    → Accounts owed xs (rearmed q c)
rearmed-Accounts q xs c a x = go (x == q) refl
  where
    go :
        (b : Bool)
        → (x == q) ≡ b
        → or_else 0 (if b then some (suc (use_count c.refs q)) else c.refs x)
          ≡ count x xs + (if b then suc (c.world x) else c.world x)
    go true w = let l : x ≡ q = ground (arith, w) in omega (arith, a x, ap (use_count c.refs) l)
    go false w = a x

server-Keeps : Keeps owed server
server-Keeps q y xs c a =
    if_cases (λ o. Accounts owed xs (context o)) (is_neg y.res) a (λ w. rearmed-Accounts q xs c a)

abbrev arrived : List Completion
arrived =
    record { user_data = some 7; cqe = record { res = pos 8; more = false; buffer_id = 0 } }
    ∷ record { user_data = none; cqe = record { res = pos 0; more = false; buffer_id = 0 } }
    ∷ record { user_data = some 7; cqe = record { res = negsuc 4; more = false; buffer_id = 0 } }
    ∷ []

-- One task; two completions name the frame at 7, and nothing else holds it.
abbrev before : Context World
before = record {
  tasks = record { tasks = 64 ∷ []; frames = λ x. if x == 64 then some 1 else none };
  refs = λ x. if x == 7 then some 2 else none;
  run_queue = 64 ∷ 64 ∷ [];
  exception_ptr = none;
  world = λ x. 0;
}

before-Accounts : Accounts owed arrived before
before-Accounts x = ground arith

abbrev after : Batch World
after = record {
  context = record before {
    refs = λ x.
        if x == 7
        then some 1
        else if x == 7
        then some 2
        else if x == 7
        then some 3
        else if x == 7
        then some 2
        else none;
    world = λ x. if x == 7 then 1 else 0;
  };
  handles = 64 ∷ [];
  advanced = 2;
  thrown = some 5;
}

batch-after : batch server arrived before ≡ some after
unfolding batch
batch-after = refl

batch-Passed_example :
    (b : Batch World) × (batch server arrived before ≡ some b) × Passed owed arrived b
batch-Passed_example = batch-Passed owed server server-Keeps arrived before before-Accounts

thrown_twice_example :
    (q : ℕ) × (y : Cqe) × (rest : List Completion) × (c : Context World) × (drop 2 arrived
      ≡ record { user_data = some q; cqe = y } ∷ rest)
    × (step server (record { user_data = some q; cqe = y }) c ≡ some (raised 5 after.context))
    × Accounts owed (drop 3 arrived) after.context
    × ((f : Heap) → use_count f q ≡ 0 → reap (drop 2 arrived) [] f ≡ none)
thrown_twice_example =
    thrown_twice owed server server-Keeps arrived before after 5 before-Accounts batch-after refl

abbrev weight : Context World → ℕ
weight c = length c.run_queue

abbrev held : Context World
held = record before { refs = λ x. if x == 9 then some 2 else if x == 7 then some 2 else none }

-- The pipe's frame is at 9.
abbrev closing : Heap
closing x = if x == 9 then some 1 else held.refs x

closing_lem : release 9 held.refs ≡ some closing
unfolding release
closing_lem = ap (λ (f : Heap). some f) (fun_ext λ x. ground arith)

close_down-Closed_example :
    (d : Context World) × (close_down server 9 arrived held ≡ some d)
    × Closed arrived (unwound server closing held) d
close_down-Closed_example =
    close_down-Closed server 9 arrived held closing (refl, tt)
      (record { extra = 0; count = refl }, tt) closing_lem (λ x n. ground arith)

abbrev failed : Context World
failed = record before { exception_ptr = some 5 }

abbrev failing : Heap
failing x = if x == 9 then some 1 else before.refs x

failing_lem : release 9 (opened 9 failed).refs ≡ some failing
unfolding release
failing_lem = ap (λ (f : Heap). some f) (fun_ext λ x. ground arith)

run_stored_example :
    (d : Context World) × (run 0 9 server (arrived ∷ []) failed ≡ some (raised 5 d))
    × Closed (join (arrived ∷ [])) (unwound server failing (opened 9 failed)) d
run_stored_example =
    run_stored 0 9 server (arrived ∷ []) failed 5 failing refl (refl, tt)
      (record { extra = 0; count = refl }, tt) failing_lem (λ x n. ground arith)

abbrev params : Params
params = record { sq_entries = 512; cq_entries = 1024; num_files = 2 }

abbrev answers : Answers
answers = record {
  pipe = none;
  queue_init = pos 0;
  register_ring_fd = pos 1;
  register_files = negsuc 21;
}

-- The registration of the files fails: the ends of the pipe and the ring stay.
leaked :
    io_context_frame params answers (record { pipe_ends = 0; rings = 0 })
    ≡ (err (pos 22), record { pipe_ends = 2; rings = 1 })
unfolding io_context_frame
leaked = refl
