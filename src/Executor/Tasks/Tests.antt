-- ===== src/Executor/Tasks/Tests.antt =====
-- A spawned task at address 64 and a posted one at address 96.
use fiona.Base.{◌>>=◌, ◌≡◌, refl, none, some, [], ◌∷◌, ◌==◌, if◌then◌else◌, arith}
use fiona.Executor.Tasks.{TaskMap, update, spawn, erase_task, drop_ref}
use fiona.Executor.Tasks.Counts.{Scope, Counted}
use fiona.Executor.Tasks.Life.{here, next, spawns, Reach-Counted}

abbrev nobody : TaskMap
nobody = record { tasks = []; frames = λ x. none }

-- The counts after a spawn.
abbrev spawned : TaskMap
spawned = record { tasks = 64 ∷ []; frames = λ x. if x == 64 then some 2 else none }

abbrev both : Scope
both = record {
  map = record {
    tasks = 96 ∷ 64 ∷ [];
    frames = λ x. if x == 64 then some 2 else if x == 96 then some 1 else none;
  };
  awaited = 64 ∷ [];
}

both-Counted : Counted both
both-Counted = record {
  tasks_apart = (refl, (refl, tt));
  awaited_apart = (refl, tt);
  counts = λ x. ground arith;
}

spawn_count : (spawn 64 nobody >>= λ m. m.frames 64) ≡ some 2
unfolding spawn
spawn_count = refl

-- The end of the task, and then of its awaitable, destroys the frame.
spawn_end_forget :
    (spawn 64 nobody >>= λ m. erase_task 64 m >>= λ m'. drop_ref 64 m'.frames >>= λ f. some (f 64))
    ≡ some none
unfolding spawn erase_task drop_ref
spawn_end_forget = refl

-- What `spawn` and `adopt` leave, as they compute it.
abbrev after_spawn : TaskMap
after_spawn = record {
  tasks = 64 ∷ [];
  frames =
      update
        (update
          (update (update (update (update (λ x. none) 64 (some 1)) 64 (some 2)) 64 (some 3)) 64
            (some 4))
          64 (some 3))
        64 (some 2);
}

Reach-Counted_example : Counted (record { map = after_spawn; awaited = 64 ∷ [] })
unfolding spawn
Reach-Counted_example = Reach-Counted (next here (spawns 64 after_spawn refl refl refl))
