-- ===== src/Executor/Tasks/Life.antt =====
-- The life of spawned and posted coroutines.
use mathlib.Core.Option.{some-injective}
use mathlib.Core.Path.{subst}
use fiona.Base.{
  without, has-without_self, has-without_ne, Distinct-without, ℕ, ◌≡◌, refl, sym, ap, ◌∙◌, true,
  Option, none, some, List, [], ◌∷◌, arith, has, ◌==◌, to_int, if◌then◌else◌,
}
use fiona.Executor.Tasks.{Heap, TaskMap, update, drop_ref, erase_task, spawn, adopt}
use fiona.Executor.Tasks.Counts.{
  Scope, Counted, counted, fresh, spawn_lem, adopt_lem, erase_task_lem, forget_lem,
}

-- A task is spawned or posted on a new frame, a task ends, or an awaitable is destroyed.
pub data Step (s t : Scope) : Type 0 where
  spawns :
      (h : ℕ) (m : TaskMap)
      → s.map.frames h ≡ none
      → spawn h s.map ≡ some m
      → t ≡ record { map = m; awaited = h ∷ s.awaited }
      → Step s t
  posts :
      (h : ℕ) (m : TaskMap)
      → s.map.frames h ≡ none
      → adopt h s.map ≡ some m
      → t ≡ record { map = m; awaited = s.awaited }
      → Step s t
  ends :
      (h : ℕ) (m : TaskMap)
      → erase_task h s.map ≡ some m
      → t ≡ record { map = m; awaited = s.awaited }
      → Step s t
  forgets :
      (h : ℕ) (f : Heap)
      → has h s.awaited ≡ true
      → drop_ref h s.map.frames ≡ some f
      → t ≡ record { map = record (s.map) { frames = f }; awaited = without h s.awaited }
      → Step s t

pub data Reach (s : Scope) : Scope → Type 0 where
  here : Reach s s
  next : {t u : Scope} → Reach s t → Step t u → Reach s u

erase_task-has : (h : ℕ) (m m' : TaskMap) → erase_task h m ≡ some m' → has h m.tasks ≡ true
unfolding erase_task
erase_task-has h m m' e = ground arith

module _ (s : Scope) (c : Counted s) (h : ℕ) where
  spawns-Counted :
      s.map.frames h ≡ none
      → Counted (record {
        map = record {
          tasks = h ∷ s.map.tasks;
          frames = λ x. if x == h then some 2 else s.map.frames x;
        };
        awaited = h ∷ s.awaited;
      })
  spawns-Counted e =
      let new = fresh s c h e in
      record {
        tasks_apart = (new.0, c.tasks_apart);
        awaited_apart = (new.1, c.awaited_apart);
        counts = λ x. ground (arith, c.counts x);
      }

  posts-Counted :
      s.map.frames h ≡ none
      → Counted (record {
        map = record {
          tasks = h ∷ s.map.tasks;
          frames = λ x. if x == h then some 1 else s.map.frames x;
        };
        awaited = s.awaited;
      })
  posts-Counted e =
      let new = fresh s c h e in
      record {
        tasks_apart = (new.0, c.tasks_apart);
        awaited_apart = c.awaited_apart;
        counts = λ x. ground (arith, c.counts x);
      }

  ends-Counted :
      has h s.map.tasks ≡ true
      → Counted (record {
        map = record {
          tasks = without h s.map.tasks;
          frames = update s.map.frames h (counted (to_int (has h s.awaited)));
        };
        awaited = s.awaited;
      })
  ends-Counted e = record {
    tasks_apart = Distinct-without h s.map.tasks c.tasks_apart;
    awaited_apart = c.awaited_apart;
    counts = λ x. ground (
      arith,
      c.counts x,
      has-without_self h s.map.tasks c.tasks_apart,
      has-without_ne h x s.map.tasks,
    );
  }

  forgets-Counted :
      has h s.awaited ≡ true
      → Counted (record {
        map = record (s.map) {
          frames = update s.map.frames h (counted (to_int (has h s.map.tasks)));
        };
        awaited = without h s.awaited;
      })
  forgets-Counted e = record {
    tasks_apart = c.tasks_apart;
    awaited_apart = Distinct-without h s.awaited c.awaited_apart;
    counts = λ x. ground (
      arith,
      c.counts x,
      has-without_self h s.awaited c.awaited_apart,
      has-without_ne h x s.awaited,
    );
  }

-- A step by the operation's known result.
by_result :
    {t : Scope} (m : TaskMap) {m' : TaskMap} {o : Option TaskMap} (awaited : List ℕ)
    → o ≡ some m
    → o ≡ some m'
    → t ≡ record { map = m; awaited = awaited }
    → Counted (record { map = m'; awaited = awaited })
    → Counted t
by_result m {m'} awaited e e' u c =
    let q : m' ≡ m = some-injective m' m (sym e' ∙ e) in
    subst Counted
      (sym (
        u
        ∙ sym (ap (λ (k : TaskMap). let r : Scope = record { map = k; awaited = awaited } in r) q)))
      c

Step-Counted : {s t : Scope} → Step s t → Counted s → Counted t
Step-Counted {s} (spawns h m e o u) c =
    by_result m (h ∷ s.awaited) o (spawn_lem s c h e) u (spawns-Counted s c h e)
Step-Counted {s} (posts h m e o u) c =
    by_result m s.awaited o (adopt_lem s c h e) u (posts-Counted s c h e)
Step-Counted {s} (ends h m o u) c =
    let e = erase_task-has h s.map m o in
    by_result m s.awaited o (erase_task_lem s c h e) u (ends-Counted s c h e)
Step-Counted {s} (forgets h f e o u) c =
    let q = some-injective _ _ (sym o ∙ forget_lem s c h e) in
    subst Counted (sym (u ∙ ap (λ (k : Heap). put k) q)) (forgets-Counted s c h e)
  where
    put : Heap → Scope
    put k = record { map = record (s.map) { frames = k }; awaited = without h s.awaited }

-- From an empty task map on, a frame lives exactly while it is in the map or its awaitable lives, and
-- its count is the number of the two that hold.
pub Reach-Counted :
    {s : Scope}
    → Reach (record { map = record { tasks = []; frames = λ x. none }; awaited = [] }) s
    → Counted s
Reach-Counted here = record { tasks_apart = tt; awaited_apart = tt; counts = λ x. refl }
Reach-Counted (next r st) = Step-Counted st (Reach-Counted r)
