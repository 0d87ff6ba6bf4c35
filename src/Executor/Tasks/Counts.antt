-- ===== src/Executor/Tasks/Counts.antt =====
-- The reference counts of spawned coroutines.
use mathlib.Core.Path.{fun_ext}
use fiona.Base.{
  without, ℕ, zero, suc, ◌+◌, ◌≡◌, refl, ap, ◌∙◌, true, false, Option, none, some, List, ◌∷◌, arith,
  has, Distinct, ◌==◌, to_int, if◌then◌else◌, ==_self,
}
use fiona.Executor.Tasks.{
  Heap, TaskMap, update, copy, drop_ref, internal_task, add_task, erase_task, spawn, adopt,
  has_awaiter,
}

-- The tasks, and the frames whose `spawn_awaitable` lives.
pub record Scope : Type 0 where
  pub map : TaskMap
  pub awaited : List ℕ

abbrev pub counted : ℕ → Option ℕ
counted zero = none
counted (suc n) = some (suc n)

-- A frame lives while it is a task or awaited, and its count says by how many.
pub record Counted (s : Scope) : Type 0 where
  pub tasks_apart : Distinct s.map.tasks
  pub awaited_apart : Distinct s.awaited
  pub counts :
      (x : ℕ) → s.map.frames x ≡ counted (to_int (has x s.map.tasks) + to_int (has x s.awaited))

counted-one : (k : ℕ) → counted (1 + k) ≡ some (suc k)
counted-one k = let e : 1 + k ≡ suc k = omega arith in ap counted e

counted-suc : (k : ℕ) → counted (k + 1) ≡ some (suc k)
counted-suc k = let e : k + 1 ≡ suc k = omega arith in ap counted e

module _ (f : Heap) (h : ℕ) where
  update-update : (a b : Option ℕ) → update (update f h a) h b ≡ update f h b
  update-update a b = fun_ext (λ x. ground arith)

  copy-update : (n : ℕ) → copy h (update f h (some n)) ≡ some (update f h (some (suc n)))
  unfolding copy
  copy-update n = rw (==_self h, copy) (ap some (update-update (some n) (some (suc n))))

  drop_ref-update :
      (n : ℕ) → drop_ref h (update f h (some (suc (suc n)))) ≡ some (update f h (some (suc n)))
  unfolding drop_ref
  drop_ref-update n =
      rw (==_self h, drop_ref) (ap some (update-update (some (suc (suc n))) (some (suc n))))

  pub drop_ref-counted : (k : ℕ) → f h ≡ some (suc k) → drop_ref h f ≡ some (update f h (counted k))
  unfolding drop_ref
  drop_ref-counted zero e = rw (e, drop_ref) refl
  drop_ref-counted (suc k) e = rw (e, drop_ref) refl

module _ (s : Scope) (c : Counted s) where
  -- A dead frame is neither a task nor awaited.
  pub fresh :
      (h : ℕ) → s.map.frames h ≡ none → (has h s.map.tasks ≡ false) × (has h s.awaited ≡ false)
  fresh h e = ground (arith, c.counts h)

  -- A spawn on a new frame succeeds, with a count of 2 and no other frame touched.
  pub spawn_lem :
      (h : ℕ)
      → s.map.frames h ≡ none
      → spawn h s.map
        ≡ some (record {
          tasks = h ∷ s.map.tasks;
          frames = λ x. if x == h then some 2 else s.map.frames x;
        })
  unfolding spawn add_task internal_task
  spawn_lem h e =
      rw
        (
          copy-update s.map.frames h 1,
          (fresh h e).0,
          copy-update s.map.frames h 2,
          copy-update s.map.frames h 3,
          drop_ref-update s.map.frames h 2,
          drop_ref-update s.map.frames h 1,
        )
        refl

  -- A post on a new frame leaves it with a count of 1, that of the task map.
  pub adopt_lem :
      (h : ℕ)
      → s.map.frames h ≡ none
      → adopt h s.map
        ≡ some (record {
          tasks = h ∷ s.map.tasks;
          frames = λ x. if x == h then some 1 else s.map.frames x;
        })
  unfolding adopt add_task internal_task
  adopt_lem h e =
      rw (copy-update s.map.frames h 1, (fresh h e).0, drop_ref-update s.map.frames h 0) refl

  -- The end of a task takes it off the map, and destroys its frame unless it is awaited.
  pub erase_task_lem :
      (h : ℕ)
      → has h s.map.tasks ≡ true
      → erase_task h s.map
        ≡ some (record {
          tasks = without h s.map.tasks;
          frames = update s.map.frames h (counted (to_int (has h s.awaited)));
        })
  unfolding erase_task
  erase_task_lem h e =
      rw
        (
          e,
          drop_ref-counted s.map.frames h (to_int (has h s.awaited))
              (c.counts h ∙ rw e (counted-one (to_int (has h s.awaited)))),
        )
        refl

  -- The end of an awaitable destroys the frame unless it is still a task.
  pub forget_lem :
      (h : ℕ)
      → has h s.awaited ≡ true
      → drop_ref h s.map.frames
        ≡ some (update s.map.frames h (counted (to_int (has h s.map.tasks))))
  forget_lem h e =
      drop_ref-counted s.map.frames h (to_int (has h s.map.tasks))
        (c.counts h ∙ rw e (counted-suc (to_int (has h s.map.tasks))))

  -- Where the counts of the frames are right, a task of the map has an awaiter, as
  -- `unhandled_exception` finds it, exactly when its awaitable lives.
  has_awaiter_lem :
      (h : ℕ) → has h s.map.tasks ≡ true → has_awaiter h s.map.frames ≡ has h s.awaited
  unfolding has_awaiter
  has_awaiter_lem h e = rw (c.counts h, e, has_awaiter) (ground arith)
