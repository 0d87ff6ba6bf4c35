-- ===== src/Executor/Tasks/Clear.antt =====
-- `task_map::clear`.
use fiona.Base.{
  ℕ, zero, suc, ◌≡◌, refl, ◌∙◌, ap, false, Option, none, some, List, [], ◌∷◌, arith, has, Distinct,
  if◌then◌else◌, All,
}
use mathlib.Core.Path.{fun_ext}
use fiona.Executor.Tasks.{Heap, TaskMap, update, drop_ref, clear_loop, clear}

-- A frame that lives.
pub record Lives (f : Heap) (h : ℕ) : Type 0 where
  pub extra : ℕ
  pub count : f h ≡ some (suc extra)

abbrev pub one_less : Option ℕ → Option ℕ
one_less none = none
one_less (some zero) = none
one_less (some (suc zero)) = none
one_less (some (suc (suc n))) = some (suc n)

drop_ref-Lives : (f : Heap) (h : ℕ) → Lives f h → drop_ref h f ≡ some (update f h (one_less (f h)))
unfolding drop_ref
drop_ref-Lives f h l = go l.extra l.count
  where
    go : (n : ℕ) → f h ≡ some (suc n) → drop_ref h f ≡ some (update f h (one_less (f h)))
    go zero e = rw (e, drop_ref) refl
    go (suc n) e = rw (e, drop_ref) refl

Lives-update :
    (f : Heap) (h : ℕ) (c : Option ℕ) (hs : List ℕ)
    → has h hs ≡ false
    → All (Lives f) hs
    → All (Lives (update f h c)) hs
Lives-update f h c [] out a = tt
Lives-update f h c (x ∷ hs) out a = (
  record { extra = a.0.extra; count = ground (arith, a.0.count) },
  Lives-update f h c hs (ground arith) a.1,
)

clear_loop_lem :
    (hs : List ℕ) (f : Heap)
    → Distinct hs
    → All (Lives f) hs
    → clear_loop hs f
      ≡ some (record { tasks = []; frames = λ x. if has x hs then one_less (f x) else f x })
unfolding clear_loop
clear_loop_lem [] f d a = refl
clear_loop_lem (h ∷ hs) f d a = rw (drop_ref-Lives f h a.0) (
    clear_loop_lem hs (update f h (one_less (f h))) d.1
      (Lives-update f h (one_less (f h)) hs d.0 a.1)
    ∙ ap (λ (g : Heap). some (record { tasks = []; frames = g }))
        (fun_ext λ x. ground (arith, d.0)))

-- Where every task's frame lives and no task is twice in the map, `clear` succeeds: the map is
-- empty, each task has lost the one reference that the map held, and dies with it if that was the
-- last, and no other frame is touched.
pub clear_lem :
    (m : TaskMap)
    → Distinct m.tasks
    → All (Lives m.frames) m.tasks
    → clear m
      ≡ some (record {
        tasks = [];
        frames = λ x. if has x m.tasks then one_less (m.frames x) else m.frames x;
      })
unfolding clear
clear_lem m d a = clear_loop_lem m.tasks m.frames d a
