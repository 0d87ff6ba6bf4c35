-- ===== src/Task/Handles/Tests.antt =====
-- A coroutine whose frame is at 100, in the task 0, and an empty task 1.
use fiona.Base.{◌>>=◌, ℕ, ◌≡◌, refl, ◌==◌, false, true, none, some, Bool-cases, inl, inr, arith}
use fiona.Buffers.Linked.{at}
use fiona.Buffers.Owned.Owners.{held}
use fiona.Task.Handles.{Handles, assigns, posts, operate}
use fiona.Task.Handles.Owners.{IsOwned, task_operate-IsOwned}

abbrev one : Handles
one = record {
  live = at (λ a. false) 100 true;
  tasks = at (at (λ a. none) 1 (some 0)) 0 (some 100);
}

holds_one : (i : ℕ) → held (one.tasks i) ≡ at (λ a. 0) 0 100 i
holds_one i = elim (Bool-cases (i == 0)) [
  | inl e ↦ rw (e) refl
  | inr e ↦ elim (Bool-cases (i == 1)) [ inl f ↦ rw (e, f) refl | inr f ↦ rw (e, f) refl ]
]

one-IsOwned : IsOwned one
one-IsOwned = record {
  lives = λ i l. ground (arith, holds_one i, l);
  once = λ i j l e. ground (arith, holds_one i, holds_one j, l, e);
  kept = λ p l. (0, ground (arith, l));
  default = refl;
}

-- An assignment leaves the frame to the other task.
exchanged : (operate (assigns 1 0) one >>= λ st. st.tasks 1) ≡ some 100
unfolding operate
exchanged = refl

-- A null task cannot be posted.
null_task : operate (posts 2 1) one ≡ none
unfolding operate
null_task = refl

task_operate-IsOwned_example : (st' : Handles) × (operate (posts 2 0) one ≡ some st') × IsOwned st'
task_operate-IsOwned_example =
    task_operate-IsOwned (posts 2 0) one one-IsOwned (refl, (100, omega arith, refl))
