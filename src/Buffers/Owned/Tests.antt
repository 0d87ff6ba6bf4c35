-- ===== src/Buffers/Owned/Tests.antt =====
-- A buffer at 100 in the object 0, and a default one in the object 1.
use fiona.Base.{◌>>=◌, ℕ, ◌≡◌, refl, ◌==◌, true, false, none, some, arith, Bool-cases, inl, inr}
use fiona.Buffers.Linked.{at}
use fiona.Buffers.Owned.{Objects, assigns, moves, operate, to_raw_parts}
use fiona.Buffers.Owned.Owners.{held, IsOwned, operate-IsOwned}

abbrev one : Objects
one = record {
  headers = record {
    live = at (λ a. false) 100 true;
    size = λ a. 0;
    capacity = λ a. 0;
    prev = λ a. 0;
    next = λ a. 0;
  };
  objects = at (at (λ a. none) 1 (some 0)) 0 (some 100);
}

holds_one : (i : ℕ) → held (one.objects i) ≡ at (λ a. 0) 0 100 i
holds_one i = elim (Bool-cases (i == 0)) [
  | inl e ↦ rw (e) refl
  | inr e ↦ elim (Bool-cases (i == 1)) [ inl f ↦ rw (e, f) refl | inr f ↦ rw (e, f) refl ]
]

one-IsOwned : IsOwned one
one-IsOwned = record {
  lives = λ i l. ground (arith, holds_one i, l);
  once = λ i j l e. ground (arith, holds_one i, holds_one j, l, e);
  kept = λ p l. (0, ground (arith, l));
  default = refl;
}

-- The assignment of the default buffer frees the other one.
freed : (operate (assigns 0 1) one >>= λ st. some (st.headers.live 100)) ≡ some false
unfolding operate
freed = refl

-- A move keeps it.
kept : (operate (moves 2 0) one >>= λ st. st.objects 2) ≡ some 100
unfolding operate
kept = refl

raw : (to_raw_parts 0 one >>= λ q. q.1.objects 0) ≡ some 0
unfolding to_raw_parts
raw = refl

operate-IsOwned_example : (st' : Objects) × (operate (assigns 0 1) one ≡ some st') × IsOwned st'
operate-IsOwned_example = operate-IsOwned (assigns 0 1) one one-IsOwned ((100, refl), (0, refl))
