-- ===== src/RunLoop/Steps.antt =====
-- The use counts of the frames over a batch of completions.
use fiona.Base.{
  Bool, false, ℕ, zero, suc, ◌+◌, ◌-◌, ◌≡◌, refl, ap, true, Option, none, some, List, [], ◌∷◌,
  arith, to_int, leb, ◌==◌, ==_self, if◌then◌else◌, or_else,
}
use fiona.Ring.Entries.{Cqe}
use fiona.Executor.Tasks.{Heap, update}
use fiona.RunLoop.{
  Completion, Context, Outcome, returned, raised, Program, use_count, release, ended, checked, step,
}

-- The completions that name a frame.
abbrev pub names : ℕ → Completion → ℕ
names x y = elim y.user_data [ none ↦ 0 | some q ↦ to_int (x == q) ]

abbrev pub count : ℕ → List Completion → ℕ
count x [] = 0
count x (y ∷ ys) = names x y + count x ys

minus_one :
    (f : Heap) (q x n : ℕ) (o : Option ℕ)
    → use_count f q ≡ suc n
    → or_else 0 o ≡ n
    → use_count (update f q o) x + to_int (x == q) ≡ use_count f x
minus_one f q x n o e u = go (x == q) refl
  where
    go : (b : Bool) → (x == q) ≡ b → or_else 0 (if b then o else f x) + to_int b ≡ use_count f x
    go true w = let l : x ≡ q = ground (arith, w) in omega (arith, e, u, ap (use_count f) l)
    go false w = omega arith

-- A release takes one from the count of its frame, and from no other.
pub release_lem :
    (f : Heap) (q n : ℕ)
    → use_count f q ≡ suc n
    → (f' : Heap) × (release q f ≡ some f')
      × ((x : ℕ) → use_count f' x + to_int (x == q) ≡ use_count f x)
unfolding release
release_lem f q zero e =
    (update f q none, rw (e, release) refl, λ x. minus_one f q x zero none e refl)
release_lem f q (suc n) e = (
  update f q (some (suc n)),
  rw (e, release) refl,
  λ x. minus_one f q x (suc n) (some (suc n)) e refl,
)

pub release_dead : (f : Heap) (q : ℕ) → use_count f q ≡ 0 → release q f ≡ none
unfolding release
release_dead f q e = rw (e, release) refl

module _ {S : Type 0} where
  abbrev pub context : {A : Type 0} → Outcome S A → Context S
  context (returned a c) = c
  context (raised e c) = c

  -- The use count of a frame is the number of pending completions that name it and of the
  -- references that `owed` finds elsewhere.
  abbrev pub Accounts : (S → ℕ → ℕ) → List Completion → Context S → Type 0
  Accounts owed xs c = (x : ℕ) → use_count c.refs x ≡ count x xs + owed c.world x

  -- A frame's work on its completion keeps count of the references that it adds and drops.
  abbrev pub Keeps : (S → ℕ → ℕ) → Program S → Type 0
  Keeps owed p =
      (q : ℕ) (y : Cqe) (xs : List Completion) (c : Context S)
      → Accounts owed xs c
      → Accounts owed xs (context (p.process q y c))

module _ {S : Type 0} (owed : S → ℕ → ℕ) where
  checked-Accounts :
      {A : Type 0} (xs : List Completion) (o : Outcome S A)
      → Accounts owed xs (context o)
      → Accounts owed xs (context (checked o))
  checked-Accounts xs (raised e c) a = a
  checked-Accounts xs (returned r c) a = go c.exception_ptr
    where
      go :
          (t : Option ℕ)
          → Accounts owed xs (context (elim t [ none ↦ returned r c | some e ↦ raised e c ]))
      go none = a
      go (some e) = a

  ended_by :
      {A : Type 0} (q : ℕ) (xs : List Completion) (o : Outcome S A) (f : Heap)
      → release q (context o).refs ≡ some f
      → ((x : ℕ) → use_count f x ≡ count x xs + owed (context o).world x)
      → (o' : Outcome S A) × (ended q o ≡ some o') × Accounts owed xs (context o')
  ended_by q xs (returned r c) f e l = (returned r (record c { refs = f }), rw (e) refl, l)
  ended_by q xs (raised r c) f e l = (raised r (record c { refs = f }), rw (e) refl, l)

  ended-Accounts :
      {A : Type 0} (q : ℕ) (y : Cqe) (xs : List Completion) (o : Outcome S A)
      → Accounts owed (record { user_data = some q; cqe = y } ∷ xs) (context o)
      → (o' : Outcome S A) × (ended q o ≡ some o') × Accounts owed xs (context o')
  ended-Accounts q y xs o a =
      let one : (q == q) ≡ true = ==_self q in
      let (f, e, l) =
        release_lem (context o).refs q (use_count (context o).refs q - 1)
          (ground (arith, a q, one)) in
      ended_by q xs o f e (λ x. omega (arith, l x, a x))

  step_named :
      (p : Program S) (u : Option ℕ) (y : Cqe) (xs : List Completion) (c : Context S)
      → Keeps owed p
      → Accounts owed (record { user_data = u; cqe = y } ∷ xs) c
      → (o : Outcome S (Option ℕ)) × (step p (record { user_data = u; cqe = y }) c ≡ some o)
        × Accounts owed xs (context o)
  unfolding step
  step_named p none y xs c k a = (returned none c, refl, λ x. omega (arith, a x))
  step_named p (some q) y xs c k a =
      let alive : leb 1 (use_count c.refs q) ≡ true = ground (arith, a q, ==_self q) in
      let ys = record { user_data = some q; cqe = y } ∷ xs in
      let (o, f, b) =
        ended-Accounts q y xs (checked (p.process q y c))
          (checked-Accounts ys (p.process q y c) (k q y ys c a)) in
      (o, rw (alive, step) f, b)

  -- What a step leaves is right for the completions that follow.
  pub step-Accounts :
      (p : Program S) (y : Completion) (xs : List Completion) (c : Context S)
      → Keeps owed p
      → Accounts owed (y ∷ xs) c
      → (o : Outcome S (Option ℕ)) × (step p y c ≡ some o) × Accounts owed xs (context o)
  step-Accounts p y xs c k a = step_named p y.user_data y.cqe xs c k a
