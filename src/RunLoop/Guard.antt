-- ===== src/RunLoop/Guard.antt =====
-- `~guard`: the completions that it finds on the queue, and the one whose exception left the loop.
use mathlib.Core.Option.{some-injective}
use mathlib.Core.Path.{subst}
use fiona.Base.{
  ◌>>=◌, ℕ, suc, ◌+◌, ◌-◌, ◌≤◌, ◌≡◌, refl, ◌∙◌, sym, ap, Bool, true, false, not, ◌&&◌, ◌||◌, Option,
  none, some, List, [], ◌∷◌, arith, to_int, drop, has, ◌==◌, ==_self, if◌then◌else◌, Bool-cases,
  inl, inr,
}
use fiona.Ring.Entries.{Cqe}
use fiona.Executor.Tasks.{Heap}
use fiona.RunLoop.{
  Completion, Context, Outcome, returned, raised, Program, use_count, release, Batch, step, push,
  batch, reap,
}
use fiona.RunLoop.Steps.{Accounts, Keeps, release_lem, release_dead}
use fiona.RunLoop.Passes.{worked, batch-Passed}

-- A completion on the list names the frame.
abbrev pub named : ℕ → List Completion → Bool
named x [] = false
named x (y ∷ ys) = elim y.user_data [ none ↦ named x ys | some q ↦ (x == q) || named x ys ]

abbrev pub fresh : ℕ → List Completion → List ℕ → Bool
fresh x xs blacklist = named x xs && not (has x blacklist)

seen_before :
    (x q : ℕ) (n : Bool) (bl : List ℕ)
    → has q bl ≡ true
    → to_int (((x == q) || n) && not (has x bl)) ≡ to_int (n && not (has x bl))
seen_before x q n bl e = go (x == q) refl
  where
    go :
        (b : Bool)
        → (x == q) ≡ b
        → to_int ((b || n) && not (has x bl)) ≡ to_int (n && not (has x bl))
    go true w =
        let l : x ≡ q = ground (arith, w) in
        let s : has x bl ≡ true = ap (λ y. has y bl) l ∙ e in ground (arith, s)
    go false w = refl

seen_first :
    (x q : ℕ) (n : Bool) (bl : List ℕ)
    → has q bl ≡ false
    → to_int (((x == q) || n) && not (has x bl))
      ≡ to_int (n && not (has x (q ∷ bl))) + to_int (x == q)
seen_first x q n bl e = go (x == q) refl
  where
    go :
        (b : Bool)
        → (x == q) ≡ b
        → to_int ((b || n) && not (has x bl)) ≡ to_int (n && not (b || has x bl)) + to_int b
    go true w =
        let l : x ≡ q = ground (arith, w) in
        let s : has x bl ≡ false = ap (λ y. has y bl) l ∙ e in ground (arith, s)
    go false w = omega arith

abbrev Reaps : List Completion → List ℕ → Heap → Type 0
Reaps xs bl f =
    (f' : Heap) × (reap xs bl f ≡ some f')
    × ((x : ℕ) → use_count f' x + to_int (fresh x xs bl) ≡ use_count f x)

reap_named :
    (u : Option ℕ) (y : Cqe) (xs : List Completion) (bl : List ℕ) (f : Heap)
    → ((bl' : List ℕ) (f' : Heap)
        → ((x : ℕ) → to_int (fresh x xs bl') ≤ use_count f' x)
        → Reaps xs bl' f')
    → ((x : ℕ) → to_int (fresh x (record { user_data = u; cqe = y } ∷ xs) bl) ≤ use_count f x)
    → Reaps (record { user_data = u; cqe = y } ∷ xs) bl f
unfolding reap
reap_named none y xs bl f rest a = rest bl f a
reap_named (some q) y xs bl f rest a = elim (Bool-cases (has q bl)) [
  | inl e ↦
      let (f', g, l) = rest bl f (λ x. omega (arith, a x, seen_before x q (named x xs) bl e)) in
      (f', ap turned e ∙ g, λ x. omega (arith, l x, seen_before x q (named x xs) bl e))
  | inr e ↦
      let (f₁, g₁, l₁) = release_lem f q (use_count f q - 1) (ground (arith, a q, e, ==_self q)) in
      let (f', g, l) =
        rest (q ∷ bl) f₁ (λ x. omega (arith, a x, l₁ x, seen_first x q (named x xs) bl e)) in
      (f', ap turned e ∙ rw g₁ g, λ x. omega (arith, l x, l₁ x, seen_first x q (named x xs) bl e))
]
  where
    turned : Bool → Option Heap
    turned b = if b then reap xs bl f else release q f >>= reap xs (q ∷ bl)

reap_from :
    (xs : List Completion) (bl : List ℕ) (f : Heap)
    → ((x : ℕ) → to_int (fresh x xs bl) ≤ use_count f x)
    → Reaps xs bl f
unfolding reap
reap_from [] bl f a = (f, refl, λ x. omega arith)
reap_from (y ∷ xs) bl f a =
    reap_named y.user_data y.cqe xs bl f (λ bl' f' b. reap_from xs bl' f' b) a

-- Where every frame that a completion on the queue names lives, the clean-up of the guard releases each
-- of them exactly once, however many completions name it, and no other.
pub reap_lem :
    (xs : List Completion) (f : Heap)
    → ((x : ℕ) → named x xs ≡ true → 1 ≤ use_count f x)
    → (f' : Heap) × (reap xs [] f ≡ some f')
      × ((x : ℕ) → use_count f' x + to_int (named x xs) ≡ use_count f x)
reap_lem xs f a =
    let (f', e, l) = reap_from xs [] f (λ x. ground (arith, a x)) in
    (f', e, λ x. ground (arith, l x))

module _ {S : Type 0} where
  -- The first completion of the list names a frame, and its step raises `e` and leaves `after`.
  record Threw (p : Program S) (e : ℕ) (after : Context S) (xs : List Completion) : Type 0 where
    pub frame : ℕ
    pub cqe : Cqe
    pub others : List Completion
    pub before : Context S
    pub first : xs ≡ record { user_data = some frame; cqe = cqe } ∷ others
    pub threw : step p (record { user_data = some frame; cqe = cqe }) before ≡ some (raised e after)

  step-raised :
      (p : Program S) (u : Option ℕ) (y : Cqe) (c c' : Context S) (e : ℕ)
      → step p (record { user_data = u; cqe = y }) c ≡ some (raised e c')
      → (q : ℕ) × (u ≡ some q)
  unfolding step
  step-raised p none y c c' e h = cc
  step-raised p (some q) y c c' e h = (q, refl)

  batch-raised :
      (p : Program S) (xs : List Completion) (c : Context S) (b : Batch S) (e : ℕ)
      → batch p xs c ≡ some b
      → b.thrown ≡ some e
      → Threw p e b.context (drop b.advanced xs)
  unfolding batch
  batch-raised p [] c b e h t = cc
  batch-raised p (y ∷ xs) c b e h t =
      go (step p y c) refl (λ c' b' h'. batch-raised p xs c' b' e h') h
    where
      over :
          (b : Batch S)
          → b.thrown ≡ some e
          → (r : Option ℕ) (o : Option (Batch S))
          → ((b' : Batch S)
              → o ≡ some b'
              → b'.thrown ≡ some e
              → Threw p e b'.context (drop b'.advanced xs))
          → (o >>= λ b'. some (push r b')) ≡ some b
          → Threw p e b.context (drop b.advanced (y ∷ xs))
      over b t r none rest h = cc
      over b t none (some b') rest h =
          subst (λ (k : Batch S). Threw p e k.context (drop k.advanced (y ∷ xs)))
            (some-injective _ _ h)
            (rest b' refl (ap (λ (k : Batch S). k.thrown) (some-injective _ _ h) ∙ t))
      over b t (some r) (some b') rest h =
          subst (λ (k : Batch S). Threw p e k.context (drop k.advanced (y ∷ xs)))
            (some-injective _ _ h)
            (rest b' refl (ap (λ (k : Batch S). k.thrown) (some-injective _ _ h) ∙ t))

      go :
          (o : Option (Outcome S (Option ℕ)))
          → step p y c ≡ o
          → ((c' : Context S) (b' : Batch S)
              → batch p xs c' ≡ some b'
              → b'.thrown ≡ some e
              → Threw p e b'.context (drop b'.advanced xs))
          → (o >>= λ r. elim r [
            | returned h c' ↦ batch p xs c' >>= λ b. some (push h b)
            | raised e c' ↦
                some (record { context = c'; handles = []; advanced = 0; thrown = some e })
          ])
            ≡ some b
          → Threw p e b.context (drop b.advanced (y ∷ xs))
      go none w rest h = cc
      go (some (returned r c')) w rest h = over b t r (batch p xs c') (rest c') h
      go (some (raised e' c')) w rest h =
          let (q, u) = step-raised p y.user_data y.cqe c c' e' w in
          let k = some-injective _ _ h in
          let same : e' ≡ e = some-injective _ _ (ap (λ (d : Batch S). d.thrown) k ∙ t) in
          subst (λ (d : Batch S). Threw p e d.context (drop d.advanced (y ∷ xs))) k
            (record {
              frame = q;
              cqe = y.cqe;
              others = xs;
              before = c;
              first = rw (sym u) refl;
              threw =
                  subst (λ o. step p (record { user_data = o; cqe = y.cqe }) c ≡ some (raised e c'))
                    u (w ∙ ap (λ i. some (raised i c')) same);
            })

reap-dead :
    (q : ℕ) (y : Cqe) (xs : List Completion) (f : Heap)
    → use_count f q ≡ 0
    → reap (record { user_data = some q; cqe = y } ∷ xs) [] f ≡ none
unfolding reap
reap-dead q y xs f e = rw (release_dead f q e) refl

module _ {S : Type 0} (owed : S → ℕ → ℕ) (p : Program S) (k : Keeps owed p) where
  -- Where a completion throws in the loop over a batch whose use counts are right, the first of the
  -- completions that are still on the queue, which the guard's clean-up starts with, is the one whose
  -- step threw, and it names a frame. The loop has released that frame for it already: the counts are
  -- right for the completions after it alone. Where nothing else has held the frame since, the
  -- clean-up releases a dead frame.
  pub thrown_twice :
      (xs : List Completion) (c : Context S) (b : Batch S) (e : ℕ)
      → Accounts owed xs c
      → batch p xs c ≡ some b
      → b.thrown ≡ some e
      → (q : ℕ) × (y : Cqe) × (rest : List Completion) × (before : Context S) × (drop b.advanced xs
          ≡ record { user_data = some q; cqe = y } ∷ rest)
        × (step p (record { user_data = some q; cqe = y }) before ≡ some (raised e b.context))
        × Accounts owed (drop (suc b.advanced) xs) b.context
        × ((f : Heap) → use_count f q ≡ 0 → reap (drop b.advanced xs) [] f ≡ none)
  thrown_twice xs c b e a h t =
      let (b', h', w) = batch-Passed owed p k xs c a in
      let n = batch-raised p xs c b e h t in
      let same : b' ≡ b = some-injective b' b (sym h' ∙ h) in
      let n_worked : worked b ≡ suc b.advanced = rw (t) (omega arith) in
      (
        n.frame,
        n.cqe,
        n.others,
        n.before,
        n.first,
        n.threw,
        subst (λ m. Accounts owed (drop m xs) b.context) n_worked
            (subst (λ (d : Batch S). Accounts owed (drop (worked d) xs) d.context) same w.accounts),
        λ f z. ap (λ ys. reap ys [] f) n.first ∙ reap-dead n.frame n.cqe n.others f z,
      )
