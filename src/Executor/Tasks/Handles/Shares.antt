-- ===== src/Executor/Tasks/Handles/Shares.antt =====
-- The count of a frame is the number of the objects that hold it.
use mathlib.Core.Option.{some-injective}
use fiona.Base.{
  ℕ, zero, suc, ◌+◌, ◌-◌, ◌<◌, ◌≡◌, refl, sym, ap, ◌∙◌, Bool, true, false, Option, none, some, List,
  [], ◌∷◌, get_elem?, set, ◌==◌, ==_self, if◌then◌else◌, arith, Bool-cases, inl, inr,
}
use fiona.Executor.Tasks.{Heap, update, copy, drop_ref}

abbrev pub one_if : Bool → ℕ
one_if true = 1
one_if false = 0

-- How many objects hold `h`.
abbrev pub holders : ℕ → List ℕ → ℕ
holders h [] = 0
holders h (x ∷ xs) = one_if (x == h) + holders h xs

pub holders-set :
    (h : ℕ) (xs : List ℕ) (i v w : ℕ)
    → get_elem? xs i ≡ some v
    → holders h (set xs i w) + one_if (v == h) ≡ holders h xs + one_if (w == h)
holders-set h [] i v w e = absurd (cc)
holders-set h (x ∷ xs) zero v w e = omega (arith, ap (λ y. one_if (y == h)) (some-injective _ _ e))
holders-set h (x ∷ xs) (suc i) v w e = omega (arith, holders-set h xs i v w e)

pub held_some : (xs : List ℕ) (i v : ℕ) → get_elem? xs i ≡ some v → 0 < holders v xs
held_some [] i v e = absurd (cc)
held_some (x ∷ xs) zero v e =
    omega (arith, ap (λ y. one_if (y == v)) (some-injective _ _ e), ap one_if (==_self v))
held_some (x ∷ xs) (suc i) v e = omega (arith, held_some xs i v e)

-- The count of a frame with `n` holders.
abbrev pub counted : ℕ → Option ℕ
counted zero = none
counted (suc n) = some (suc n)

-- A frame lives exactly while it has holders, and its count is their number.
abbrev pub Shared : Heap → (ℕ → ℕ) → Type 0
Shared f g = (x : ℕ) → 0 < x → f x ≡ counted (g x)

pub copy-Shared :
    (f : Heap) (g : ℕ → ℕ) (v : ℕ)
    → Shared f g
    → 0 < v
    → 0 < g v
    → (f' : Heap) × (copy v f ≡ some f') × Shared f' (λ x. if x == v then suc (g x) else g x)
unfolding copy
copy-Shared f g v s p l = go (g v) refl l
  where
    go :
        (n : ℕ)
        → g v ≡ n
        → 0 < n
        → (f' : Heap) × (copy v f ≡ some f') × Shared f' (λ x. if x == v then suc (g x) else g x)
    go zero e l = absurd (omega (arith, l))
    go (suc m) e l =
        let is : f v ≡ some (suc m) = s v p ∙ ap counted e in
        (
          update f v (some (suc (suc m))),
          rw (is, copy) refl,
          λ x q. elim (Bool-cases (x == v)) [
            | inl h ↦
                (let same : x ≡ v = ground (arith, h) in
                  rw (h) (sym (ap (λ y. counted (suc y)) (ap g same ∙ e))))
            | inr h ↦ rw (h) (s x q)
          ],
        )

pub drop-Shared :
    (f : Heap) (g : ℕ → ℕ) (v : ℕ)
    → Shared f g
    → 0 < v
    → 0 < g v
    → (f' : Heap) × (drop_ref v f ≡ some f') × Shared f' (λ x. if x == v then g x - 1 else g x)
unfolding drop_ref
drop-Shared f g v s p l = go (g v) refl l
  where
    shares :
        (o : Option ℕ) (m : ℕ)
        → o ≡ counted m
        → g v ≡ suc m
        → Shared (update f v o) (λ x. if x == v then g x - 1 else g x)
    shares o m c e x q = elim (Bool-cases (x == v)) [
      | inl h ↦
          (let same : x ≡ v = ground (arith, h) in
            let less : g x - 1 ≡ m = omega (arith, ap g same, e) in
            rw (h) (c ∙ sym (ap counted less)))
      | inr h ↦ rw (h) (s x q)
    ]

    go :
        (n : ℕ)
        → g v ≡ n
        → 0 < n
        → (f' : Heap) × (drop_ref v f ≡ some f') × Shared f' (λ x. if x == v then g x - 1 else g x)
    go zero e l = absurd (omega (arith, l))
    go (suc zero) e l =
        let is : f v ≡ some 1 = s v p ∙ ap counted e in
        (update f v none, rw (is, drop_ref) refl, shares none 0 refl e)
    go (suc (suc m)) e l =
        let is : f v ≡ some (suc (suc m)) = s v p ∙ ap counted e in
        (update f v (some (suc m)), rw (is, drop_ref) refl, shares (some (suc m)) (suc m) refl e)

pub Shared-cong : (f : Heap) (g k : ℕ → ℕ) → Shared f g → ((x : ℕ) → 0 < x → k x ≡ g x) → Shared f k
Shared-cong f g k s e x p = s x p ∙ sym (ap counted (e x p))
