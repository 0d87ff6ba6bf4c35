-- ===== src/Buffers/Linked/Chain.antt =====
-- The list of addresses that a sequence stands for.
use mathlib.Core.Path.{subst}
use fiona.Base.{
  Bool-cases, inl, inr, ℕ, ◌<◌, ◌≡◌, refl, true, List, [], ◌∷◌, ◌++◌, length, has, Distinct, All,
  arith, ◌==◌,
}
use fiona.Buffers.Linked.{Headers, Sequence}

abbrev pub first : List ℕ → ℕ → ℕ
first [] after = after
first (x ∷ xs) after = x

abbrev pub last : ℕ → List ℕ → ℕ
last before [] = before
last before (x ∷ xs) = last x xs

-- The headers at `xs` live and are linked both ways, from `before` to `after`.
abbrev pub Linked : Headers → (before : ℕ) → List ℕ → (after : ℕ) → Type 0
Linked h before [] after = Unit
Linked h before (x ∷ xs) after =
    (h.live x ≡ true) × (h.prev x ≡ before) × (h.next x ≡ first xs after) × Linked h x xs after

-- The sequence `s` stands for the buffers at `xs`.
pub record Represents (h : Headers) (s : Sequence) (xs : List ℕ) : Type 0 where
  pub head : s.head ≡ first xs 0
  pub tail : s.tail ≡ last 0 xs
  pub count : s.num_bufs ≡ length xs
  pub chain : Linked h 0 xs s.sentry
  pub sentry : h.live s.sentry ≡ true
  pub back : h.prev s.sentry ≡ last 0 xs
  pub apart : Distinct (s.sentry ∷ xs)
  pub real : All (λ a. 0 < a) (s.sentry ∷ xs)

-- Two heaps have the same header at `a`, apart from its contents.
abbrev pub Same : Headers → Headers → ℕ → Type 0
Same h g a = (g.live a ≡ h.live a) × (g.prev a ≡ h.prev a) × (g.next a ≡ h.next a)

pub last-append : (b y : ℕ) (xs ys : List ℕ) → last b (xs ++ y ∷ ys) ≡ last y ys
last-append b y [] ys = refl
last-append b y (x ∷ xs) ys = last-append x y xs ys

pub has-last : (b : ℕ) (xs : List ℕ) → has (last b xs) (b ∷ xs) ≡ true
has-last b [] = ground arith
has-last b (x ∷ xs) = ground (arith, has-last x xs)

==_eq : (x a : ℕ) → (a == x) ≡ true → x ≡ a
==_eq x a h = ground arith

pub Linked-append :
    (h : Headers) (b c : ℕ) (xs ys : List ℕ)
    → Linked h b xs (first ys c)
    → Linked h (last b xs) ys c
    → Linked h b (xs ++ ys) c
Linked-append h b c [] ys l r = r
Linked-append h b c (x ∷ []) ys l r = (l.0, l.1, l.2, r)
Linked-append h b c (x ∷ y ∷ xs) ys l r = (l.0, l.1, l.2, Linked-append h x c (y ∷ xs) ys l.3 r)

pub live_last :
    (h : Headers) (b c x : ℕ) (xs : List ℕ) → Linked h b (x ∷ xs) c → h.live (last x xs) ≡ true
live_last h b c x [] l = l.0
live_last h b c x (y ∷ ys) l = live_last h x c y ys l.3

pub next_last :
    (h : Headers) (b c x : ℕ) (xs : List ℕ) → Linked h b (x ∷ xs) c → h.next (last x xs) ≡ c
next_last h b c x [] l = l.2
next_last h b c x (y ∷ ys) l = next_last h x c y ys l.3

pub All-has {ℓ} : (P : ℕ → Type ℓ) (a : ℕ) (xs : List ℕ) → All P xs → has a xs ≡ true → P a
All-has P a [] p h = cc
All-has P a (x ∷ xs) p h = elim (Bool-cases (a == x)) [
  | inl e ↦ subst P (==_eq x a e) p.0
  | inr n ↦ All-has P a xs p.1 (ground arith)
]
