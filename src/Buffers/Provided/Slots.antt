-- ===== src/Buffers/Provided/Slots.antt =====
-- Facts on the slots of a ring of provided buffers.
use fiona.Base.{
  ℕ, zero, suc, ◌+◌, ◌≤◌, ◌<◌, ◌≡◌, refl, ap, ◌∙◌, ◌≢◌, false, Option, none, some, List, [], ◌∷◌,
  ◌++◌, arith, ◌==◌, to_int, get_elem?, set, replicate, length, has, All, get_elem?-set_self,
  get_elem?-set_ne, get_elem?-lt,
}
use fiona.Buffers.Provided.{RecvBuffer}

-- The capacity of the buffer in a slot.
abbrev pub capacity_at : List RecvBuffer → ℕ → Option ℕ
capacity_at bufs i = elim (get_elem? bufs i) [ none ↦ none | some b ↦ some b.capacity ]

abbrev pub IsFree : List RecvBuffer → ℕ → Type 0
IsFree bufs i = capacity_at bufs i ≡ some 0

-- The slots whose buffer was moved out.
unfoldable pub empties : List RecvBuffer → ℕ
empties [] = 0
empties (b ∷ bs) = to_int (b.capacity == 0) + empties bs

pub empties-le : (bufs : List RecvBuffer) → empties bufs ≤ length bufs
unfolding empties
empties-le [] = omega arith
empties-le (b ∷ bs) = ground (arith, empties-le bs)

pub empties-set :
    (bufs : List RecvBuffer) (i : ℕ) (b v : RecvBuffer)
    → get_elem? bufs i ≡ some b
    → empties (set bufs i v) + to_int (b.capacity == 0) ≡ empties bufs + to_int (v.capacity == 0)
unfolding empties
empties-set [] i b v e = cc
empties-set (x ∷ xs) zero b v e = ground arith
empties-set (x ∷ xs) (suc i) b v e = omega (arith, empties-set xs i b v e)

pub empties-lt :
    (bufs : List RecvBuffer) (i : ℕ) (b : RecvBuffer)
    → get_elem? bufs i ≡ some b
    → 0 < b.capacity
    → empties bufs < length bufs
unfolding empties
empties-lt [] i b e h = absurd (omega (arith, get_elem?-lt [] i b e))
empties-lt (x ∷ xs) zero b e h = ground (arith, empties-le xs)
empties-lt (x ∷ xs) (suc i) b e h = ground (arith, empties-lt xs i b e h)

pub empties-replicate : (n : ℕ) (b : RecvBuffer) → 0 < b.capacity → empties (replicate n b) ≡ 0
unfolding empties
empties-replicate zero b h = refl
empties-replicate (suc n) b h = ground (arith, empties-replicate n b h)

pub capacity_at-set_self :
    (bufs : List RecvBuffer) (i : ℕ) (v : RecvBuffer)
    → i < length bufs
    → capacity_at (set bufs i v) i ≡ some v.capacity
capacity_at-set_self bufs i v h = rw (get_elem?-set_self bufs i v h, capacity_at) refl

pub capacity_at-set_ne :
    (bufs : List RecvBuffer) (i j : ℕ) (v : RecvBuffer)
    → i ≢ j
    → capacity_at (set bufs i v) j ≡ capacity_at bufs j
capacity_at-set_ne bufs i j v h = rw (get_elem?-set_ne bufs i j v h, capacity_at) refl

-- Emptying a slot leaves the free ones free.
pub IsFree-set_empty :
    (bufs : List RecvBuffer) (i j : ℕ) (v : RecvBuffer)
    → v.capacity ≡ 0
    → IsFree bufs j
    → IsFree (set bufs i v) j
IsFree-set_empty [] i j v e h = h
IsFree-set_empty (x ∷ xs) zero zero v e h = ap some e
IsFree-set_empty (x ∷ xs) zero (suc j) v e h = h
IsFree-set_empty (x ∷ xs) (suc i) zero v e h = h
IsFree-set_empty (x ∷ xs) (suc i) (suc j) v e h = IsFree-set_empty xs i j v e h

pub All-IsFree-set_empty :
    (bufs : List RecvBuffer) (i : ℕ) (v : RecvBuffer) (js : List ℕ)
    → v.capacity ≡ 0
    → All (IsFree bufs) js
    → All (IsFree (set bufs i v)) js
All-IsFree-set_empty bufs i v [] e a = tt
All-IsFree-set_empty bufs i v (j ∷ js) e a =
    (IsFree-set_empty bufs i j v e a.0, All-IsFree-set_empty bufs i v js e a.1)

-- Filling a slot that is not on a list leaves those of the list free.
pub All-IsFree-set :
    (bufs : List RecvBuffer) (i : ℕ) (v : RecvBuffer) (js : List ℕ)
    → has i js ≡ false
    → All (IsFree bufs) js
    → All (IsFree (set bufs i v)) js
All-IsFree-set bufs i v [] h a = tt
All-IsFree-set bufs i v (j ∷ js) h a = (
  capacity_at-set_ne bufs i j v (ground arith) ∙ a.0,
  All-IsFree-set bufs i v js (ground arith) a.1,
)

-- A slot with a buffer is on no list of free slots.
pub has-free_false :
    (bufs : List RecvBuffer) (i c : ℕ) (js : List ℕ)
    → capacity_at bufs i ≡ some (suc c)
    → All (IsFree bufs) js
    → has i js ≡ false
has-free_false bufs i c [] e a = refl
has-free_false bufs i c (j ∷ js) e a = ground (arith, has-free_false bufs i c js e a.1)

pub All-snoc {ℓ κ} :
    {A : Type ℓ} (P : A → Type κ) (xs : List A) (a : A) → All P xs → P a → All P (xs ++ a ∷ [])
All-snoc P [] a h p = (p, tt)
All-snoc P (x ∷ xs) a h p = (h.0, All-snoc P xs a h.1 p)

pub All-unsnoc {ℓ κ} :
    {A : Type ℓ} (P : A → Type κ) (xs : List A) (a : A) → All P (xs ++ a ∷ []) → All P xs × P a
All-unsnoc P [] a h = (tt, h.0)
All-unsnoc P (x ∷ xs) a h = let r = All-unsnoc P xs a h.1 in ((h.0, r.0), r.1)
