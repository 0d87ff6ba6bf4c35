-- ===== src/Tls/Fill.antt =====
-- What the filling of a buffer does to the bytes of a sequence.
use mathlib.Core.List.{append_assoc, append-nil}
use mathlib.Core.Path.{subst}
use fiona.Base.{
  ◌>>=◌, ℕ, zero, suc, ◌-◌, ◌≤◌, ◌<◌, ◌≡◌, refl, sym, ap, ◌∙◌, Bool, true, false, Option, none,
  some, List, [], ◌∷◌, ◌++◌, length, length-append, take, drop, ltb, All, arith, if◌then◌else◌,
}
use fiona.Buffers.Sequence.{min}
use fiona.Tls.{Buffer, spare, filled, fill_back}

-- The readable bytes of a sequence, in order.
abbrev pub contents : List Buffer → List ℕ
contents [] = []
contents (b ∷ bs) = b.bytes ++ contents bs

pub record Fits (b : Buffer) : Type 0 where
  pub positive : 1 ≤ b.capacity
  pub within : length b.bytes ≤ b.capacity

take-drop : (n : ℕ) (xs : List ℕ) → take n xs ++ drop n xs ≡ xs
take-drop zero xs = refl
take-drop (suc n) [] = refl
take-drop (suc n) (x ∷ xs) = ap (λ ys. x ∷ ys) (take-drop n xs)

length-take : (n : ℕ) (xs : List ℕ) → length (take n xs) ≤ n
length-take zero xs = omega arith
length-take (suc n) [] = omega arith
length-take (suc n) (x ∷ xs) = omega (arith, length-take n xs)

length-drop : (n : ℕ) (xs : List ℕ) → length (drop n xs) ≡ length xs - n
length-drop zero xs = omega arith
length-drop (suc n) [] = omega arith
length-drop (suc n) (x ∷ xs) = omega (arith, length-drop n xs)

pub contents-append : (bs cs : List Buffer) → contents (bs ++ cs) ≡ contents bs ++ contents cs
contents-append [] cs = refl
contents-append (b ∷ bs) cs =
    ap (λ ys. b.bytes ++ ys) (contents-append bs cs)
    ∙ sym (append_assoc b.bytes (contents bs) (contents cs))

pub All-snoc :
    (P : Buffer → Type 0) (bs : List Buffer) (b : Buffer) → All P bs → P b → All P (bs ++ b ∷ [])
All-snoc P [] b a p = (p, tt)
All-snoc P (c ∷ bs) b a p = (a.0, All-snoc P bs b a.1 p)

-- A step from the bytes `before` with `plaintext` to go to the sequence `bs` with `rest` to go.
pub record Moves (before plaintext : List ℕ) (bs : List Buffer) (rest : List ℕ) : Type 0 where
  pub bytes : contents bs ++ rest ≡ before ++ plaintext
  pub less : length rest < length plaintext
  pub fit : All Fits bs
  pub used : 1 ≤ length bs

min_pos : (a b : ℕ) → 1 ≤ a → 1 ≤ b → (1 ≤ min a b) × (min a b ≤ a) × (min a b ≤ b)
min_pos a b p q = ground arith

pub filled-Moves :
    (b : Buffer) (plaintext : List ℕ)
    → Fits b
    → 1 ≤ spare b
    → 1 ≤ length plaintext
    → Moves b.bytes plaintext ((filled b plaintext).0 ∷ []) (filled b plaintext).1
filled-Moves b plaintext f s l =
    let n = min (spare b) (length plaintext) in
    let m = min_pos (spare b) (length plaintext) s l in
    record {
      bytes =
          ap (λ ys. ys ++ drop n plaintext) (append-nil (b.bytes ++ take n plaintext))
          ∙ append_assoc b.bytes (take n plaintext) (drop n plaintext)
          ∙ ap (λ ys. b.bytes ++ ys) (take-drop n plaintext);
      less = omega (arith, length-drop n plaintext, m.0, l);
      fit = (
        record {
          positive = f.positive;
          within = omega (
            arith,
            length-append b.bytes (take n plaintext),
            length-take n plaintext,
            m.1,
            f.within,
          );
        },
        tt,
      );
      used = omega arith;
    }

abbrev pub Done : List ℕ → List ℕ → Option (List Buffer × List ℕ) → Type 0
Done before plaintext none = Unit
Done before plaintext (some q) = Moves before plaintext q.0 q.1

prefixed :
    (b : Buffer) (before plaintext : List ℕ) (cs : List Buffer) (rest : List ℕ)
    → Fits b
    → Moves before plaintext cs rest
    → Moves (b.bytes ++ before) plaintext (b ∷ cs) rest
prefixed b before plaintext cs rest f m = record {
  bytes =
      append_assoc b.bytes (contents cs) rest
      ∙ ap (λ ys. b.bytes ++ ys) m.bytes
      ∙ sym (append_assoc b.bytes before plaintext);
  less = m.less;
  fit = (f, m.fit);
  used = omega arith;
}

pub fill_back-Done :
    (bs : List Buffer) (plaintext : List ℕ)
    → All Fits bs
    → 1 ≤ length plaintext
    → Done (contents bs) plaintext (fill_back bs plaintext)
unfolding fill_back
fill_back-Done [] p a l = tt
fill_back-Done (b ∷ []) p a l =
    subst (λ z. Done z p (fill_back (b ∷ []) p)) (sym (append-nil b.bytes))
      (go (ltb 0 (spare b)) refl)
  where
    go :
        (t : Bool)
        → ltb 0 (spare b) ≡ t
        → Done b.bytes p (if t then (let (b', rest) = filled b p in some (b' ∷ [], rest)) else none)
    go true w = filled-Moves b p a.0 (ground (arith, w)) l
    go false w = tt
fill_back-Done (b ∷ c ∷ bs) p a l = go (fill_back (c ∷ bs) p) (fill_back-Done (c ∷ bs) p a.1 l)
  where
    go :
        (o : Option (List Buffer × List ℕ))
        → Done (contents (c ∷ bs)) p o
        → Done (contents (b ∷ c ∷ bs)) p (o >>= λ q. some (b ∷ q.0, q.1))
    go none d = tt
    go (some q) d = prefixed b (contents (c ∷ bs)) p q.0 q.1 a.0 d
