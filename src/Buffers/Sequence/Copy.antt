-- ===== src/Buffers/Sequence/Copy.antt =====
-- What the copy comes to.
use fiona.Base.{
  ℕ, zero, suc, ◌+◌, ◌≡◌, refl, ap, List, [], ◌∷◌, ◌++◌, length, take, drop, replicate,
  length-replicate, arith, ltb, if◌then◌else◌,
}
use fiona.Buffers.Sequence.{min, empty, buffer_size, buffer_copy, to_bytes}

unfoldable pub concat : List (List ℕ) → List ℕ
concat [] = []
concat (b ∷ bs) = b ++ concat bs

take_all : (xs : List ℕ) → take (length xs) xs ≡ xs
take_all [] = refl
take_all (x ∷ xs) = ap (λ ys. x ∷ ys) (take_all xs)

length-drop : (n k : ℕ) (xs : List ℕ) → length xs ≡ n + k → length (drop n xs) ≡ k
length-drop zero k xs e = omega arith
length-drop (suc n) k [] e = absurd (omega arith)
length-drop (suc n) k (x ∷ xs) e = length-drop n k xs (omega arith)

min-left : (a b k : ℕ) → a ≡ b + k → min a b ≡ b
min-left a b k e = ground arith

concat-empty : (bs : List (List ℕ)) → buffer_size bs ≡ 0 → concat bs ≡ []
unfolding buffer_size concat
concat-empty [] e = refl
concat-empty ([] ∷ bs) e = concat-empty bs (omega arith)
concat-empty ((x ∷ xs) ∷ bs) e = absurd (omega arith)

-- The branches after a buffer that fits, with the rest of the sequence copied.
last_branch :
    (b rest : List ℕ) (bs : List (List ℕ))
    → length rest ≡ buffer_size bs
    → ◌≡◌ {A = List ℕ × ℕ}
        (if ltb (length b) (length b)
          then (b ++ rest, length b)
          else if empty rest
          then (b ++ rest, length b)
          else (b ++ concat bs, length b + buffer_size bs))
        (b ++ concat bs, length b + buffer_size bs)
last_branch b [] bs e =
    let z : buffer_size bs ≡ 0 = omega arith in rw (concat-empty bs z, z) (ground arith)
last_branch b (x ∷ rest) bs e = ground arith

buffer_copy-concat :
    (dst : List ℕ) (bs : List (List ℕ))
    → length dst ≡ buffer_size bs
    → buffer_copy dst bs ≡ (concat bs, buffer_size bs)
unfolding buffer_copy buffer_size concat
buffer_copy-concat [] [] e = refl
buffer_copy-concat (x ∷ dst) [] e = absurd (omega arith)
buffer_copy-concat dst ([] ∷ bs) e =
    let z : 0 + buffer_size bs ≡ buffer_size bs = omega arith in
    rw (z) (buffer_copy-concat dst bs (omega arith))
buffer_copy-concat dst ((x ∷ xs) ∷ bs) e =
    let l = length-drop (suc (length xs)) (buffer_size bs) dst e in
    let ih = buffer_copy-concat (drop (suc (length xs)) dst) bs l in
    rw (min-left (length dst) (suc (length xs)) (buffer_size bs) e, take_all xs, ih)
      (last_branch (x ∷ xs) (drop (suc (length xs)) dst) bs l)

-- The bytes of a sequence are those of its buffers, one after the other, and as many are copied as
-- `buffer_size` counts.
to_bytes-concat :
    (bs : List (List ℕ))
    → (to_bytes bs ≡ concat bs)
      × ((buffer_copy (replicate (buffer_size bs) 0) bs).1 ≡ buffer_size bs)
unfolding to_bytes
to_bytes-concat bs =
    let c =
      buffer_copy-concat (replicate (buffer_size bs) 0) bs (length-replicate (buffer_size bs) 0) in
    (ap (λ p. p.0) c, ap (λ p. p.1) c)
