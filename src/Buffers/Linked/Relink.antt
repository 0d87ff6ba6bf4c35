-- ===== src/Buffers/Linked/Relink.antt =====
-- What a write to some of the headers leaves of a chain.
use fiona.Base.{ℕ, ◌≡◌, refl, true, false, List, [], ◌∷◌, has, Distinct, arith, ◌==◌, ◌∙◌}
use fiona.Buffers.Linked.{Headers, at}
use fiona.Buffers.Linked.Chain.{Linked, Same, last, first, has-last}

pub has_here : (a : ℕ) (xs : List ℕ) → has a (a ∷ xs) ≡ true
has_here a xs = ground arith

pub has_there : (a x : ℕ) (xs : List ℕ) → has a xs ≡ true → has a (x ∷ xs) ≡ true
has_there a x xs h = ground arith

pub ne_of_has : (a b : ℕ) (xs : List ℕ) → has a xs ≡ true → has b xs ≡ false → (b == a) ≡ false
ne_of_has a b [] h k = cc
ne_of_has a b (x ∷ xs) h k = ground (arith, ne_of_has a b xs)

pub ==_sym : (a b : ℕ) → (a == b) ≡ false → (b == a) ≡ false
==_sym a b h = ground arith

module _ {ℓ} {A : Type ℓ} (f : ℕ → A) where
  pub at_self : (p : ℕ) (v : A) → at f p v p ≡ v
  at_self p v = ground arith

  pub at_ne : (p : ℕ) (v : A) (a : ℕ) → (a == p) ≡ false → at f p v a ≡ f a
  at_ne p v a n = rw n refl

pub Linked-frame :
    (h g : Headers) (b c : ℕ) (xs : List ℕ)
    → Linked h b xs c
    → ((a : ℕ) → has a xs ≡ true → Same h g a)
    → Linked g b xs c
Linked-frame h g b c [] l same = tt
Linked-frame h g b c (x ∷ xs) l same = (
  (same x (has_here x xs)).0 ∙ l.0,
  (same x (has_here x xs)).1 ∙ l.1,
  (same x (has_here x xs)).2 ∙ l.2,
  Linked-frame h g x c xs l.3 (λ a i. same a (has_there a x xs i)),
)

-- Where only the first header's predecessor and the last one's successor are other ones.
pub Linked-relink :
    (h g : Headers) (b b' c c' : ℕ) (xs : List ℕ)
    → Linked h b xs c
    → Distinct xs
    → ((a : ℕ) → has a xs ≡ true → g.live a ≡ h.live a)
    → ((a : ℕ) → has a xs ≡ true → (a == first xs 0) ≡ false → g.prev a ≡ h.prev a)
    → ((a : ℕ) → has a xs ≡ true → (a == last 0 xs) ≡ false → g.next a ≡ h.next a)
    → g.prev (first xs 0) ≡ b'
    → g.next (last 0 xs) ≡ c'
    → Linked g b' xs c'
Linked-relink h g b b' c c' [] l d lives prevs nexts start end = tt
Linked-relink h g b b' c c' (x ∷ []) l d lives prevs nexts start end =
    (lives x (has_here x []) ∙ l.0, start, end, tt)
Linked-relink h g b b' c c' (x ∷ y ∷ ys) l d lives prevs nexts start end =
    let apart = λ (a : ℕ) (i : has a (y ∷ ys) ≡ true). ne_of_has a x (y ∷ ys) i d.0 in
    (
      lives x (has_here x (y ∷ ys)) ∙ l.0,
      start,
      nexts x (has_here x (y ∷ ys)) (apart (last y ys) (has-last y ys)) ∙ l.2,
      Linked-relink h g x x c c' (y ∷ ys) l.3 d.1 (λ a i. lives a (has_there a x (y ∷ ys) i))
          (λ a i n. prevs a (has_there a x (y ∷ ys) i) (==_sym x a (apart a i)))
          (λ a i n. nexts a (has_there a x (y ∷ ys) i) n)
          (prevs y (has_there y x (y ∷ ys) (has_here y ys)) (==_sym x y (apart y (has_here y ys)))
            ∙ l.3.1)
          end,
    )
