-- ===== src/Buffers/Linked/Splice.antt =====
-- A sequence that gets further buffers at its end.
use fiona.Base.{
  ℕ, ◌+◌, ◌<◌, ◌≡◌, sym, ◌∙◌, ap, true, false, ◌==◌, List, [], ◌∷◌, ◌++◌, length, length-append,
  has, has-append_false, Distinct, All, arith,
}
use fiona.Buffers.Linked.{Headers, Sequence}
use fiona.Buffers.Linked.Chain.{Linked, Represents, last, last-append, Linked-append}
use fiona.Buffers.Linked.Relink.{Linked-relink, has_here, has_there}

pub Distinct-append :
    (xs ys : List ℕ)
    → Distinct xs
    → Distinct ys
    → ((a : ℕ) → has a xs ≡ true → has a ys ≡ false)
    → Distinct (xs ++ ys)
Distinct-append [] ys d e apart = e
Distinct-append (x ∷ xs) ys d e apart = (
  has-append_false x xs ys d.0 (apart x (has_here x xs)),
  Distinct-append xs ys d.1 e (λ a i. apart a (has_there a x xs i)),
)

pub All-append {ℓ} : (P : ℕ → Type ℓ) (xs ys : List ℕ) → All P xs → All P ys → All P (xs ++ ys)
All-append P [] ys p q = q
All-append P (x ∷ xs) ys p q = (p.0, All-append P xs ys p.1 q)

-- The sequence `s` over `x ∷ xs` is extended by the chain of `y ∷ ys`, which ends anywhere: the
-- conditions are on the heap `g` that the writes leave.
module _ (h g : Headers) (s : Sequence) (x y c : ℕ) (xs ys : List ℕ) (r : Represents h s (x ∷ xs))
    (l : Linked h 0 (y ∷ ys) c) (d : Distinct (y ∷ ys)) (out : has s.sentry (y ∷ ys) ≡ false)
    (apart : (a : ℕ) → has a (x ∷ xs) ≡ true → has a (y ∷ ys) ≡ false)
    (real : All (λ a. 0 < a) (y ∷ ys)) (lives : (a : ℕ) → g.live a ≡ h.live a) where
  pub extended :
      ((a : ℕ) → has a (x ∷ xs) ≡ true → g.prev a ≡ h.prev a)
      → ((a : ℕ) → has a (x ∷ xs) ≡ true → (a == s.tail) ≡ false → g.next a ≡ h.next a)
      → ((a : ℕ) → has a (y ∷ ys) ≡ true → (a == y) ≡ false → g.prev a ≡ h.prev a)
      → ((a : ℕ) → has a (y ∷ ys) ≡ true → (a == last y ys) ≡ false → g.next a ≡ h.next a)
      → g.next s.tail ≡ y
      → g.prev y ≡ s.tail
      → g.next (last y ys) ≡ s.sentry
      → g.prev s.sentry ≡ last y ys
      → (n : ℕ) → n ≡ s.num_bufs + length (y ∷ ys)
      → Represents g (record s { tail = last y ys; num_bufs = n }) (x ∷ xs ++ y ∷ ys)
  extended px nx py ny join back end close n size = record {
    head = r.head;
    tail = sym (last-append x y xs ys);
    count = omega (arith, r.count, length-append xs (y ∷ ys));
    chain =
        Linked-append g 0 s.sentry (x ∷ xs) (y ∷ ys)
          (Linked-relink h g 0 0 s.sentry y (x ∷ xs) r.chain r.apart.1 (λ a i. lives a)
            (λ a i n. px a i) (λ a i n. nx a i (rw r.tail n)) (px x (has_here x xs) ∙ r.chain.1)
            (ap g.next (sym r.tail) ∙ join))
          (Linked-relink h g 0 (last x xs) c s.sentry (y ∷ ys) l d (λ a i. lives a) py ny
            (back ∙ r.tail) end);
    sentry = lives s.sentry ∙ r.sentry;
    back = close ∙ sym (last-append x y xs ys);
    apart = (
      has-append_false s.sentry (x ∷ xs) (y ∷ ys) r.apart.0 out,
      Distinct-append (x ∷ xs) (y ∷ ys) r.apart.1 d apart,
    );
    real = (r.real.0, All-append (λ a. 0 < a) (x ∷ xs) (y ∷ ys) r.real.1 real);
  }
