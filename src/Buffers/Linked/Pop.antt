-- ===== src/Buffers/Linked/Pop.antt =====
-- `pop_front` takes the first buffer off the list.
use fiona.Base.{||_false, ℕ, ◌-◌, ◌≡◌, refl, ◌∙◌, true, some, List, [], ◌∷◌, has, arith}
use fiona.Buffers.Linked.{Headers, at, Sequence, with_next, with_prev, emptied, pop_front}
use fiona.Buffers.Linked.Chain.{Represents, last, has-last, next_last}
use fiona.Buffers.Linked.Relink.{
  Linked-relink, ne_of_has, ==_sym, at_self, at_ne, has_here, has_there,
}
use fiona.Buffers.Linked.Push.{Untouched}

-- The heap after the header `x`, whose successor is `q`, is unlinked.
abbrev unlinked : (x q : ℕ) → Headers → Headers
unlinked x q h = with_prev q 0 (with_prev x 0 (with_next x 0 h))

module _ (h : Headers) (s : Sequence) (x : ℕ) where
  pop_last : Represents h s (x ∷ []) → pop_front s h ≡ some (x, emptied s, unlinked x s.sentry h)
  unfolding pop_front
  pop_last r = ground (arith, r.head, r.tail, r.count, r.chain, r.sentry)

  last-Represents : Represents h s (x ∷ []) → Represents (unlinked x s.sentry h) (emptied s) []
  last-Represents r = record {
    head = refl;
    tail = refl;
    count = refl;
    chain = tt;
    sentry = r.sentry;
    back = at_self (with_prev x 0 h).prev s.sentry 0;
    apart = (refl, tt);
    real = (r.real.0, tt);
  }

  module _ (y : ℕ) (ys : List ℕ) (r : Represents h s (x ∷ y ∷ ys)) where
    rest : Sequence
    rest = record s { head = y; num_bufs = s.num_bufs - 1 }

    pop_next : pop_front s h ≡ some (x, rest, unlinked x y h)
    unfolding pop_front rest
    pop_next =
        let n = ne_of_has (last y ys) x (y ∷ ys) (has-last y ys) r.apart.1.0 in
        ground (arith, r.head, r.tail, r.count, r.chain.0, r.chain.2, r.chain.3.0, n)

    next-Represents : Represents (unlinked x y h) rest (y ∷ ys)
    unfolding rest
    next-Represents =
        let before = with_prev x 0 h in
        let apart = λ (a : ℕ) (i : has a (y ∷ ys) ≡ true).
          ==_sym x a (ne_of_has a x (y ∷ ys) i r.apart.1.0) in
        let xs_out = r.apart.0 in
        record {
          head = refl;
          tail = r.tail;
          count = omega (arith, r.count);
          chain =
              Linked-relink h (unlinked x y h) x 0 s.sentry s.sentry (y ∷ ys) r.chain.3 r.apart.1.1
                (λ a i. refl) (λ a i n. at_ne before.prev y 0 a n ∙ at_ne h.prev x 0 a (apart a i))
                (λ a i n. at_ne h.next x 0 a (apart a i)) (at_self before.prev y 0)
                (at_ne h.next x 0 (last y ys) (apart (last y ys) (has-last y ys))
                  ∙ next_last h x s.sentry y ys r.chain.3);
          sentry = r.sentry;
          back =
              at_ne before.prev y 0 s.sentry
                (ne_of_has y s.sentry (x ∷ y ∷ ys) (has_there y x (y ∷ ys) (has_here y ys)) xs_out)
              ∙ at_ne h.prev x 0 s.sentry
                  (ne_of_has x s.sentry (x ∷ y ∷ ys) (has_here x (y ∷ ys)) xs_out)
              ∙ r.back;
          apart = ((||_false xs_out).1, r.apart.1.1);
          real = (r.real.0, r.real.1.1);
        }

zeroed : (f : ℕ → ℕ) (p q : ℕ) → at (at f p 0) q 0 p ≡ 0
zeroed f p q = ground arith

-- The first buffer of a sequence is taken off and handed out, unlinked, and no buffer's contents are
-- touched.
pub pop_front-Represents :
    (h : Headers) (s : Sequence) (x : ℕ) (xs : List ℕ)
    → Represents h s (x ∷ xs)
    → (s' : Sequence) × (g : Headers) × (pop_front s h ≡ some (x, s', g))
      × Represents g s' xs
      × Untouched h g
      × (g.prev x ≡ 0)
      × (g.next x ≡ 0)
      × (s'.sentry ≡ s.sentry)
unfolding rest
pop_front-Represents h s x [] r = (
  emptied s,
  unlinked x s.sentry h,
  pop_last h s x r,
  last-Represents h s x r,
  (refl, refl, refl),
  zeroed h.prev x s.sentry,
  at_self h.next x 0,
  refl,
)
pop_front-Represents h s x (y ∷ ys) r = (
  rest h s x y ys r,
  unlinked x y h,
  pop_next h s x y ys r,
  next-Represents h s x y ys r,
  (refl, refl, refl),
  zeroed h.prev x y,
  at_self h.next x 0,
  refl,
)
