-- ===== src/Buffers/Linked/Push.antt =====
-- `push_back` is the extension of the list at its end by one.
use fiona.Base.{
  ||_false, ℕ, suc, ◌<◌, ◌≡◌, refl, ap, ◌∙◌, true, false, ◌==◌, some, List, [], ◌∷◌, ◌++◌, has,
  arith,
}
use fiona.Buffers.Linked.{Headers, Sequence, with_next, with_prev, push_back}
use fiona.Buffers.Linked.Chain.{Represents, has-last, live_last, All-has}
use fiona.Buffers.Linked.Relink.{ne_of_has, ==_sym, at_self, at_ne}
use fiona.Buffers.Linked.Splice.{extended}

-- The heap after the first push, and after a further one.
abbrev alone : Sequence → ℕ → Headers → Headers
alone s p h = with_prev s.sentry p (with_next p s.sentry h)

abbrev behind : Sequence → ℕ → Headers → Headers
behind s p h = alone s p (with_prev p s.tail (with_next s.tail p h))

-- The contents of all buffers, and what lives, are the same.
abbrev pub Untouched : Headers → Headers → Type 0
Untouched h g = (g.live ≡ h.live) × (g.size ≡ h.size) × (g.capacity ≡ h.capacity)

module _ (h : Headers) (s : Sequence) (p : ℕ) (out_sentry : (p == s.sentry) ≡ false)
    (live : h.live p ≡ true) (pos : 0 < p) where
  clash : (f g : ℕ → ℕ) (a : ℕ) → has a (p ∷ []) ≡ true → (a == p) ≡ false → f a ≡ g a
  clash f g a i n = ground arith

  push_first :
      Represents h s []
      → push_back s p h
        ≡ some (record s { head = p; tail = p; num_bufs = suc s.num_bufs }, alone s p h)
  unfolding push_back
  push_first r = ground (arith, r.tail, r.head, r.sentry)

  first-Represents :
      Represents h s []
      → h.prev p ≡ 0
      → Represents
          (alone s p h)
          (record s { head = p; tail = p; num_bufs = suc s.num_bufs })
          (p ∷ [])
  first-Represents r back = record {
    head = refl;
    tail = refl;
    count = omega (arith, r.count);
    chain = (live, ground arith, ground arith, tt);
    sentry = r.sentry;
    back = ground arith;
    apart = (ground arith, (refl, tt));
    real = (r.real.0, (pos, tt));
  }

  module _ (x : ℕ) (xs : List ℕ) (r : Represents h s (x ∷ xs)) (out : has p (x ∷ xs) ≡ false)
      (h_prev : h.prev p ≡ 0) where
    tail_in : has s.tail (x ∷ xs) ≡ true
    tail_in = ap (λ t. has t (x ∷ xs)) r.tail ∙ has-last x xs

    live_tail : h.live s.tail ≡ true
    live_tail = rw r.tail (live_last h 0 s.sentry x xs r.chain)

    push_next :
        push_back s p h ≡ some (record s { tail = p; num_bufs = suc s.num_bufs }, behind s p h)
    unfolding push_back
    push_next = ground (
      arith,
      r.head,
      r.sentry,
      live_tail,
      r.real.1.0,
      All-has (λ a. 0 < a) s.tail (x ∷ xs) r.real.1 tail_in,
    )

    next-Represents :
        Represents
          (behind s p h)
          (record s { tail = p; num_bufs = suc s.num_bufs })
          (x ∷ xs ++ p ∷ [])
    next-Represents =
        let apart = λ (a : ℕ) (i : has a (x ∷ xs) ≡ true). ne_of_has a p (x ∷ xs) i out in
        let away = λ (a : ℕ) (i : has a (x ∷ xs) ≡ true). ==_sym p a (apart a i) in
        let tail_away = away s.tail tail_in in
        let b = behind s p h in
        let prevs = with_prev p s.tail h in
        let nexts = with_next s.tail p h in
        extended h b s x p (h.next p) xs [] r (live, h_prev, refl, tt) (refl, tt)
          (rw (==_sym p s.sentry out_sentry) refl) (λ a i. rw (away a i) refl) (pos, tt) (λ a. refl)
          (λ a i.
            at_ne prevs.prev s.sentry p a
              (==_sym s.sentry a (ne_of_has a s.sentry (x ∷ xs) i r.apart.0))
            ∙ at_ne h.prev p s.tail a (away a i))
          (λ a i n. at_ne nexts.next p s.sentry a (away a i) ∙ at_ne h.next s.tail p a n)
          (λ a i n. clash b.prev h.prev a i n) (λ a i n. clash b.next h.next a i n)
          (at_ne nexts.next p s.sentry s.tail tail_away ∙ at_self h.next s.tail p)
          (at_ne prevs.prev s.sentry p p out_sentry ∙ at_self h.prev p s.tail)
          (at_self nexts.next p s.sentry) (at_self prevs.prev s.sentry p) (suc s.num_bufs)
          (omega arith)

-- A live buffer outside the sequence, with no predecessor, is added behind the others, and no buffer's
-- contents are touched.
pub push_back-Represents :
    (h : Headers) (s : Sequence) (xs : List ℕ) (p : ℕ)
    → Represents h s xs
    → has p (s.sentry ∷ xs) ≡ false
    → h.live p ≡ true
    → h.prev p ≡ 0
    → 0 < p
    → (s' : Sequence) × (g : Headers) × (push_back s p h ≡ some (s', g))
      × Represents g s' (xs ++ p ∷ [])
      × Untouched h g
      × (s'.sentry ≡ s.sentry)
push_back-Represents h s [] p r out live back pos =
    let o = ||_false out in
    (
      record s { head = p; tail = p; num_bufs = suc s.num_bufs },
      alone s p h,
      push_first h s p o.0 live pos r,
      first-Represents h s p o.0 live pos r back,
      (refl, refl, refl),
      refl,
    )
push_back-Represents h s (x ∷ xs) p r out live back pos =
    let o = ||_false out in
    (
      record s { tail = p; num_bufs = suc s.num_bufs },
      behind s p h,
      push_next h s p o.0 live pos x xs r o.1 back,
      next-Represents h s p o.0 live pos x xs r o.1 back,
      (refl, refl, refl),
      refl,
    )
