-- ===== src/Buffers/Linked/Backwards.antt =====
-- An iteration over a sequence from its end.
use mathlib.Core.List.{reverse, reverse_aux}
use fiona.Base.{
  ==_self, ||_false, ℕ, zero, suc, ◌+◌, ◌<◌, ◌≡◌, refl, ap, ◌∙◌, true, false, some, List, [], ◌∷◌,
  length, has, arith, ◌==◌,
}
use fiona.Buffers.Linked.{Headers, Sequence, forwards, backwards, begin}
use fiona.Buffers.Linked.Chain.{Linked, Represents, last}
use fiona.Buffers.Linked.Relink.{==_sym}
use fiona.Buffers.Linked.Walk.{begin_lem, forwards-Represents}

length-reverse_aux :
    (xs others : List ℕ) → length (reverse_aux xs others) ≡ length others + length xs
length-reverse_aux [] others = omega arith
length-reverse_aux (x ∷ xs) others = omega (arith, length-reverse_aux xs (x ∷ others))

-- The headers from `p` down to `start` are linked by `prev_` over `rs`.
abbrev Back : Headers → (start p : ℕ) → List ℕ → Type 0
Back h start p [] = p ≡ start
Back h start p (r ∷ rs) =
    (h.live p ≡ true) × ((p == start) ≡ false) × (h.prev p ≡ r) × Back h start r rs

reached :
    (h : Headers) (start p : ℕ) (rs : List ℕ) (fuel : ℕ)
    → Back h start p rs
    → length rs < fuel
    → backwards fuel start p h ≡ some rs
unfolding backwards
reached h start p rs zero b enough = absurd (omega arith)
reached h start p [] (suc k) b enough = rw (b, ==_self start, backwards) refl
reached h start p (r ∷ rs) (suc k) b enough =
    rw (b.1, b.0, b.2, backwards) (rw (reached h start r rs k b.3 (omega arith)) refl)

-- The chain of a sequence, walked as far as `x`, goes back over what was passed.
turned :
    (h : Headers) (start x t : ℕ) (passed xs : List ℕ)
    → Back h start x passed
    → Linked h x xs t
    → has start xs ≡ false
    → (t == start) ≡ false
    → h.live t ≡ true
    → h.prev t ≡ last x xs
    → Back h start t (reverse_aux xs (x ∷ passed))
turned h start x t passed [] b l out other live prev = (live, other, prev, b)
turned h start x t passed (y ∷ ys) b l out other live prev =
    let o = ||_false out in
    turned h start y t (x ∷ passed) ys (l.0, ==_sym start y o.0, l.1, b) l.3 o.1 other live prev

Back-reverse :
    (h : Headers) (s : Sequence) (x : ℕ) (xs : List ℕ)
    → Represents h s (x ∷ xs)
    → Back h x s.sentry (reverse (x ∷ xs))
Back-reverse h s x xs r =
    let o = ||_false r.apart.0 in
    turned h x x s.sentry [] xs refl r.chain.3 r.apart.1.0 o.0 r.sentry r.back

backwards-Represents :
    (h : Headers) (s : Sequence) (xs : List ℕ) (fuel : ℕ)
    → Represents h s xs
    → length xs < fuel
    → backwards fuel (begin s) s.sentry h ≡ some (reverse xs)
backwards-Represents h s [] fuel r enough =
    ap (λ p. backwards fuel p s.sentry h) (begin_lem h s [] r)
    ∙ reached h s.sentry s.sentry [] fuel refl enough
backwards-Represents h s (x ∷ xs) fuel r enough =
    ap (λ p. backwards fuel p s.sentry h) (begin_lem h s (x ∷ xs) r)
    ∙ reached h x s.sentry (reverse (x ∷ xs)) fuel (Back-reverse h s x xs r)
        (omega (arith, length-reverse_aux (x ∷ xs) [], enough))

-- On a sequence that stands for a list of buffers, a loop from `end()` down to `begin()` visits exactly
-- the buffers that a loop from `begin()` to `end()` visits, in the opposite order, and both end, with
-- one round of fuel more than there are buffers.
pub backwards-forwards :
    (h : Headers) (s : Sequence) (xs : List ℕ) (fuel : ℕ)
    → Represents h s xs
    → length xs < fuel
    → (visited : List ℕ) × (forwards fuel s.sentry (begin s) h ≡ some visited)
      × (backwards fuel (begin s) s.sentry h ≡ some (reverse visited))
backwards-forwards h s xs fuel r enough =
    (xs, forwards-Represents h s xs fuel r enough, backwards-Represents h s xs fuel r enough)
