-- ===== src/Buffers/Linked/Join.antt =====
-- `concat` is the concatenation of the lists; the move constructor keeps the list.
use fiona.Base.{
  ℕ, suc, ◌+◌, ◌<◌, ◌≡◌, refl, ◌∙◌, ||_false, true, false, ◌==◌, some, List, [], ◌∷◌, ◌++◌, length,
  has, arith,
}
use fiona.Buffers.Linked.{Headers, Sequence, with_next, with_prev, concat}
use fiona.Buffers.Linked.Chain.{Represents, first, last, has-last, live_last}
use fiona.Buffers.Linked.Relink.{ne_of_has, ==_sym, at_self, at_ne, has_here, has_there}
use fiona.Buffers.Linked.Splice.{extended}

-- The sequence that stands for `xs`, with its sentry at `t`.
abbrev pub standard : (t : ℕ) → List ℕ → Sequence
standard t xs = record { sentry = t; head = first xs 0; tail = last 0 xs; num_bufs = length xs }

pub Represents-standard :
    (h : Headers) (s : Sequence) (xs : List ℕ) → Represents h s xs → s ≡ standard s.sentry xs
Represents-standard h s xs r = ground (arith, r.head, r.tail, r.count)

-- The writes of `concat`, for chains that end in `e` and start in `y`.
abbrev pub joined : (s t e y f : ℕ) → Headers → Headers
joined s t e y f h = with_prev t 0 (with_prev s f (with_next f s (with_prev y e (with_next e y h))))

pub suc_nonzero : (n : ℕ) → (suc n == 0) ≡ false
suc_nonzero n = ground arith

pub positive : (a : ℕ) → 0 < a → (a == 0) ≡ false
positive a p = ground arith

module _ (h : Headers) (s t x y : ℕ) (xs ys : List ℕ)
    (r : Represents h (standard s (x ∷ xs)) (x ∷ xs))
    (q : Represents h (standard t (y ∷ ys)) (y ∷ ys))
    (apart : (a : ℕ) → has a (s ∷ x ∷ xs) ≡ true → has a (t ∷ y ∷ ys) ≡ false) where
  abbrev pub g : Headers
  g = joined s t (last x xs) y (last y ys) h

  abbrev pub both : Sequence
  both = record {
    sentry = s;
    head = x;
    tail = last y ys;
    num_bufs = length (x ∷ xs) + length (y ∷ ys);
  }

  pub runs : concat (standard s (x ∷ xs)) (standard t (y ∷ ys)) h ≡ some (both, standard t [], g)
  unfolding concat
  runs =
      rw
        (
          suc_nonzero (length ys),
          suc_nonzero (length xs),
          live_last h 0 s x xs r.chain,
          q.chain.0,
          live_last h 0 t y ys q.chain,
          r.sentry,
          q.sentry,
        )
        refl

  -- The heap before the last one, two or three writes to `prev`, and before the last to `next`.
  abbrev g₁ : Headers
  g₁ = with_prev s (last y ys) (with_prev y (last x xs) h)

  abbrev g₂ : Headers
  g₂ = with_prev y (last x xs) h

  abbrev g₃ : Headers
  g₃ = with_next (last x xs) y h

  left_out :
      (a : ℕ)
      → has a (x ∷ xs) ≡ true
      → (has a (y ∷ ys) ≡ false) × ((a == t) ≡ false) × ((a == s) ≡ false)
  left_out a i =
      let o = ||_false (apart a (has_there a s (x ∷ xs) i)) in
      (o.1, o.0, ==_sym s a (ne_of_has a s (x ∷ xs) i r.apart.0))

  s_out : has s (t ∷ y ∷ ys) ≡ false
  s_out = apart s (has_here s (x ∷ xs))

  right_out : (a : ℕ) → has a (y ∷ ys) ≡ true → ((a == t) ≡ false) × ((a == s) ≡ false)
  right_out a i = (
    ==_sym t a (ne_of_has a t (y ∷ ys) i q.apart.0),
    ==_sym s a (ne_of_has a s (y ∷ ys) i (||_false s_out).1),
  )

  pub joins : Represents g both (x ∷ xs ++ y ∷ ys)
  joins =
      let e = last x xs in
      let f = last y ys in
      let e_in = has-last x xs in
      let f_in = has-last y ys in
      let y_in = has_here y ys in
      let e_out = λ (a : ℕ) (i : has a (y ∷ ys) ≡ true).
        ==_sym e a (ne_of_has a e (y ∷ ys) i (left_out e e_in).0) in
      let f_out =
        λ (a : ℕ) (i : has a (x ∷ xs) ≡ true). ne_of_has f a (y ∷ ys) f_in (left_out a i).0 in
      let y_out =
        λ (a : ℕ) (i : has a (x ∷ xs) ≡ true). ne_of_has y a (y ∷ ys) y_in (left_out a i).0 in
      extended h g (standard s (x ∷ xs)) x y t xs ys r q.chain q.apart.1 (||_false s_out).1
        (λ a i. (left_out a i).0) q.real.1 (λ a. refl)
        (λ a i.
          at_ne g₁.prev t 0 a (left_out a i).1
          ∙ at_ne g₂.prev s f a (left_out a i).2
          ∙ at_ne h.prev y e a (y_out a i))
        (λ a i n. at_ne g₃.next f s a (f_out a i) ∙ at_ne h.next e y a n)
        (λ a i n.
          at_ne g₁.prev t 0 a (right_out a i).0
          ∙ at_ne g₂.prev s f a (right_out a i).1
          ∙ at_ne h.prev y e a n)
        (λ a i n. at_ne g₃.next f s a n ∙ at_ne h.next e y a (e_out a i))
        (at_ne g₃.next f s e (f_out e e_in) ∙ at_self h.next e y)
        (at_ne g₁.prev t 0 y (right_out y y_in).0
          ∙ at_ne g₂.prev s f y (right_out y y_in).1
          ∙ at_self h.prev y e)
        (at_self g₃.next f s) (at_ne g₁.prev t 0 s (||_false s_out).0 ∙ at_self g₂.prev s f)
        (length (x ∷ xs) + length (y ∷ ys)) refl

  pub leaves : Represents g (standard t []) []
  leaves = record {
    head = refl;
    tail = refl;
    count = refl;
    chain = tt;
    sentry = q.sentry;
    back = at_self g₁.prev t 0;
    apart = (refl, tt);
    real = (q.real.0, tt);
  }
