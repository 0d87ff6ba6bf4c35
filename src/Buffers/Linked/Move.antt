-- ===== src/Buffers/Linked/Move.antt =====
-- The move constructor keeps the list, and `concat` is the concatenation of the lists.
use mathlib.Core.Path.{subst}
use mathlib.Core.List.{append-nil}
use fiona.Base.{
  ℕ, ◌<◌, ◌≡◌, refl, ap, ◌∙◌, ||_false, true, false, ◌==◌, Option, some, List, [], ◌∷◌, ◌++◌,
  length, has,
}
use fiona.Buffers.Linked.{Headers, Sequence, with_next, with_prev, concat, assign, move}
use fiona.Buffers.Linked.Chain.{Represents, last, has-last, live_last, All-has}
use fiona.Buffers.Linked.Relink.{Linked-relink, ne_of_has, ==_sym, at_self, at_ne, has_here}
use fiona.Buffers.Linked.Push.{Untouched}
use fiona.Buffers.Linked.Join
use fiona.Buffers.Linked.Join.{standard, Represents-standard, positive, suc_nonzero}

-- What becomes of a sequence that takes over the list of another one.
abbrev pub Moved :
    (n : ℕ) (t : ℕ) (xs : List ℕ) → Headers → Option (Sequence × Sequence × Headers) → Type 0
Moved n t xs h out =
    (g : Headers) × (out ≡ some (standard n xs, standard t [], g))
    × Represents g (standard n xs) xs
    × Represents g (standard t []) []
    × Untouched h g

module _ (h : Headers) (n t : ℕ) (live : h.live n ≡ true) (pos : 0 < n)
    (other : (n == t) ≡ false) where
  move_empty : Represents h (standard t []) [] → Moved n t [] h (move n (standard t []) h)
  unfolding move
  move_empty q =
      let h₁ = with_prev t 0 h in
      (
        with_prev n 0 h₁,
        rw (q.sentry, live) refl,
        record {
          head = refl;
          tail = refl;
          count = refl;
          chain = tt;
          sentry = live;
          back = at_self h₁.prev n 0;
          apart = (refl, tt);
          real = (pos, tt);
        },
        record {
          head = refl;
          tail = refl;
          count = refl;
          chain = tt;
          sentry = q.sentry;
          back = at_ne h₁.prev n 0 t (==_sym n t other) ∙ at_self h.prev t 0;
          apart = (refl, tt);
          real = (q.real.0, tt);
        },
        (refl, refl, refl),
      )

  module _ (x : ℕ) (xs : List ℕ) (q : Represents h (standard t (x ∷ xs)) (x ∷ xs))
      (out : has n (x ∷ xs) ≡ false) where
    abbrev moved : Headers
    moved = with_next (last x xs) n (with_prev n (last x xs) (with_prev t 0 h))

    move_runs : move n (standard t (x ∷ xs)) h ≡ some (standard n (x ∷ xs), standard t [], moved)
    unfolding move
    move_runs =
        let p = All-has (λ a. 0 < a) (last x xs) (x ∷ xs) q.real.1 (has-last x xs) in
        rw (q.sentry, live, positive (last x xs) p, live_last h 0 t x xs q.chain) refl

    move_next : Moved n t (x ∷ xs) h (move n (standard t (x ∷ xs)) h)
    move_next =
        let e = last x xs in
        let e_in = has-last x xs in
        let h₁ = with_prev t 0 h in
        let n_out =
          λ (a : ℕ) (i : has a (x ∷ xs) ≡ true). ==_sym n a (ne_of_has a n (x ∷ xs) i out) in
        let t_out =
          λ (a : ℕ) (i : has a (x ∷ xs) ≡ true). ==_sym t a (ne_of_has a t (x ∷ xs) i q.apart.0) in
        (
          moved,
          move_runs,
          record {
            head = refl;
            tail = refl;
            count = refl;
            chain =
                Linked-relink h moved 0 0 t n (x ∷ xs) q.chain q.apart.1 (λ a i. refl)
                  (λ a i k. at_ne h₁.prev n e a (n_out a i) ∙ at_ne h.prev t 0 a (t_out a i))
                  (λ a i k. at_ne h.next e n a k)
                  (at_ne h₁.prev n e x (n_out x (has_here x xs))
                    ∙ at_ne h.prev t 0 x (t_out x (has_here x xs))
                    ∙ q.chain.1)
                  (at_self h.next e n);
            sentry = live;
            back = at_self h₁.prev n e;
            apart = (out, q.apart.1);
            real = (pos, q.real.1);
          },
          record {
            head = refl;
            tail = refl;
            count = refl;
            chain = tt;
            sentry = q.sentry;
            back = at_ne h₁.prev n e t (==_sym n t other) ∙ at_self h.prev t 0;
            apart = (refl, tt);
            real = (q.real.0, tt);
          },
          (refl, refl, refl),
        )

  move-Moved :
      (xs : List ℕ)
      → Represents h (standard t xs) xs
      → has n xs ≡ false
      → Moved n t xs h (move n (standard t xs) h)
  move-Moved [] q out = move_empty q
  move-Moved (x ∷ xs) q out = move_next x xs q out

-- Two sequences that share no header.
abbrev pub Apart : (s : ℕ) (xs : List ℕ) (t : ℕ) (ys : List ℕ) → Type 0
Apart s xs t ys = (a : ℕ) → has a (s ∷ xs) ≡ true → has a (t ∷ ys) ≡ false

concat-standard :
    (h : Headers) (s t : ℕ) (xs ys : List ℕ)
    → Represents h (standard s xs) xs
    → Represents h (standard t ys) ys
    → Apart s xs t ys
    → (g : Headers) × (concat (standard s xs) (standard t ys) h
        ≡ some (standard s (xs ++ ys), standard t [], g))
      × Represents g (standard s (xs ++ ys)) (xs ++ ys)
      × Represents g (standard t []) []
      × Untouched h g
unfolding concat assign
concat-standard h s t xs [] r q apart = rw (append-nil xs) (h, refl, r, q, (refl, refl, refl))
concat-standard h s t [] (y ∷ ys) r q apart =
    let out = ||_false (apart s (has_here s [])) in
    rw (suc_nonzero (length ys)) (move-Moved h s t r.sentry r.real.0 out.0 (y ∷ ys) q out.1)
concat-standard h s t (x ∷ xs) (y ∷ ys) r q apart =
    let zs = x ∷ xs ++ y ∷ ys in
    let whole = Join.joins h s t x y xs ys r q apart in
    let g = Join.g h s t x y xs ys r q apart in
    let e = Represents-standard g (Join.both h s t x y xs ys r q apart) zs whole in
    (
      g,
      Join.runs h s t x y xs ys r q apart ∙ ap (λ b. some (b, standard t [], g)) e,
      subst (λ b. Represents g b zs) e whole,
      Join.leaves h s t x y xs ys r q apart,
      (refl, refl, refl),
    )

-- Two sequences that share no header become one, which stands for the buffers of the first followed by
-- those of the second; the second is left empty, and no buffer's contents are touched.
pub concat-Represents :
    (h : Headers) (s rhs : Sequence) (xs ys : List ℕ)
    → Represents h s xs
    → Represents h rhs ys
    → Apart s.sentry xs rhs.sentry ys
    → (s' rhs' : Sequence) × (g : Headers) × (concat s rhs h ≡ some (s', rhs', g))
      × Represents g s' (xs ++ ys)
      × Represents g rhs' []
      × Untouched h g
concat-Represents h s rhs xs ys r q apart =
    let e = Represents-standard h s xs r in
    let f = Represents-standard h rhs ys q in
    let out =
      concat-standard h s.sentry rhs.sentry xs ys (subst (λ b. Represents h b xs) e r)
        (subst (λ b. Represents h b ys) f q) apart in
    (
      standard s.sentry (xs ++ ys),
      standard rhs.sentry [],
      out.0,
      ap (λ b. concat b rhs h) e ∙ ap (λ b. concat (standard s.sentry xs) b h) f ∙ out.1,
      out.2,
      out.3,
      out.4,
    )
