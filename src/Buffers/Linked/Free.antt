-- ===== src/Buffers/Linked/Free.antt =====
-- The loop of `free_list` ends, at the sentry, after one round for each buffer.
use mathlib.Core.Path.{subst}
use fiona.Buffers.Linked.Join.{standard, Represents-standard, positive}
use fiona.Base.{
  ==_self, ℕ, zero, suc, ◌<◌, ◌≡◌, refl, ap, ◌∙◌, ||_false, true, false, some, List, [], ◌∷◌,
  length, has, Distinct, arith, if◌then◌else◌,
}
use fiona.Buffers.Linked.{
  Headers, Sequence, with_next, with_prev, without_header, set_prev, free_loop, free_list,
}
use fiona.Buffers.Linked.Chain.{Linked, Represents, Same, first}
use fiona.Buffers.Linked.Relink.{
  Linked-frame, ne_of_has, ==_sym, at_self, at_ne, has_here, has_there,
}

-- The heap without the headers at `xs`.
abbrev pub freed : List ℕ → Headers → Headers
freed [] h = h
freed (x ∷ xs) h = freed xs (without_header x h)

-- The other headers stay as they are.
freed_ne : (h : Headers) (xs : List ℕ) (a : ℕ) → has a xs ≡ false → (freed xs h).live a ≡ h.live a
freed_ne h [] a out = refl
freed_ne h (x ∷ xs) a out =
    let o = ||_false out in freed_ne (without_header x h) xs a o.1 ∙ at_ne h.live x false a o.0

freed_contents :
    (h : Headers) (xs : List ℕ)
    → ((freed xs h).prev ≡ h.prev)
      × ((freed xs h).next ≡ h.next)
      × ((freed xs h).size ≡ h.size)
      × ((freed xs h).capacity ≡ h.capacity)
freed_contents h [] = (refl, refl, refl, refl)
freed_contents h (x ∷ xs) = freed_contents (without_header x h) xs

pub freed_live :
    (h : Headers) (xs : List ℕ) (a : ℕ)
    → (freed xs h).live a ≡ (if has a xs then false else h.live a)
freed_live h [] a = refl
freed_live h (x ∷ xs) a = ground (arith, freed_live (without_header x h) xs a)

free_loop_lem :
    (h : Headers) (b t : ℕ) (xs : List ℕ) (fuel : ℕ)
    → Linked h b xs t
    → Distinct xs
    → has t xs ≡ false
    → length xs < fuel
    → free_loop fuel t (first xs t) h ≡ some (freed xs h)
unfolding free_loop
free_loop_lem h b t xs zero l d out enough = absurd (omega arith)
free_loop_lem h b t [] (suc k) l d out enough = rw (==_self t, free_loop) refl
free_loop_lem h b t (x ∷ xs) (suc k) l d out enough =
    let o = ||_false out in
    let apart = λ (a : ℕ) (i : has a xs ≡ true). ==_sym x a (ne_of_has a x xs i d.0) in
    let rest =
      Linked-frame h (without_header x h) x t xs l.3
        (λ a i. (at_ne h.live x false a (apart a i), refl, refl)) in
    rw (==_sym t x o.0, l.0, l.2, free_loop)
      (free_loop_lem (without_header x h) x t xs k rest d.1 o.1 (omega arith))

pub Represents-frame :
    (h g : Headers) (s : Sequence) (xs : List ℕ)
    → Represents h s xs
    → ((a : ℕ) → has a (s.sentry ∷ xs) ≡ true → Same h g a)
    → Represents g s xs
Represents-frame h g s xs r same =
    let sentry = same s.sentry (has_here s.sentry xs) in
    record {
      head = r.head;
      tail = r.tail;
      count = r.count;
      chain = Linked-frame h g 0 s.sentry xs r.chain (λ a i. same a (has_there a s.sentry xs i));
      sentry = sentry.0 ∙ r.sentry;
      back = sentry.1 ∙ r.back;
      apart = r.apart;
      real = r.real;
    }

-- The buffers of a sequence, and nothing else, are freed.
abbrev pub Freed : (xs : List ℕ) (h g : Headers) → Type 0
Freed xs h g = (a : ℕ) → g.live a ≡ (if has a xs then false else h.live a)

abbrev pub cleared : (t : ℕ) → List ℕ → Headers → Headers
cleared t [] h = h
cleared t (x ∷ xs) h = with_prev t 0 (with_next t 0 (freed (x ∷ xs) h))

free_standard :
    (h : Headers) (t : ℕ) (xs : List ℕ) (fuel : ℕ)
    → Represents h (standard t xs) xs
    → length xs < fuel
    → (free_list fuel (standard t xs) h ≡ some (standard t [], cleared t xs h))
      × Represents (cleared t xs h) (standard t []) []
      × Freed xs h (cleared t xs h)
unfolding free_list
free_standard h t [] fuel r enough = (refl, r, λ a. refl)
free_standard h t (x ∷ xs) fuel r enough =
    let f = freed (x ∷ xs) h in
    let live = freed_ne h (x ∷ xs) t r.apart.0 ∙ r.sentry in
    (
      rw
          (
            positive x r.real.1.0,
            free_loop_lem h 0 t (x ∷ xs) fuel r.chain r.apart.1 r.apart.0 enough,
            live,
          )
          (rw (live, set_prev) refl),
      record {
        head = refl;
        tail = refl;
        count = refl;
        chain = tt;
        sentry = live;
        back = at_self f.prev t 0;
        apart = (refl, tt);
        real = (r.real.0, tt);
      },
      freed_live h (x ∷ xs),
    )

-- With one round of fuel more than there are buffers, `free_list` ends: the buffers of the sequence
-- are freed, each of them once, and nothing else is; the sequence is left empty.
pub free_list-Represents :
    (h : Headers) (s : Sequence) (xs : List ℕ) (fuel : ℕ)
    → Represents h s xs
    → length xs < fuel
    → (s' : Sequence) × (g : Headers) × (free_list fuel s h ≡ some (s', g))
      × Represents g s' []
      × Freed xs h g
free_list-Represents h s xs fuel r enough =
    let e = Represents-standard h s xs r in
    let out = free_standard h s.sentry xs fuel (subst (λ b. Represents h b xs) e r) enough in
    (
      standard s.sentry [],
      cleared s.sentry xs h,
      ap (λ b. free_list fuel b h) e ∙ out.0,
      out.1,
      out.2,
    )
