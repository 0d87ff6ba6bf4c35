-- ===== src/Buffers/Linked/Walk.antt =====
-- An iteration over a sequence.
use fiona.Base.{
  ==_self, ||_false, ℕ, zero, suc, ◌<◌, ◌≡◌, refl, ap, ◌∙◌, false, some, List, [], ◌∷◌, length, has,
  arith,
}
use fiona.Buffers.Linked.{Headers, Sequence, forwards, begin}
use fiona.Buffers.Linked.Chain.{Linked, Represents, first}
use fiona.Buffers.Linked.Relink.{==_sym}
use fiona.Buffers.Linked.Join.{suc_nonzero, standard, Represents-standard}

pub walk :
    (h : Headers) (b t : ℕ) (xs : List ℕ) (fuel : ℕ)
    → Linked h b xs t
    → has t xs ≡ false
    → length xs < fuel
    → forwards fuel t (first xs t) h ≡ some xs
unfolding forwards
walk h b t xs zero l out enough = absurd (omega arith)
walk h b t [] (suc k) l out enough = rw (==_self t, forwards) refl
walk h b t (x ∷ xs) (suc k) l out enough =
    let o = ||_false out in
    rw (==_sym t x o.0, l.0, l.2, forwards) (rw (walk h x t xs k l.3 o.1 (omega arith)) refl)

pub begin-standard : (t : ℕ) (xs : List ℕ) → begin (standard t xs) ≡ first xs t
unfolding begin
begin-standard t [] = refl
begin-standard t (x ∷ xs) = rw (suc_nonzero (length xs)) refl

pub begin_lem :
    (h : Headers) (s : Sequence) (xs : List ℕ) → Represents h s xs → begin s ≡ first xs s.sentry
begin_lem h s xs r = ap begin (Represents-standard h s xs r) ∙ begin-standard s.sentry xs

-- A loop from `begin` to `end` visits the buffers of the sequence in their order and ends, with one
-- round of fuel more than there are buffers.
pub forwards-Represents :
    (h : Headers) (s : Sequence) (xs : List ℕ) (fuel : ℕ)
    → Represents h s xs
    → length xs < fuel
    → forwards fuel s.sentry (begin s) h ≡ some xs
forwards-Represents h s xs fuel r enough =
    ap (λ p. forwards fuel s.sentry p h) (begin_lem h s xs r)
    ∙ walk h 0 s.sentry xs fuel r.chain r.apart.0 enough
