-- ===== src/Executor/Tasks/Handles/Tests.antt =====
-- Two objects hold the frame at 64, one that at 96, and one none.
use fiona.Base.{
  ◌>>=◌, ◌≡◌, refl, sym, ap, ◌==◌, none, some, [], ◌∷◌, if◌then◌else◌, arith, Bool-cases, inl, inr,
}
use fiona.Executor.Tasks.Handles.{Objects, copies, assigns, operate}
use fiona.Executor.Tasks.Handles.Shares.{holders, counted}
use fiona.Executor.Tasks.Handles.Owners.{IsShared, internal_operate-IsShared}

abbrev four : Objects
four = record {
  frames = λ x. if x == 64 then some 2 else if x == 96 then some 1 else none;
  objects = 64 ∷ 64 ∷ 0 ∷ 96 ∷ [];
}

four-IsShared : IsShared four
four-IsShared x p = elim (Bool-cases (x == 64)) [
  | inl e ↦ (let n : holders x four.objects ≡ 2 = ground (arith, e) in rw (e) (sym (ap counted n)))
  | inr e ↦ elim (Bool-cases (x == 96)) [
    | inl f ↦
        (let n : holders x four.objects ≡ 1 = ground (arith, f) in rw (e, f) (sym (ap counted n)))
    | inr f ↦
        (let n : holders x four.objects ≡ 0 = ground (arith, e, f, p) in
          rw (e, f) (sym (ap counted n)))
  ]
]

-- An assignment over the only holder of 96 destroys that frame.
last_holder : (operate (assigns 3 0) four >>= λ st. st.frames 96) ≡ none
unfolding operate
last_holder = refl

shared : (operate (assigns 3 0) four >>= λ st. st.frames 64) ≡ some 3
unfolding operate
shared = refl

-- The null handle is used by a copy of it, and by an assignment to it.
null_copy : operate (copies 2 2) four ≡ none
unfolding operate
null_copy = refl

null_assigned : operate (assigns 2 0) four ≡ none
unfolding operate
null_assigned = refl

internal_operate-IsShared_example :
    (st' : Objects) × (operate (assigns 3 0) four ≡ some st') × IsShared st'
internal_operate-IsShared_example =
    internal_operate-IsShared (assigns 3 0) four four-IsShared
      ((96, omega arith, refl), (64, omega arith, refl))
