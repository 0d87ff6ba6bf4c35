-- ===== src/Executor/Tasks/Handles/Owners.antt =====
-- The counts of frames through the operations of `internal_task`.
use fiona.Base.{
  ℕ, zero, suc, ◌<◌, ◌≡◌, refl, sym, ap, ◌∙◌, false, none, some, List, get_elem?, set,
  get_elem?-set_ne, ◌==◌, arith, Bool-cases, inl, inr,
}
use fiona.Executor.Tasks.{internal_task}
use fiona.Executor.Tasks.Handles.{
  Objects, start, copy_construct, copy_assign, move_construct, move_assign, destroy, Operation,
  starts, copies, assigns, moves, exchanges, destroys, operate,
}
use fiona.Executor.Tasks.Handles.Shares.{
  holders, counted, holders-set, held_some, Shared, copy-Shared, drop-Shared, Shared-cong,
}

abbrev pub IsShared : Objects → Type 0
IsShared st = Shared st.frames (λ h. holders h st.objects)

-- An object and what it holds.
abbrev pub Holds : Objects → (i h : ℕ) → Type 0
Holds st i h = get_elem? st.objects i ≡ some h

-- What an operation asks for: a frame that does not live yet, objects to construct that hold nothing, and
-- copies of, and to, objects that hold a frame.
abbrev pub Allowed : Operation → Objects → Type 0
Allowed (starts i h) st = Holds st i 0 × (0 < h) × (st.frames h ≡ none)
Allowed (copies i rhs) st = Holds st i 0 × ((h : ℕ) × (0 < h) × Holds st rhs h)
Allowed (assigns i rhs) st =
    ((h : ℕ) × (0 < h) × Holds st i h) × ((q : ℕ) × (0 < q) × Holds st rhs q)
Allowed (moves i rhs) st = Holds st i 0 × ((i == rhs) ≡ false) × ((h : ℕ) × Holds st rhs h)
Allowed (exchanges i rhs) st = ((h : ℕ) × Holds st i h) × ((q : ℕ) × Holds st rhs q)
Allowed (destroys i) st = (h : ℕ) × Holds st i h

apart :
    (xs : List ℕ) (i j v w : ℕ)
    → (i == j) ≡ false
    → get_elem? xs j ≡ some w
    → get_elem? (set xs i v) j ≡ some w
apart xs i j v w n e = get_elem?-set_ne xs i j v (λ s. absurd (ground (arith, n, s))) ∙ e

no_holder : (n : ℕ) → counted n ≡ none → n ≡ 0
no_holder zero e = refl
no_holder (suc n) e = absurd (cc)

module _ (st : Objects) where
  started :
      (i h : ℕ) → IsShared st → Holds st i 0 → 0 < h → st.frames h ≡ none → IsShared (start i h st)
  unfolding start internal_task
  started i h s z p dead x q =
      let now = holders-set x st.objects i 0 h z in
      elim (Bool-cases (x == h)) [
        | inl e ↦
            (let same : x ≡ h = ground (arith, e) in
              let none_yet = no_holder (holders h st.objects) (sym (s h p) ∙ dead) in
              let one : holders x (set st.objects i h) ≡ 1 =
                ground (arith, now, e, q, ap (λ y. holders y st.objects) same, none_yet) in
              rw (e) (sym (ap counted one)))
        | inr n ↦
            (let others : holders x (set st.objects i h) ≡ holders x st.objects =
                ground (arith, now, n, q) in
              rw (n) (s x q ∙ sym (ap counted others)))
      ]

  destroyed :
      (i h : ℕ)
      → IsShared st
      → Holds st i h
      → (st' : Objects) × (destroy i st ≡ some st') × IsShared st'
  unfolding destroy
  destroyed i h s e = elim (Bool-cases (h == 0)) [
    | inl z ↦ (
      record st { objects = set st.objects i 0 },
      rw (e, z) refl,
      Shared-cong st.frames _ _ s (λ x p. ground (arith, holders-set x st.objects i h 0 e, z, p)),
    )
    | inr n ↦
        (let (f, r, t) =
            drop-Shared st.frames _ h s (ground (arith, n)) (held_some st.objects i h e) in
          (
            record { frames = f; objects = set st.objects i 0 },
            rw (e, n, r) refl,
            Shared-cong f _ _ t (λ x p. ground (arith, holders-set x st.objects i h 0 e, n, p)),
          ))
  ]

  copied :
      (i rhs h : ℕ)
      → IsShared st
      → Holds st i 0
      → 0 < h
      → Holds st rhs h
      → (st' : Objects) × (copy_construct i rhs st ≡ some st') × IsShared st'
  unfolding copy_construct
  copied i rhs h s z p e =
      let (f, r, t) = copy-Shared st.frames _ h s p (held_some st.objects rhs h e) in
      (
        record { frames = f; objects = set st.objects i h },
        rw (e, r) refl,
        Shared-cong f _ _ t (λ x q. ground (arith, holders-set x st.objects i 0 h z, q)),
      )

  -- The frame that `i` gives up is not the one that it copies, or `rhs` keeps it.
  assigned :
      (i rhs h q : ℕ)
      → IsShared st
      → (i == rhs) ≡ false
      → 0 < h
      → Holds st i h
      → 0 < q
      → Holds st rhs q
      → (st' : Objects) × (copy_assign i rhs st ≡ some st') × IsShared st'
  unfolding copy_assign
  assigned i rhs h q s n p e l g =
      let (f, r, t) = drop-Shared st.frames _ h s p (held_some st.objects i h e) in
      let kept = held_some (set st.objects i 0) rhs q (apart st.objects i rhs 0 q n g) in
      let left = holders-set q st.objects i h 0 e in
      let (f', r', t') = copy-Shared f _ q t l (ground (arith, kept, left, l)) in
      (
        record { frames = f'; objects = set st.objects i q },
        rw (n, e, r, g, r') refl,
        Shared-cong f' _ _ t' (λ x m.
            ground (arith, holders-set x st.objects i h q e, held_some st.objects i h e, m)),
      )

  -- Two writes that leave the numbers of holders as they were.
  rewritten :
      (i rhs h q : ℕ)
      → (i == rhs) ≡ false
      → Holds st i h
      → Holds st rhs q
      → (x : ℕ) → holders x (set (set st.objects i q) rhs h) ≡ holders x st.objects
  rewritten i rhs h q n e g x = omega (
    arith,
    holders-set x st.objects i h q e,
    holders-set x (set st.objects i q) rhs q h (apart st.objects i rhs q q n g),
  )

-- An allowed operation uses no dead frame and destroys none twice, and after it each frame lives exactly
-- while an object holds it, with the number of its holders for its count.
pub internal_operate-IsShared :
    (op : Operation) (st : Objects)
    → IsShared st
    → Allowed op st
    → (st' : Objects) × (operate op st ≡ some st') × IsShared st'
unfolding operate move_construct move_assign copy_assign
internal_operate-IsShared (starts i h) st s (z, p, dead) =
    (start i h st, refl, started st i h s z p dead)
internal_operate-IsShared (copies i rhs) st s (z, (h, p, e)) = copied st i rhs h s z p e
internal_operate-IsShared (assigns i rhs) st s ((h, p, e), (q, l, g)) =
    elim (Bool-cases (i == rhs)) [
      | inl n ↦ (st, rw (n) refl, s)
      | inr n ↦ assigned st i rhs h q s n p e l g
    ]
internal_operate-IsShared (moves i rhs) st s (z, n, (h, e)) = (
  record st { objects = set (set st.objects i h) rhs 0 },
  rw (e) refl,
  Shared-cong st.frames _ _ s (λ x p. rewritten st i rhs 0 h n z e x),
)
internal_operate-IsShared (exchanges i rhs) st s ((h, e), (q, g)) = elim (Bool-cases (i == rhs)) [
  | inl n ↦ (st, rw (n) refl, s)
  | inr n ↦ (
    record st { objects = set (set st.objects i q) rhs h },
    rw (n, e, g) refl,
    Shared-cong st.frames _ _ s (λ x p. rewritten st i rhs h q n e g x),
  )
]
internal_operate-IsShared (destroys i) st s (h, e) = destroyed st i h s e
