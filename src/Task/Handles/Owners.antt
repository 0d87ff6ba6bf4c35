-- ===== src/Task/Handles/Owners.antt =====
-- Each frame of a coroutine has one task, through every operation of `task`.
use mathlib.Core.Path.{subst}
use fiona.Base.{
  ℕ, ◌<◌, ◌≡◌, refl, sym, ap, ◌∙◌, ◌==◌, Bool, true, false, Option, none, some, if◌then◌else◌,
  Bool-cases, inl, inr, arith,
}
use fiona.Buffers.Linked.{at}
use fiona.Buffers.Owned.Owners.{
  held, Owned, held_at, taken, swap, moved, released, defaulted, transfer, apart,
}
use fiona.Task.Handles.{
  Handles, start, move_construct, move_assign, destroy_frame, destroy, into_address, from_address,
  Operation, starts, moves, assigns, destroys, posts, operate,
}

abbrev pub IsOwned : Handles → Type 0
IsOwned st = Owned st.live (λ i. held (st.tasks i))

-- What an operation asks for: a frame that does not live yet, a task to make that does not live, others that
-- do, and a frame to post.
abbrev pub Allowed : Operation → Handles → Type 0
Allowed (starts i p) st = (st.tasks i ≡ none) × (0 < p) × (st.live p ≡ false)
Allowed (moves i rhs) st = (st.tasks i ≡ none) × ((q : ℕ) × (st.tasks rhs ≡ some q))
Allowed (assigns i rhs) st = ((p : ℕ) × (st.tasks i ≡ some p)) × ((q : ℕ) × (st.tasks rhs ≡ some q))
Allowed (destroys i) st = (p : ℕ) × (st.tasks i ≡ some p)
Allowed (posts i rhs) st = (st.tasks i ≡ none) × ((q : ℕ) × (0 < q) × (st.tasks rhs ≡ some q))

-- What two tasks hold after their exchange.
exchanged :
    (f : ℕ → Option ℕ) (i rhs p q a : ℕ)
    → f i ≡ some p
    → f rhs ≡ some q
    → (i == rhs) ≡ false
    → held (at (at f i (some q)) rhs (some p) a) ≡ held (f (swap i rhs a))
exchanged f i rhs p q a e g n = go (a == rhs) refl (a == i) refl
  where
    go :
        (b : Bool)
        → (a == rhs) ≡ b
        → (c : Bool) → (a == i) ≡ c
        → held (at (at f i (some q)) rhs (some p) a) ≡ held (f (swap i rhs a))
    go true r true s = absurd (ground (arith, r, s, n))
    go true r false s = rw (r, s, e) refl
    go false r true s = rw (r, s, g) refl
    go false r false s = rw (r, s) refl

-- The order of the two writes does not show.
posted :
    (f : ℕ → Option ℕ) (i rhs q a : ℕ)
    → (i == rhs) ≡ false
    → held (at (at f rhs (some 0)) i (some q) a) ≡ held (at (at f i (some q)) rhs (some 0) a)
posted f i rhs q a n = go (a == rhs) refl (a == i) refl
  where
    go :
        (b : Bool)
        → (a == rhs) ≡ b
        → (c : Bool) → (a == i) ≡ c
        → held (at (at f rhs (some 0)) i (some q) a) ≡ held (at (at f i (some q)) rhs (some 0) a)
    go true r true s = absurd (ground (arith, r, s, n))
    go true r false s = rw (r, s) refl
    go false r true s = rw (r, s) refl
    go false r false s = rw (r, s) refl

-- The frame of a task that is destroyed.
destroyed :
    (live : ℕ → Bool) (f g : ℕ → ℕ) (i p : ℕ)
    → Owned live f
    → f i ≡ p
    → ((a : ℕ) → g a ≡ at f i 0 a)
    → (live' : ℕ → Bool) × (destroy_frame p live ≡ some live') × Owned live' g
unfolding destroy_frame
destroyed live f g i p o s e = go (p == 0) refl
  where
    go :
        (b : Bool)
        → (p == 0) ≡ b
        → (live' : ℕ → Bool) × ((if b
              then some live
              else if live p
              then some (at live p false)
              else none)
            ≡ some live')
          × Owned live' g
    go true d = (live, refl, defaulted live f g i o (ground (arith, d, s)) e)
    go false d =
        let pos : 0 < f i = ground (arith, d, s) in
        (
          at live p false,
          rw (subst (λ x. live x ≡ true) s (o.lives i pos)) refl,
          subst (λ x. Owned (at live x false) g) s (released live f g i o pos e),
        )

swap_self : (i a : ℕ) → swap i i a ≡ a
swap_self i a = ground arith

destroy_lem :
    (i p : ℕ) (st : Handles) (live' : ℕ → Bool)
    → st.tasks i ≡ some p
    → destroy_frame p st.live ≡ some live'
    → destroy i st ≡ some (record { live = live'; tasks = at st.tasks i none })
unfolding destroy
destroy_lem i p st live' e r = rw (e, r) refl

-- An allowed operation neither touches a frame that does not live nor destroys any twice, and after it each
-- frame again has exactly one task: none is lost, and none is shared. The address of a task that is
-- posted stands for it until another task is made of the address.
pub task_operate-IsOwned :
    (op : Operation) (st : Handles)
    → IsOwned st
    → Allowed op st
    → (st' : Handles) × (operate op st ≡ some st') × IsOwned st'
unfolding operate start move_construct move_assign into_address from_address
task_operate-IsOwned (starts i p) st o (empty, pos, dead) = (
  record { live = at st.live p true; tasks = at st.tasks i (some p) },
  refl,
  taken st.live (λ a. held (st.tasks a)) _ i p o (ap held empty) pos dead
      (held_at st.tasks i (some p)),
)
task_operate-IsOwned (moves i rhs) st o (empty, (q, e)) = (
  record st { tasks = at (at st.tasks i (some q)) rhs (some 0) },
  rw (e) refl,
  transfer st.live st.tasks i rhs q
      (defaulted st.live (λ a. held (st.tasks a)) _ i o (ap held empty) (λ a. refl)) e
      (apart st.tasks i rhs q empty e),
)
task_operate-IsOwned (assigns i rhs) st o ((p, e), (q, f)) = elim (Bool-cases (i == rhs)) [
  | inl s ↦ (st, rw (s) refl, o)
  | inr n ↦ (
    record st { tasks = at (at st.tasks i (some q)) rhs (some p) },
    rw (n, e, f) refl,
    moved st.live (λ a. held (st.tasks a)) _ i rhs o (λ a. exchanged st.tasks i rhs p q a e f n),
  )
]
task_operate-IsOwned (destroys i) st o (p, e) =
    let (live', r, g) =
      destroyed st.live (λ a. held (st.tasks a)) _ i p o (ap held e) (held_at st.tasks i none) in
    (record { live = live'; tasks = at st.tasks i none }, destroy_lem i p st live' e r, g)
task_operate-IsOwned (posts i rhs) st o (empty, (q, pos, e)) =
    let n = apart st.tasks i rhs q empty e in
    let z : (q == 0) ≡ false = ground (arith, pos) in
    let t =
      transfer st.live st.tasks i rhs q
        (defaulted st.live (λ a. held (st.tasks a)) _ i o (ap held empty) (λ a. refl)) e n in
    (
      record st { tasks = at (at st.tasks rhs (some 0)) i (some q) },
      rw (e, z) refl,
      moved st.live (λ a. held (at (at st.tasks i (some q)) rhs (some 0) a)) _ i i t
          (λ a.
            posted st.tasks i rhs q a n
            ∙ ap (λ x. held (at (at st.tasks i (some q)) rhs (some 0) x)) (sym (swap_self i a))),
    )
