-- ===== src/Buffers/Owned/Owners.antt =====
-- Each allocation has one owner, through every operation of `recv_buffer`.
use mathlib.Core.Path.{subst}
use fiona.Base.{
  ℕ, ◌<◌, ◌≡◌, refl, sym, ap, ◌∙◌, ◌==◌, ==_self, Bool, true, false, Option, none, some,
  if◌then◌else◌, arith, Bool-cases, inl, inr,
}
use fiona.Buffers.Linked.{Headers, at, without_header, aligned_delete}
use fiona.Buffers.Linked.Relink.{==_sym}
use fiona.Buffers.Owned.{
  Objects, is_defaulted, alloc, construct, move_construct, release, move_assign, destroy, Operation,
  constructs, moves, assigns, destroys, operate,
}

-- The address of an allocation, or 0.
abbrev pub held : Option ℕ → ℕ
held none = 0
held (some p) = p

-- What is held lives and is held once, and what lives is held.
pub record Owned (live : ℕ → Bool) (holds : ℕ → ℕ) : Type 0 where
  pub lives : (i : ℕ) → 0 < holds i → live (holds i) ≡ true
  pub once : (i j : ℕ) → 0 < holds i → holds i ≡ holds j → i ≡ j
  pub kept : (p : ℕ) → live p ≡ true → (i : ℕ) × (holds i ≡ p)
  pub default : live 0 ≡ false

abbrev pub IsOwned : Objects → Type 0
IsOwned st = Owned st.headers.live (λ i. held (st.objects i))

-- A new allocation for an object that held none.
pub taken :
    (live : ℕ → Bool) (f g : ℕ → ℕ) (i p : ℕ)
    → Owned live f
    → f i ≡ 0
    → 0 < p
    → live p ≡ false
    → ((a : ℕ) → g a ≡ at f i p a)
    → Owned (at live p true) g
taken live f g i p o z pos dead e = record {
  lives = λ a l. ground (arith, e a, o.lives a);
  once = λ a b l q. ground (arith, e a, e b, o.once a b, o.lives a, o.lives b);
  kept = λ q l. elim (Bool-cases (q == p)) [
    | inl h ↦ (i, ground (arith, e i, h))
    | inr n ↦
        (let alive : live q ≡ true = ground (arith, l, n) in
          let (k, h) = o.kept q alive in (k, ground (arith, e k, h, o.lives k, o.default, alive)))
  ];
  default = ground (arith, o.default);
}

abbrev pub swap : ℕ → ℕ → ℕ → ℕ
swap i j a = if a == i then j else (if a == j then i else a)

swap-swap : (i j a : ℕ) → swap i j (swap i j a) ≡ a
swap-swap i j a = ground arith

-- An allocation changes its owner.
pub moved :
    (live : ℕ → Bool) (f g : ℕ → ℕ) (i j : ℕ)
    → Owned live f
    → ((a : ℕ) → g a ≡ f (swap i j a))
    → Owned live g
moved live f g i j o e = record {
  lives =
      λ a l. subst (λ n. live n ≡ true) (sym (e a)) (o.lives (swap i j a) (omega (arith, e a, l)));
  once = λ a b l q.
      sym (swap-swap i j a)
      ∙ ap (swap i j)
          (o.once (swap i j a) (swap i j b) (omega (arith, e a, l)) (sym (e a) ∙ q ∙ e b))
      ∙ swap-swap i j b;
  kept =
      λ p l. let (k, h) = o.kept p l in (swap i j k, e (swap i j k) ∙ ap f (swap-swap i j k) ∙ h);
  default = o.default;
}

-- An allocation is given back.
pub released :
    (live : ℕ → Bool) (f g : ℕ → ℕ) (i : ℕ)
    → Owned live f
    → 0 < f i
    → ((a : ℕ) → g a ≡ at f i 0 a)
    → Owned (at live (f i) false) g
released live f g i o pos e = record {
  lives = λ a l. ground (arith, e a, o.lives a, o.once a i);
  once = λ a b l q. ground (arith, e a, e b, o.once a b);
  kept = λ q l.
      let alive : live q ≡ true = ground (arith, l) in
      let (k, h) = o.kept q alive in (k, ground (arith, e k, h, l));
  default = ground (arith, o.default);
}

-- What an operation asks for: memory that the allocator has not handed out yet, an object to construct that
-- does not live, and others that do.
abbrev pub Allowed : Operation → Objects → Type 0
Allowed (constructs i p capacity) st = (st.objects i ≡ none) × (0 < p) × (st.headers.live p ≡ false)
Allowed (moves i rhs) st = (st.objects i ≡ none) × ((q : ℕ) × (st.objects rhs ≡ some q))
Allowed (assigns i rhs) st =
    ((p : ℕ) × (st.objects i ≡ some p)) × ((q : ℕ) × (st.objects rhs ≡ some q))
Allowed (destroys i) st = (p : ℕ) × (st.objects i ≡ some p)

pub held_at :
    (f : ℕ → Option ℕ) (i : ℕ) (v : Option ℕ) (a : ℕ)
    → held (at f i v a) ≡ at (λ b. held (f b)) i (held v) a
held_at f i v a = elim (Bool-cases (a == i)) [ inl e ↦ rw (e) refl | inr e ↦ rw (e) refl ]

-- An object that holds no allocation gives none up.
pub defaulted :
    (live : ℕ → Bool) (f g : ℕ → ℕ) (i : ℕ)
    → Owned live f
    → f i ≡ 0
    → ((a : ℕ) → g a ≡ at f i 0 a)
    → Owned live g
defaulted live f g i o z e =
    moved live f g i i o
      (λ a. elim (Bool-cases (a == i)) [ inl h ↦ e a ∙ rw (h) (sym z) | inr n ↦ e a ∙ rw (n) refl ])

-- What `rhs` holds goes to an object that holds no allocation.
pub transfer :
    (live : ℕ → Bool) (f : ℕ → Option ℕ) (i rhs q : ℕ)
    → Owned live (at (λ a. held (f a)) i 0)
    → f rhs ≡ some q
    → (i == rhs) ≡ false
    → Owned live (λ a. held (at (at f i (some q)) rhs (some 0) a))
transfer live f i rhs q o e n =
    moved live (at (λ a. held (f a)) i 0) _ i rhs o (λ a. go a (a == rhs) refl (a == i) refl)
  where
    go :
        (a : ℕ) (b : Bool)
        → (a == rhs) ≡ b
        → (c : Bool) → (a == i) ≡ c
        → held (at (at f i (some q)) rhs (some 0) a) ≡ at (λ x. held (f x)) i 0 (swap i rhs a)
    go a true r true s = absurd (ground (arith, r, s, n))
    go a true r false s = rw (r, s, ==_self i) refl
    go a false r true s = rw (r, s, ==_sym i rhs n, e) refl
    go a false r false s = rw (r, s, s) refl

pub apart : (f : ℕ → Option ℕ) (i rhs q : ℕ) → f i ≡ none → f rhs ≡ some q → (i == rhs) ≡ false
apart f i rhs q e g = elim (Bool-cases (i == rhs)) [
  | inl h ↦ absurd (let same : i ≡ rhs = ground (arith, h) in cc)
  | inr h ↦ h
]

-- The header of an object that is destroyed, or assigned to.
release-Owned :
    (h : Headers) (f g : ℕ → ℕ) (i p : ℕ)
    → Owned h.live f
    → f i ≡ p
    → ((a : ℕ) → g a ≡ at f i 0 a)
    → (h' : Headers) × (release p h ≡ some h') × Owned h'.live g
unfolding release aligned_delete
release-Owned h f g i p o s e = go (is_defaulted p) refl
  where
    go :
        (b : Bool)
        → is_defaulted p ≡ b
        → (h' : Headers) × ((if b
              then some h
              else if h.live p
              then some (without_header p h)
              else none)
            ≡ some h')
          × Owned h'.live g
    go true d = (h, refl, defaulted h.live f g i o (ground (arith, d, s)) e)
    go false d =
        let pos : 0 < f i = ground (arith, d, s) in
        let l = o.lives i pos in
        (
          without_header p h,
          rw (subst (λ x. h.live x ≡ true) s l) refl,
          subst (λ x. Owned (at h.live x false) g) s (released h.live f g i o pos e),
        )

assigned :
    (i rhs p q : ℕ) (st : Objects) (h : Headers)
    → (i == rhs) ≡ false
    → st.objects i ≡ some p
    → st.objects rhs ≡ some q
    → release p st.headers ≡ some h
    → move_assign i rhs st
      ≡ some (record { headers = h; objects = at (at st.objects i (some q)) rhs (some 0) })
unfolding move_assign
assigned i rhs p q st h n e f r = rw (n, e, f, r) refl

destroyed :
    (i p : ℕ) (st : Objects) (h : Headers)
    → st.objects i ≡ some p
    → release p st.headers ≡ some h
    → destroy i st ≡ some (record { headers = h; objects = at st.objects i none })
unfolding destroy
destroyed i p st h e r = rw (e, r) refl

-- An allowed operation neither touches memory that is not allocated nor frees any twice, and after it each
-- allocation again has exactly one owner: none is lost, and none is shared.
pub operate-IsOwned :
    (op : Operation) (st : Objects)
    → IsOwned st
    → Allowed op st
    → (st' : Objects) × (operate op st ≡ some st') × IsOwned st'
unfolding operate construct alloc move_construct move_assign
operate-IsOwned (constructs i p capacity) st o (empty, pos, dead) = (
  record { headers = alloc p capacity st.headers; objects = at st.objects i (some p) },
  refl,
  taken st.headers.live (λ a. held (st.objects a)) _ i p o (ap held empty) pos dead
      (held_at st.objects i (some p)),
)
operate-IsOwned (moves i rhs) st o (empty, (q, e)) = (
  record st { objects = at (at st.objects i (some q)) rhs (some 0) },
  rw (e) refl,
  transfer st.headers.live st.objects i rhs q
      (defaulted st.headers.live (λ a. held (st.objects a)) _ i o (ap held empty) (λ a. refl)) e
      (apart st.objects i rhs q empty e),
)
operate-IsOwned (assigns i rhs) st o ((p, e), (q, f)) = elim (Bool-cases (i == rhs)) [
  | inl s ↦ (st, rw (s) refl, o)
  | inr n ↦
      (let (h, r, g) =
          release-Owned st.headers (λ a. held (st.objects a)) _ i p o (ap held e) (λ a. refl) in
        (
          record { headers = h; objects = at (at st.objects i (some q)) rhs (some 0) },
          assigned i rhs p q st h n e f r,
          transfer h.live st.objects i rhs q g f n,
        ))
]
operate-IsOwned (destroys i) st o (p, e) =
    let (h, f, g) =
      release-Owned st.headers (λ a. held (st.objects a)) _ i p o (ap held e)
        (held_at st.objects i none) in
    (record { headers = h; objects = at st.objects i none }, destroyed i p st h e f, g)
