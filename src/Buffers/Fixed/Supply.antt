-- ===== src/Buffers/Fixed/Supply.antt =====
-- The supply of registered buffers: what taking and giving up does to the stack of free indices.
use mathlib.Core.Option.{some-injective, none-ne-some}
use mathlib.Core.Path.{subst}
use fiona.Base.{
  ℕ, zero, suc, ◌+◌, ◌-◌, ◌≤◌, ◌<◌, ◌≡◌, refl, ap, ◌∙◌, inl, inr, false, none, some, List, [], ◌∷◌,
  map, arith, get_elem?, set, replicate, has, Distinct, All, Option-cases,
}
use fiona.Buffers.Fixed.{
  FixedBuffer, FixedBuffers, iota, fixed_buffers, fixed_buffer, get_at, get_avail_buf, destroy,
  Holding, Use, takes, drops, use_once, use_all, remove,
}

get_elem?-iota : (i n k : ℕ) → k < n → get_elem? (iota i n) k ≡ some (i + k)
unfolding iota
get_elem?-iota i zero k h = elim h [ ]
get_elem?-iota i (suc n) zero h = ap some (omega arith)
get_elem?-iota i (suc n) (suc k) h =
    get_elem?-iota (suc i) n k (omega arith) ∙ ap some (omega arith)

set-iota : (i n k v : ℕ) → v ≡ i + k → set (iota i n) k v ≡ iota i n
unfolding iota
set-iota i zero k v h = refl
set-iota i (suc n) zero v h = ap (λ a. a ∷ iota (suc i) n) (omega arith)
set-iota i (suc n) (suc k) v h = ap (◌∷◌ i) (set-iota (suc i) n k v (omega arith))

get_elem?-replicate {ℓ} :
    {A : Type ℓ} (n k : ℕ) (a : A) → k < n → get_elem? (replicate n a) k ≡ some a
get_elem?-replicate zero k a h = elim h [ ]
get_elem?-replicate (suc n) zero a h = refl
get_elem?-replicate (suc n) (suc k) a h = get_elem?-replicate n k a (omega arith)

-- A buffer that came from the pool: its copy of the pointer still points at its own index.
pub record Lent (n avail : ℕ) (b : FixedBuffer) : Type 0 where
  pub own : b.avail_buf_ids ≡ b.buf_index
  pub above : avail ≤ b.buf_index
  pub within : b.buf_index < n

abbrev pub indices : List FixedBuffer → List ℕ
indices = map (λ b. b.buf_index)

pub record Inv (n size : ℕ) (w : Holding) : Type 0 where
  pub ids : w.pool.buf_ids ≡ iota 0 n
  pub sizes : w.pool.bufs ≡ replicate n size
  pub room : w.pool.avail_buf_ids ≤ n
  pub lent : All (Lent n w.pool.avail_buf_ids) w.held
  pub apart : Distinct (indices w.held)

-- Buffers above the pointer stay so when it moves down.
Lent-down : (n a : ℕ) (bs : List FixedBuffer) → All (Lent n (suc a)) bs → All (Lent n a) bs
Lent-down n a [] l = tt
Lent-down n a (b ∷ bs) l = (
  record { own = l.0.own; above = omega (arith, l.0.above); within = l.0.within },
  Lent-down n a bs l.1,
)

has-above : (n a : ℕ) (bs : List FixedBuffer) → All (Lent n (suc a)) bs → has a (indices bs) ≡ false
has-above n a [] l = refl
has-above n a (b ∷ bs) l = ground (arith, has-above n a bs l.1, l.0.above)

All-remove {ℓ κ} :
    {A : Type ℓ} (P : A → Type κ) (xs : List A) (i : ℕ) → All P xs → All P (remove xs i)
All-remove P [] i h = h
All-remove P (x ∷ xs) zero h = h.1
All-remove P (x ∷ xs) (suc i) h = (h.0, All-remove P xs i h.1)

has-remove :
    (a : ℕ) (bs : List FixedBuffer) (i : ℕ)
    → has a (indices bs) ≡ false
    → has a (indices (remove bs i)) ≡ false
has-remove a [] i h = h
has-remove a (b ∷ bs) zero h = ground arith
has-remove a (b ∷ bs) (suc i) h = ground (arith, has-remove a bs i)

Distinct-remove :
    (bs : List FixedBuffer) (i : ℕ) → Distinct (indices bs) → Distinct (indices (remove bs i))
Distinct-remove [] i h = h
Distinct-remove (b ∷ bs) zero h = h.1
Distinct-remove (b ∷ bs) (suc i) h = (has-remove b.buf_index bs i h.0, Distinct-remove bs i h.1)

All-get {ℓ κ} :
    {A : Type ℓ} (P : A → Type κ) (xs : List A) (i : ℕ) (a : A)
    → get_elem? xs i ≡ some a
    → All P xs
    → P a
All-get P [] i a e h = absurd (none-ne-some a e)
All-get P (x ∷ xs) zero a e h = subst P (some-injective x a e) h.0
All-get P (x ∷ xs) (suc i) a e h = All-get P xs i a e h.1

module _ (n size : ℕ) where
  get_at_total :
      (f : FixedBuffers) (a : ℕ)
      → f.buf_ids ≡ iota 0 n
      → f.bufs ≡ replicate n size
      → a < n
      → get_at f (suc a) ≡ some (record f { avail_buf_ids = a }, fixed_buffer size a a)
  unfolding get_at
  get_at_total f a ids sizes h =
      rw (ids, get_elem?-iota 0 n a h, sizes, get_at)
        (rw (get_elem?-replicate n (0 + a) size (omega arith)) (ground arith))

  takes-Inv :
      (w : Holding) (a : ℕ)
      → w.pool.avail_buf_ids ≡ suc a
      → Inv n size w
      → Inv n size (record {
        pool = record (w.pool) { avail_buf_ids = a };
        held = fixed_buffer size a a ∷ w.held;
      })
  unfolding fixed_buffer
  takes-Inv w a e v =
      let lent : All (Lent n (suc a)) w.held = subst (λ k. All (Lent n k) w.held) e v.lent in
      record {
        ids = v.ids;
        sizes = v.sizes;
        room = omega (arith, v.room);
        lent = (
          record { own = refl; above = omega arith; within = omega (arith, v.room) },
          Lent-down n a w.held lent,
        );
        apart = (has-above n a w.held lent, v.apart);
      }

  -- Taking: either the pool is used up and nothing changes, or the last free index is lent.
  takes_cases {ℓ} :
      (P : Holding → Type ℓ) (w : Holding) (k : ℕ)
      → w.pool.avail_buf_ids ≡ k
      → Inv n size w
      → (k ≡ 0 → P w)
      → ((a : ℕ)
          → k ≡ suc a
          → P (record {
            pool = record (w.pool) { avail_buf_ids = a };
            held = fixed_buffer size a a ∷ w.held;
          }))
      → P (use_once w takes)
  unfolding use_once
  takes_cases P w zero e v empty lent =
      let q : get_avail_buf w.pool ≡ none = unfold get_avail_buf get_at in ap (get_at w.pool) e in
      rw (q, use_once) (empty refl)
  takes_cases P w (suc a) e v empty lent =
      let q : get_avail_buf w.pool
          ≡ some (record (w.pool) { avail_buf_ids = a }, fixed_buffer size a a) =
        unfold get_avail_buf in
        ap (get_at w.pool) e ∙ get_at_total w.pool a v.ids v.sizes (omega (arith, v.room)) in
      rw (q, use_once) (lent a refl)

  -- Giving up writes back what is already there.
  destroy-same :
      (f : FixedBuffers) (b : FixedBuffer)
      → f.buf_ids ≡ iota 0 n
      → b.avail_buf_ids ≡ b.buf_index
      → destroy f b ≡ f
  unfolding destroy
  destroy-same f b ids own =
      let same : set f.buf_ids b.avail_buf_ids b.buf_index ≡ f.buf_ids =
        rw (ids, own) (set-iota 0 n b.buf_index b.buf_index (omega arith)) in
      rw same refl

  drops_cases {ℓ} :
      (P : Holding → Type ℓ) (w : Holding) (i : ℕ)
      → Inv n size w
      → P w
      → P (record w { held = remove w.held i })
      → P (use_once w (drops i))
  unfolding use_once
  drops_cases P w i v kept gone = elim (Option-cases (get_elem? w.held i)) [
    | inl e ↦ rw (e, use_once) kept
    | inr (b, e) ↦
        rw (e, use_once)
          (rw
            (destroy-same w.pool b v.ids
              (All-get (Lent n w.pool.avail_buf_ids) w.held i b e v.lent).own)
            gone)
  ]

  use_once-Inv : (w : Holding) (u : Use) → Inv n size w → Inv n size (use_once w u)
  use_once-Inv w takes v =
      takes_cases (Inv n size) w w.pool.avail_buf_ids refl v (λ _. v) (λ a e. takes-Inv w a e v)
  use_once-Inv w (drops i) v = drops_cases (Inv n size) w i v v (record {
    ids = v.ids;
    sizes = v.sizes;
    room = v.room;
    lent = All-remove (Lent n w.pool.avail_buf_ids) w.held i v.lent;
    apart = Distinct-remove w.held i v.apart;
  })

  pub use_all-Inv : (w : Holding) (us : List Use) → Inv n size w → Inv n size (use_all w us)
  unfolding use_all
  use_all-Inv w [] v = v
  use_all-Inv w (u ∷ us) v = use_all-Inv (use_once w u) us (use_once-Inv w u v)

-- The number of attempts to take a buffer.
abbrev pub attempts : List Use → ℕ
attempts [] = 0
attempts (takes ∷ us) = suc (attempts us)
attempts (drops i ∷ us) = attempts us

module _ (n size : ℕ) where
  use_once-avail :
      (w : Holding) (u : Use)
      → Inv n size w
      → (use_once w u).pool.avail_buf_ids ≡ w.pool.avail_buf_ids - attempts (u ∷ [])
  use_once-avail w takes v =
      takes_cases n size (λ q. q.pool.avail_buf_ids ≡ w.pool.avail_buf_ids - 1) w
        w.pool.avail_buf_ids refl v (λ e. omega arith) (λ a e. omega arith)
  use_once-avail w (drops i) v =
      drops_cases n size (λ q. q.pool.avail_buf_ids ≡ w.pool.avail_buf_ids - 0) w i v (omega arith)
        (omega arith)

  use_all-avail :
      (w : Holding) (us : List Use)
      → Inv n size w
      → (use_all w us).pool.avail_buf_ids ≡ w.pool.avail_buf_ids - attempts us
  unfolding use_all
  use_all-avail w [] v = omega arith
  use_all-avail w (takes ∷ us) v = omega (
    arith,
    use_all-avail (use_once w takes) us (use_once-Inv n size w takes v),
    use_once-avail w takes v,
  )
  use_all-avail w (drops i ∷ us) v = omega (
    arith,
    use_all-avail (use_once w (drops i)) us (use_once-Inv n size w (drops i) v),
    use_once-avail w (drops i) v,
  )

abbrev pub fresh : ℕ → ℕ → Holding
fresh n size = record { pool = fixed_buffers n size; held = [] }

fresh-Inv : (n size : ℕ) → Inv n size (fresh n size)
unfolding fixed_buffers
fresh-Inv n size = record { ids = refl; sizes = refl; room = omega arith; lent = tt; apart = tt }

fresh-avail : (n size : ℕ) → (fixed_buffers n size).avail_buf_ids ≡ n
unfolding fixed_buffers
fresh-avail n size = refl

-- However a program takes buffers from a new pool of n and gives them up, no two of the buffers that
-- it holds have the same index, and every index is below n.
held-Distinct :
    (n size : ℕ) (us : List Use)
    → Distinct (indices (use_all (fresh n size) us).held)
      × All (λ i. i < n) (indices (use_all (fresh n size) us).held)
held-Distinct n size us =
    let v = use_all-Inv n size (fresh n size) us (fresh-Inv n size) in
    (v.apart, below (use_all (fresh n size) us).pool.avail_buf_ids _ v.lent)
  where
    below : (a : ℕ) (bs : List FixedBuffer) → All (Lent n a) bs → All (λ i. i < n) (indices bs)
    below a [] l = tt
    below a (b ∷ bs) l = (l.0.within, below a bs l.1)

-- After n attempts to take a buffer a pool of n buffers never hands one out again, however many of
-- them were given up in between or later.
pub given_up-never-reused :
    (n size : ℕ) (us : List Use)
    → n ≤ attempts us
    → get_avail_buf (use_all (fresh n size) us).pool ≡ none
unfolding get_avail_buf get_at
given_up-never-reused n size us h =
    let e : (use_all (fresh n size) us).pool.avail_buf_ids ≡ 0 =
      omega
        (arith, use_all-avail n size (fresh n size) us (fresh-Inv n size), fresh-avail n size) in
    rw (e, get_avail_buf, get_at) refl
