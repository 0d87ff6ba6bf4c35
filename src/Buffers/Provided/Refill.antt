-- ===== src/Buffers/Provided/Refill.antt =====
-- The loop of `recv_awaitable::await_resume` that replaces the received buffers.
use fiona.Base.{
  ℕ, zero, suc, ◌+◌, ◌≤◌, ◌<◌, ◌≡◌, refl, ap, ◌∙◌, ◌⊎◌, inl, inr, false, none, some, List, [], ◌∷◌,
  arith, ◌==◌, get_elem?, length, All, length-set, Bool-cases,
}
use fiona.Buffers.Provided.{
  RecvBuffer, recv_buffer, BufRing, RingCall, add, pop_id, refill, replenish,
}
use fiona.Buffers.Provided.Stack.{Inv, filled, top, filled-Inv, popped}

-- What a refill has done: `n` counts the slots filled so far.
record Refilled (r : BufRing) (len : ℕ) (out : BufRing × List RingCall × ℕ) : Type 0 where
  inv : Inv out.0
  balance : out.0.buf_id_pos + out.2 ≡ r.buf_id_pos + len
  slots : length out.0.bufs ≡ length r.bufs
  sizes : out.0.buf_size ≡ r.buf_size

refill_stop : (r : BufRing) (len : ℕ) → Inv r → Refilled r len (r, [], len)
refill_stop r len v = record { inv = v; balance = refl; slots = refl; sizes = refl }

-- One round of the refill: it stops at an empty buffer or with no slot free, or fills a free slot.
refill_cases {ℓ} :
    (P : BufRing × List RingCall × ℕ → Type ℓ) (r : BufRing) (len : ℕ) (b : RecvBuffer)
    (bs : List RecvBuffer)
    → Inv r
    → ((b.size ≡ 0) ⊎ (r.buf_id_pos ≡ 0) → P (r, [], len))
    → ((p i : ℕ) (c : RingCall)
        → r.buf_id_pos ≡ suc p
        → get_elem? r.buf_ids p ≡ some i
        → let out = refill (filled r p i (recv_buffer r.buf_size)) (suc len) bs in
          P (out.0, c ∷ out.1, out.2))
    → P (refill r len (b ∷ bs))
unfolding refill
refill_cases P r len b bs v stop more = elim (Bool-cases (b.size == 0)) [
  | inl done ↦ rw (done, refill) (stop (inl (ground arith)))
  | inr full ↦ go full r.buf_id_pos refl
]
  where
    go : (b.size == 0) ≡ false → (k : ℕ) → r.buf_id_pos ≡ k → P (refill r len (b ∷ bs))
    go full zero e =
        let q : pop_id r r.buf_id_pos ≡ none = ap (pop_id r) e in
        rw (full, q, refill) (stop (inr e))
    go full (suc p) e =
        let (i, g) = top r v p e in
        rw (full, popped r v p i e g, refill) (more p i (add r.buf_size i (length r.bufs) len) e g)

refill-Refilled :
    (r : BufRing) (len : ℕ) (bs : List RecvBuffer)
    → 0 < r.buf_size
    → Inv r
    → Refilled r len (refill r len bs)
unfolding refill
refill-Refilled r len [] h v = refill_stop r len v
refill-Refilled r len (b ∷ bs) h v =
    refill_cases (Refilled r len) r len b bs v (λ _. refill_stop r len v)
      λ p i c e g.
        let next = filled r p i (recv_buffer r.buf_size) in
        let t =
          refill-Refilled next (suc len) bs h (filled-Inv r v p i e g (recv_buffer r.buf_size) h) in
        record {
          inv = t.inv;
          balance = omega (arith, t.balance);
          slots = t.slots ∙ length-set r.bufs i (recv_buffer r.buf_size);
          sizes = t.sizes;
        }

-- No received buffer is empty.
abbrev pub NonEmpty : List RecvBuffer → Type 0
NonEmpty = All (λ b. 0 < b.size)

-- With a free slot for each buffer, and no empty buffer, every round fills one.
refill-all :
    (r : BufRing) (len : ℕ) (bs : List RecvBuffer)
    → 0 < r.buf_size
    → Inv r
    → NonEmpty bs
    → length bs ≤ r.buf_id_pos
    → (refill r len bs).2 ≡ len + length bs
unfolding refill
refill-all r len [] h v full room = omega arith
refill-all r len (b ∷ bs) h v full room =
    refill_cases (λ out. out.2 ≡ len + length (b ∷ bs)) r len b bs v
      (λ s. absurd (let f = full.0 in stops s f room))
      λ p i c e g. omega (
        arith,
        refill-all (filled r p i (recv_buffer r.buf_size)) (suc len) bs h
            (filled-Inv r v p i e g (recv_buffer r.buf_size) h) full.1 (omega arith),
      )
  where
    stops : (b.size ≡ 0) ⊎ (r.buf_id_pos ≡ 0) → 0 < b.size → suc (length bs) ≤ r.buf_id_pos → ⊥
    stops s f room = omega arith

-- With a positive buffer size, the refill of `await_resume` keeps a well-formed ring well formed
-- and gives no slot back.
pub replenish-Inv :
    (r : BufRing) (bs : List RecvBuffer)
    → 0 < r.buf_size
    → Inv r
    → Inv (replenish r bs).0 × ((replenish r bs).0.buf_id_pos ≤ r.buf_id_pos)
unfolding replenish
replenish-Inv r bs h v = let t = refill-Refilled r 0 bs h v in (t.inv, omega (arith, t.balance))

-- On a well-formed ring of a positive buffer size, with a free slot for each received buffer and
-- no empty buffer among them, the refill of `await_resume` puts a fresh buffer in one slot for
-- each of them.
replenish_full :
    (r : BufRing) (bs : List RecvBuffer)
    → 0 < r.buf_size
    → Inv r
    → NonEmpty bs
    → length bs ≤ r.buf_id_pos
    → (replenish r bs).0.buf_id_pos + length bs ≡ r.buf_id_pos
unfolding replenish
replenish_full r bs h v full room =
    omega (arith, (refill-Refilled r 0 bs h v).balance, refill-all r 0 bs h v full room)

pub replenish-sizes :
    (r : BufRing) (bs : List RecvBuffer)
    → 0 < r.buf_size
    → Inv r
    → (length (replenish r bs).0.bufs ≡ length r.bufs) × ((replenish r bs).0.buf_size ≡ r.buf_size)
unfolding replenish
replenish-sizes r bs h v = let t = refill-Refilled r 0 bs h v in (t.slots, t.sizes)
