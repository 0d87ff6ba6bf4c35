-- ===== src/Buffers/Provided/Stack.antt =====
-- The stack of free slots of a ring of provided buffers, under all that is done with the ring.
use fiona.Base.{
  ℕ, zero, suc, ◌-◌, ◌<◌, ◌≡◌, refl, ap, ◌∙◌, ◌⊎◌, inl, inr, false, none, some, List, [], ◌∷◌, ◌++◌,
  arith, get_elem?, set, take, length, has, All, Distinct, get_elem?-lt, get_elem?_total,
  length-set, take-set, take-suc, Distinct-snoc, Distinct-unsnoc, Option-cases,
}
use mathlib.Core.Path.{subst}
use fiona.Buffers.Provided.{
  RecvBuffer, default_buf_header, BufRing, add, advance, pop_id, recycle_buffer, take_buffer,
}
use fiona.Buffers.Provided.Slots.{
  capacity_at, IsFree, empties, empties-le, empties-set, empties-lt, capacity_at-set_self,
  All-IsFree-set_empty, All-IsFree-set, has-free_false, All-snoc, All-unsnoc,
}

-- The slots on the stack.
abbrev pub free_ids : BufRing → List ℕ
free_ids r = take r.buf_id_pos r.buf_ids

pub record Inv (r : BufRing) : Type 0 where
  pub same : length r.buf_ids ≡ length r.bufs
  pub count : r.buf_id_pos ≡ empties r.bufs
  pub free : All (IsFree r.bufs) (free_ids r)
  pub apart : Distinct (free_ids r)

-- The ring once the buffer of slot `i` is taken, and once free slot `i` below `p` others is filled.
abbrev taken : BufRing → ℕ → BufRing
taken r i = record r {
  bufs = set r.bufs i default_buf_header;
  buf_ids = set r.buf_ids r.buf_id_pos i;
  buf_id_pos = suc r.buf_id_pos;
}

abbrev pub filled : BufRing → ℕ → ℕ → RecvBuffer → BufRing
filled r p i b = record r { bufs = set r.bufs i b; buf_id_pos = p }

module _ (r : BufRing) (v : Inv r) where
  taken-room :
      (i : ℕ) (b : RecvBuffer)
      → get_elem? r.bufs i ≡ some b
      → 0 < b.capacity
      → r.buf_id_pos < length r.buf_ids
  taken-room i b q h = omega (arith, v.same, v.count, empties-lt r.bufs i b q h)

  pub taken-Inv :
      (i : ℕ) (b : RecvBuffer) → get_elem? r.bufs i ≡ some b → 0 < b.capacity → Inv (taken r i)
  taken-Inv i b q h =
      let grown = take-set r.buf_ids r.buf_id_pos i (taken-room i b q h) in
      let full : capacity_at r.bufs i ≡ some (suc (b.capacity - 1)) = ground arith in
      let out = has-free_false r.bufs i (b.capacity - 1) (free_ids r) full v.free in
      let now_free : IsFree (set r.bufs i default_buf_header) i =
        capacity_at-set_self r.bufs i default_buf_header (get_elem?-lt r.bufs i b q) in
      record {
        same = omega (
          arith,
          length-set r.buf_ids r.buf_id_pos i,
          length-set r.bufs i default_buf_header,
          v.same,
        );
        count = ground (arith, empties-set r.bufs i b default_buf_header q, v.count);
        free = rw grown (
            All-snoc (IsFree (set r.bufs i default_buf_header)) (free_ids r) i
              (All-IsFree-set_empty r.bufs i default_buf_header (free_ids r) refl v.free) now_free);
        apart = rw grown (Distinct-snoc (free_ids r) i v.apart out);
      }

  -- On a well-formed ring, a completion that names a slot with a buffer is taken: the move and the
  -- push are in range, the buffer comes out with the length that the kernel reports, the ring
  -- stays well formed, and it has one free slot more.
  pub take_buffer_total :
      (i c res : ℕ)
      → capacity_at r.bufs i ≡ some (suc c)
      → (r' : BufRing) × (take_buffer r i res ≡ some (r', record { size = res; capacity = suc c }))
        × Inv r'
        × (r'.buf_id_pos ≡ suc r.buf_id_pos)
  unfolding take_buffer
  take_buffer_total i c res e = elim (Option-cases (get_elem? r.bufs i)) [
    | inl q ↦ absurd (ground arith)
    | inr (b, q) ↦
        let full : b.capacity ≡ suc c = ground arith in
        let room = taken-room i b q (omega arith) in
        (taken r i, rw (q, take_buffer) (ground arith), taken-Inv i b q (omega arith), refl)
  ]

  -- The top of the stack, where there is one, is a free slot.
  pub top : (p : ℕ) → r.buf_id_pos ≡ suc p → (i : ℕ) × (get_elem? r.buf_ids p ≡ some i)
  top p e = get_elem?_total r.buf_ids p (omega (arith, v.same, v.count, empties-le r.bufs))

  module _ (p i : ℕ) (e : r.buf_id_pos ≡ suc p) (g : get_elem? r.buf_ids p ≡ some i) where
    split : free_ids r ≡ take p r.buf_ids ++ i ∷ []
    split = ap (λ k. take k r.buf_ids) e ∙ take-suc r.buf_ids p i g

    rest-IsFree : All (IsFree r.bufs) (take p r.buf_ids) × IsFree r.bufs i
    rest-IsFree =
        All-unsnoc (IsFree r.bufs) (take p r.buf_ids) i (subst (All (IsFree r.bufs)) split v.free)

    rest_apart : Distinct (take p r.buf_ids) × (has i (take p r.buf_ids) ≡ false)
    rest_apart = Distinct-unsnoc (take p r.buf_ids) i (subst Distinct split v.apart)

    pub filled-Inv : (b : RecvBuffer) → 0 < b.capacity → Inv (filled r p i b)
    filled-Inv b h = elim (Option-cases (get_elem? r.bufs i)) [
      | inl q ↦ absurd (let f = rest-IsFree.1 in ground arith)
      | inr (old, q) ↦
          let empty : old.capacity ≡ 0 = let f = rest-IsFree.1 in ground arith in
          record {
            same = omega (arith, length-set r.bufs i b, v.same);
            count = ground (arith, empties-set r.bufs i old b q, v.count);
            free = All-IsFree-set r.bufs i b (take p r.buf_ids) rest_apart.1 rest-IsFree.0;
            apart = rest_apart.0;
          }
    ]

    pub popped : pop_id r r.buf_id_pos ≡ some (record r { buf_id_pos = p }, i)
    popped = ap (pop_id r) e ∙ rw (g, pop_id) refl

  -- On a well-formed ring `recycle_buffer` drops a buffer when no slot is free; else the top free
  -- slot gets it, the kernel is told of it once, and the ring stays well formed.
  pub recycle_buffer_lem :
      (b : RecvBuffer)
      → 0 < b.capacity
      → ((r.buf_id_pos ≡ 0) × (recycle_buffer r b ≡ (r, [])))
        ⊎ ((i p : ℕ) × (r.buf_id_pos ≡ suc p)
            × IsFree r.bufs i
            × (recycle_buffer r b
                ≡ (filled r p i b, add b.capacity i (length r.bufs) 0 ∷ advance 1 ∷ []))
            × Inv (filled r p i b))
  recycle_buffer_lem b h = go r.buf_id_pos refl
    where
      go :
          (k : ℕ)
          → r.buf_id_pos ≡ k
          → ((r.buf_id_pos ≡ 0) × (recycle_buffer r b ≡ (r, [])))
            ⊎ ((i p : ℕ) × (r.buf_id_pos ≡ suc p)
                × IsFree r.bufs i
                × (recycle_buffer r b
                    ≡ (filled r p i b, add b.capacity i (length r.bufs) 0 ∷ advance 1 ∷ []))
                × Inv (filled r p i b))
      go zero e =
          let q : pop_id r r.buf_id_pos ≡ none = ap (pop_id r) e in
          inl (e, unfold recycle_buffer in rw (q, recycle_buffer) refl)
      go (suc p) e =
          let (i, g) = top p e in
          inr (
            i,
            p,
            e,
            (rest-IsFree p i e g).1,
            unfold recycle_buffer in rw (popped p i e g, recycle_buffer) refl,
            filled-Inv p i e g b h,
          )
