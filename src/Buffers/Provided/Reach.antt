-- ===== src/Buffers/Provided/Reach.antt =====
-- A ring of provided buffers over its whole life.
use fiona.Base.{
  ℕ, suc, ◌<◌, ◌≡◌, sym, ap, ◌∙◌, inl, inr, ok, none, some, List, arith, replicate, length,
  length-set, length-replicate,
}
use mathlib.Core.Path.{subst}
use fiona.Buffers.Provided.{
  RecvBuffer, default_buf_header, recv_buffer, BufRing, RingCall, register, buf_ring,
  recycle_buffer, take_buffer, replenish,
}
use fiona.Buffers.Provided.Slots.{capacity_at, empties-replicate}
use fiona.Buffers.Provided.Stack.{Inv, recycle_buffer_lem, take_buffer_total}
use fiona.Buffers.Provided.Refill.{replenish-Inv, replenish-sizes}

-- What may happen to a ring: the kernel completes a receive into a slot that it was given, a program
-- recycles a buffer, or a receiver replaces the buffers that it was handed.
pub data Step (r r' : BufRing) : Type 0 where
  completes :
      (i c res : ℕ) (b : RecvBuffer)
      → capacity_at r.bufs i ≡ some (suc c)
      → take_buffer r i res ≡ some (r', b)
      → Step r r'
  recycles : (b : RecvBuffer) → 0 < b.capacity → r' ≡ (recycle_buffer r b).0 → Step r r'
  replenishes : (bs : List RecvBuffer) → r' ≡ (replenish r bs).0 → Step r r'

pub data Reach (r : BufRing) : BufRing → Type 0 where
  here : Reach r r
  next : {s t : BufRing} → Reach r s → Step s t → Reach r t

-- Well formed, with n slots, and buffers of a size above 0.
pub record Sound (n : ℕ) (r : BufRing) : Type 0 where
  pub inv : Inv r
  pub slots : length r.bufs ≡ n
  pub sized : 0 < r.buf_size

take_buffer-slots :
    (r r' : BufRing) (i res : ℕ) (b : RecvBuffer)
    → take_buffer r i res ≡ some (r', b)
    → (length r'.bufs ≡ length r.bufs) × (r'.buf_size ≡ r.buf_size)
unfolding take_buffer
take_buffer-slots r r' i res b e = ground (arith, length-set r.bufs i default_buf_header)

Step-Sound : {n : ℕ} {r r' : BufRing} → Step r r' → Sound n r → Sound n r'
Step-Sound {r} {r'} (completes i c res b full e) v =
    let (q, e', inv, _) = take_buffer_total r v.inv i c res full in
    let same : q ≡ r' = ground arith in
    let kept = take_buffer-slots r r' i res b e in
    record {
      inv = subst Inv same inv;
      slots = kept.0 ∙ v.slots;
      sized = omega (arith, kept.1, v.sized);
    }
Step-Sound {n} {r} {r'} (recycles b h e) v = elim (recycle_buffer_lem r v.inv b h) [
  | inl (_, q) ↦ subst (Sound n) (sym (e ∙ ap (λ o. o.0) q)) v
  | inr (i, p, _, _, q, inv) ↦
      subst (Sound n) (sym (e ∙ ap (λ o. o.0) q))
        (record { inv = inv; slots = length-set r.bufs i b ∙ v.slots; sized = v.sized })
]
Step-Sound {n} {r} (replenishes bs e) v =
    let kept = replenish-sizes r bs v.sized v.inv in
    subst (Sound n) (sym e) (record {
      inv = (replenish-Inv r bs v.sized v.inv).0;
      slots = kept.0 ∙ v.slots;
      sized = omega (arith, kept.1, v.sized);
    })

new_ring : (n size bgid : ℕ) → BufRing
new_ring n size bgid = record {
  bufs = replicate n (recv_buffer size);
  buf_ids = replicate n 0;
  buf_id_pos = 0;
  buf_size = size;
  bgid = bgid;
}

new_ring-Sound : (n size bgid : ℕ) → 0 < size → Sound n (new_ring n size bgid)
unfolding new_ring
new_ring-Sound n size bgid h = record {
  inv = record {
    same = length-replicate n 0 ∙ sym (length-replicate n (recv_buffer size));
    count = sym (empties-replicate n (recv_buffer size) h);
    free = tt;
    apart = tt;
  };
  slots = length-replicate n (recv_buffer size);
  sized = h;
}

buf_ring-Sound :
    (n size bgid : ℕ) {r : BufRing} {cs : List RingCall}
    → buf_ring none n size bgid ≡ ok (r, cs)
    → 0 < size
    → Sound n r
unfolding buf_ring register new_ring
buf_ring-Sound n size bgid {r} e h =
    let same : new_ring n size bgid ≡ r = cc in subst (Sound n) same (new_ring-Sound n size bgid h)

-- From its registration on, whatever completes, is recycled or is replaced: the stack of a ring
-- of n buffers holds exactly as many ids as slots are empty, each of an empty slot, none twice.
pub Reach-Sound :
    (n size bgid : ℕ) {r s : BufRing} {cs : List RingCall}
    → buf_ring none n size bgid ≡ ok (r, cs)
    → 0 < size
    → Reach r s
    → Sound n s
Reach-Sound n size bgid e h here = buf_ring-Sound n size bgid e h
Reach-Sound n size bgid e h (next t s) = Step-Sound s (Reach-Sound n size bgid e h t)
