-- ===== src/Executor/Groups/Lookup.antt =====
-- What a registration and a recycling do to the groups.
use fiona.Base.{
  ℕ, ◌%◌, ◌<◌, ◌≡◌, ok, Option, none, some, List, [], ◌∷◌, arith, ◌==◌, if◌then◌else◌, Option-cases,
  Result-cases, inl, inr,
}
use fiona.Buffers.Provided.{RecvBuffer, BufRing, RingCall, buf_ring, recycle_buffer}
use fiona.Executor.Groups.{Groups, find, assign, get_buffer_group, register_buf_ring, recycle}

small : (k : ℕ) → k < 65536 → k % 65536 ≡ k
small k h = omega arith

find-assign :
    (k j : ℕ) (r s : BufRing) (rs : List (ℕ × BufRing))
    → find k rs ≡ some s
    → find j (assign k r rs) ≡ (if k == j then some r else find j rs)
unfolding find assign
find-assign k j r s [] e = cc
find-assign k j r s ((i, t) ∷ rs) e = ground (arith, find-assign k j r s rs)

-- A registration that succeeds, under a 16-bit id that was free, adds the ring that was made, and
-- changes no other group.
register_buf_ring-find :
    (setup : Option ℕ) (n size bgid j : ℕ) (g g' : Groups) (calls : List RingCall)
    → bgid < 65536
    → j < 65536
    → register_buf_ring setup n size bgid g ≡ ok (g', calls)
    → (r : BufRing) × (buf_ring setup (n % 0x1_0000_0000) size bgid ≡ ok (r, calls))
      × (get_buffer_group bgid g ≡ none)
      × (get_buffer_group j g' ≡ (if bgid == j then some r else get_buffer_group j g))
unfolding register_buf_ring get_buffer_group find
register_buf_ring-find setup n size bgid j g g' calls h k e =
    elim (Result-cases (buf_ring setup (n % 0x1_0000_0000) size bgid)) [
      | inr (c, q) ↦ absurd (ground arith)
      | inl ((r, cs), q) ↦
          (r, ground arith, ground (arith, small bgid h), ground (arith, small bgid h, small j k))
    ]

-- A recycling that succeeds, under a 16-bit id, has recycled the buffer into the group of that id,
-- and the other groups are as before.
recycle-find :
    (b : RecvBuffer) (bgid j : ℕ) (g g' : Groups) (calls : List RingCall)
    → bgid < 65536
    → j < 65536
    → recycle b bgid g ≡ ok (g', calls)
    → (r : BufRing) × (get_buffer_group bgid g ≡ some r)
      × ((recycle_buffer r b).1 ≡ calls)
      × (get_buffer_group j g'
          ≡ (if bgid == j then some (recycle_buffer r b).0 else get_buffer_group j g))
unfolding recycle
recycle-find b bgid j g g' calls h k e = elim (Option-cases (get_buffer_group bgid g)) [
  | inl q ↦ absurd (none_recycles q)
  | inr (r, q) ↦ (
    r,
    q,
    (result r q).1,
    rw (← (result r q).0) (
        unfold get_buffer_group in
        rw (small j k) (find-assign bgid j (recycle_buffer r b).0 r g.buf_rings (found r q))),
  )
]
  where
    none_recycles : get_buffer_group bgid g ≡ none → ⊥
    none_recycles q = ground arith

    result :
        (r : BufRing)
        → get_buffer_group bgid g ≡ some r
        → (record g { buf_rings = assign bgid (recycle_buffer r b).0 g.buf_rings } ≡ g')
          × ((recycle_buffer r b).1 ≡ calls)
    result r q = ground arith

    found : (r : BufRing) → get_buffer_group bgid g ≡ some r → find bgid g.buf_rings ≡ some r
    found r q = unfold get_buffer_group in rw (small bgid h) at q
