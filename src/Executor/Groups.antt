-- ===== src/Executor/Groups.antt =====
-- The buffer groups and fixed buffers of an executor: `register_buf_ring`, `register_fixed_buffers`,
-- `recycle_buffer` and `get_buffer_group` of include/fiona/executor.hpp.
pub mod Lookup
pub mod Tests
use fiona.Errno.{eexist, einval}
use fiona.Base.{
  ℕ, ℤ, pos, ◌%◌, Result, ok, err, Option, none, some, List, [], ◌∷◌, ◌==◌, if◌then◌else◌,
}
use fiona.Buffers.Provided.{RecvBuffer, BufRing, RingCall, buf_ring, recycle_buffer}
use fiona.Buffers.Fixed.{FixedBuffers, fixed_buffers}

-- `buf_rings_` and `fixed_buffers_`.
pub record Groups : Type 0 where
  pub buf_rings : List (ℕ × BufRing)
  pub fixed : Option FixedBuffers

unfoldable pub find : ℕ → List (ℕ × BufRing) → Option BufRing
find k [] = none
find k ((j, r) ∷ rs) = if j == k then some r else find k rs

unfoldable pub assign : ℕ → BufRing → List (ℕ × BufRing) → List (ℕ × BufRing)
assign k r [] = []
assign k r ((j, s) ∷ rs) = if j == k then (k, r) ∷ rs else (j, s) ∷ assign k r rs

-- `get_buffer_group`: the id is cut to 16 bits.
unfoldable pub get_buffer_group : ℕ → Groups → Option BufRing
unfolding find
get_buffer_group bgid g = find (bgid % 65536) g.buf_rings

-- `register_buf_ring`: the number of buffers is cut to 32 bits. An id that is taken is EEXIST, and no
-- ring is made; an error of the kernel leaves the groups as they were.
unfoldable pub register_buf_ring :
    (setup : Option ℕ)
    → (num_bufs buf_size buffer_group_id : ℕ) → Groups
    → Result ℤ (Groups × List RingCall)
unfolding find
register_buf_ring setup num_bufs buf_size bgid g = elim (find bgid g.buf_rings) [
  | some r ↦ err (pos eexist)
  | none ↦ elim (buf_ring setup (num_bufs % 0x1_0000_0000) buf_size bgid) [
    | err e ↦ err (pos e)
    | ok (r, calls) ↦ ok (record g { buf_rings = (bgid, r) ∷ g.buf_rings }, calls)
  ]
]

-- `register_fixed_buffers`
unfoldable pub register_fixed_buffers : (num_bufs buf_size : ℕ) → Groups → Result ℤ Groups
register_fixed_buffers num_bufs buf_size g = elim g.fixed [
  | some f ↦ err (pos eexist)
  | none ↦ ok (record g { fixed = some (fixed_buffers (num_bufs % 0x1_0000_0000) buf_size) })
]

-- `executor::recycle_buffer`
unfoldable pub recycle :
    RecvBuffer → (buffer_group_id : ℕ) → Groups → Result ℤ (Groups × List RingCall)
unfolding get_buffer_group assign
recycle b bgid g = elim (get_buffer_group bgid g) [
  | none ↦ err (pos einval)
  | some r ↦
      let (r', calls) = recycle_buffer r b in
      ok (record g { buf_rings = assign bgid r' g.buf_rings }, calls)
]
