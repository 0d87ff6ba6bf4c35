-- ===== src/Buffers/Provided.antt =====
-- `buf_ring` of include/fiona/detail/common.hpp and src/common.cpp, with the two places that move a
-- buffer out of a slot (`recv_frame::await_process_cqe`, src/detail/stream_impl.hpp) and refill a slot
-- (`recv_awaitable::await_resume`, src/tcp.cpp). A pointer into `buf_ids_` is its offset. The calls
-- on the kernel's ring are listed in their order.
pub mod Slots
pub mod Stack
pub mod Refill
pub mod Reach
pub mod Tests
use fiona.Base.{
  ℕ, zero, suc, ◌+◌, Bool, true, false, Result, ok, err, Option, none, some, List, [], ◌∷◌, ◌++◌,
  ltb, ◌==◌, if◌then◌else◌, get_elem?, set, replicate, length,
}

-- A `recv_buffer` as its header: the default one, of capacity 0, is what a move leaves behind.
pub record RecvBuffer : Type 0 where
  pub size : ℕ
  pub capacity : ℕ

abbrev pub default_buf_header : RecvBuffer
default_buf_header = record { size = 0; capacity = 0 }

-- `recv_buffer( capacity )`
abbrev pub recv_buffer : ℕ → RecvBuffer
recv_buffer n = record { size = 0; capacity = n }

-- `set_len`
abbrev pub set_len : RecvBuffer → ℕ → RecvBuffer
set_len b n = record b { size = n }

pub record BufRing : Type 0 where
  pub bufs : List RecvBuffer
  pub buf_ids : List ℕ
  pub buf_id_pos : ℕ
  pub buf_size : ℕ
  pub bgid : ℕ

-- `io_uring_buf_ring_add( br, addr, len, bid, mask, offset )` and `io_uring_buf_ring_advance`. The
-- mask is that of `entries` entries.
pub data RingCall : Type 0 where
  add : (len bid entries offset : ℕ) → RingCall
  advance : ℕ → RingCall

-- The first constructor. `setup` is the answer of `io_uring_setup_buf_ring`: `some e` for a null
-- pointer with `ret` at -e, which is thrown.
unfoldable pub register : (setup : Option ℕ) → (num_bufs bgid : ℕ) → Result ℕ BufRing
register (some e) num_bufs bgid = err e
register none num_bufs bgid = ok (record {
  bufs = replicate num_bufs default_buf_header;
  buf_ids = replicate num_bufs 0;
  buf_id_pos = 0;
  buf_size = 0;
  bgid = bgid;
})

-- The loop of the second constructor that hands every buffer to the kernel.
unfoldable pub add_all : (entries i : ℕ) → List RecvBuffer → List RingCall
add_all entries i [] = []
add_all entries i (b ∷ bs) = add b.capacity i entries i ∷ add_all entries (suc i) bs

unfoldable pub buf_ring :
    (setup : Option ℕ) → (num_bufs buf_size bgid : ℕ) → Result ℕ (BufRing × List RingCall)
unfolding register add_all
buf_ring setup num_bufs buf_size bgid = elim (register setup num_bufs bgid) [
  | err e ↦ err e
  | ok r ↦
      let bufs = replicate num_bufs (recv_buffer buf_size) in
      ok (
        record r { bufs = bufs; buf_size = buf_size },
        add_all num_bufs 0 bufs ++ advance num_bufs ∷ [],
      )
]

-- `*( --buf_id_pos_ )`, where the stack of free slots is not empty.
abbrev pop_id : BufRing → ℕ → Option (BufRing × ℕ)
pop_id r zero = none
pop_id r (suc p) = elim (get_elem? r.buf_ids p) [
  | none ↦ none
  | some i ↦ some (record r { buf_id_pos = p }, i)
]

-- A slot is given a buffer, and the kernel is told.
abbrev fill_slot : BufRing → ℕ → RecvBuffer → ℕ → BufRing × RingCall
fill_slot r i b offset =
    (record r { bufs = set r.bufs i b }, add b.capacity i (length r.bufs) offset)

-- `recycle_buffer`: with no free slot the buffer is dropped.
unfoldable pub recycle_buffer : BufRing → RecvBuffer → BufRing × List RingCall
recycle_buffer r b = elim (pop_id r r.buf_id_pos) [
  | none ↦ (r, [])
  | some (r', i) ↦ let (r'', c) = fill_slot r' i b 0 in (r'', c ∷ advance 1 ∷ [])
]

-- From `recv_frame::await_process_cqe`: the buffer of slot `i` is moved out, its length is set, and
-- the slot goes on the stack. `none` is an access out of range.
unfoldable pub take_buffer : BufRing → (i res : ℕ) → Option (BufRing × RecvBuffer)
take_buffer r i res = elim (get_elem? r.bufs i) [
  | none ↦ none
  | some b ↦
      if ltb r.buf_id_pos (length r.buf_ids)
      then some (
        record r {
          bufs = set r.bufs i default_buf_header;
          buf_ids = set r.buf_ids r.buf_id_pos i;
          buf_id_pos = suc r.buf_id_pos;
        },
        set_len b res,
      )
      else none
]

-- The loop of `recv_awaitable::await_resume` over the received buffers, from `len` on: it stops at an
-- empty buffer, and when no slot is free.
pub refill : BufRing → ℕ → List RecvBuffer → BufRing × List RingCall × ℕ
refill r len [] = (r, [], len)
refill r len (b ∷ bs) = if b.size == 0 then (r, [], len) else elim (pop_id r r.buf_id_pos) [
  | none ↦ (r, [], len)
  | some (r', i) ↦
      let (r'', c) = fill_slot r' i (recv_buffer r.buf_size) len in
      let (r₁, cs, n) = refill r'' (suc len) bs in (r₁, c ∷ cs, n)
]

-- The refill of `await_resume`, with the advance behind it.
pub replenish : BufRing → List RecvBuffer → BufRing × List RingCall
unfolding refill
replenish r bs =
    let (r', cs, len) = refill r 0 bs in (r', if ltb 0 len then cs ++ advance len ∷ [] else cs)
