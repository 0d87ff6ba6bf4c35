-- ===== src/Buffers/Fixed.antt =====
-- `fixed_buffer` and `fixed_buffers` of include/fiona/detail/common.hpp and src/common.cpp.
-- A pointer into `buf_ids_` is its offset from `buf_ids_.data()`. A `fixed_buffer` holds a copy of
-- the pointer `avail_buf_ids_`, taken when it is made. The bytes of a buffer are its length.
pub mod Supply
pub mod Tests
use fiona.Base.{
  ℕ, zero, suc, ◌+◌, Option, none, some, List, [], ◌∷◌, get_elem?, set, replicate, length,
}

pub record FixedBuffer : Type 0 where
  pub size : ℕ
  pub len : ℕ
  pub buf_index : ℕ
  pub avail_buf_ids : ℕ

pub record FixedBuffers : Type 0 where
  pub bufs : List ℕ
  pub buf_ids : List ℕ
  pub avail_buf_ids : ℕ

-- i, i + 1, … : `buf_ids_[i] = i` for `n` rounds of the constructor's loop.
pub iota : ℕ → ℕ → List ℕ
iota i zero = []
iota i (suc n) = i ∷ iota (suc i) n

-- The constructor, with the sizes of `bufs_`.
pub fixed_buffers : (num_bufs buf_size : ℕ) → FixedBuffers
unfolding iota
fixed_buffers num_bufs buf_size = record {
  bufs = replicate num_bufs buf_size;
  buf_ids = iota 0 num_bufs;
  avail_buf_ids = num_bufs;
}

-- `fixed_buffer( std::span, std::size_t, std::size_t* )`
pub fixed_buffer : (size buf_index avail_buf_ids : ℕ) → FixedBuffer
fixed_buffer size buf_index avail = record {
  size = size;
  len = size;
  buf_index = buf_index;
  avail_buf_ids = avail;
}

lend : FixedBuffers → ℕ → Option ℕ → Option ℕ → Option (FixedBuffers × FixedBuffer)
unfolding fixed_buffer
lend f avail none size = none
lend f avail (some i) none = none
lend f avail (some i) (some size) =
    some (record f { avail_buf_ids = avail }, fixed_buffer size i avail)

abbrev size_of : FixedBuffers → Option ℕ → Option ℕ
size_of f none = none
size_of f (some i) = get_elem? f.bufs i

-- `get_avail_buf`; `none` is the failed assertion, or a read out of range.
get_at : FixedBuffers → ℕ → Option (FixedBuffers × FixedBuffer)
unfolding lend
get_at f zero = none
get_at f (suc avail) =
    lend f avail (get_elem? f.buf_ids avail) (size_of f (get_elem? f.buf_ids avail))

pub get_avail_buf : FixedBuffers → Option (FixedBuffers × FixedBuffer)
unfolding get_at
get_avail_buf f = get_at f f.avail_buf_ids

-- `set_len`, with no check against the size.
pub set_len : FixedBuffer → ℕ → FixedBuffer
set_len b n = record b { len = n }

-- `~fixed_buffer`: writes the index through the buffer's own copy of the pointer, and moves on that
-- copy, which dies with the buffer.
pub destroy : FixedBuffers → FixedBuffer → FixedBuffers
destroy f b = record f { buf_ids = set f.buf_ids b.avail_buf_ids b.buf_index }

-- The program holds buffers, takes further ones, and gives one of them up.
pub record Holding : Type 0 where
  pub pool : FixedBuffers
  pub held : List FixedBuffer

pub data Use : Type 0 where
  takes : Use
  drops : ℕ → Use

abbrev remove {ℓ} : {A : Type ℓ} → List A → ℕ → List A
remove [] i = []
remove (x ∷ xs) zero = xs
remove (x ∷ xs) (suc i) = x ∷ remove xs i

pub use_once : Holding → Use → Holding
unfolding get_avail_buf destroy
use_once w takes = elim (get_avail_buf w.pool) [
  | none ↦ w
  | some (f, b) ↦ record { pool = f; held = b ∷ w.held }
]
use_once w (drops i) = elim (get_elem? w.held i) [
  | none ↦ w
  | some b ↦ record { pool = destroy w.pool b; held = remove w.held i }
]

pub use_all : Holding → List Use → Holding
unfolding use_once
use_all w [] = w
use_all w (u ∷ us) = use_all (use_once w u) us
