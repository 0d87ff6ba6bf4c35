-- ===== src/Buffers/Owned.antt =====
-- `recv_buffer` of include/fiona/buffer.hpp as the owner of an allocation. An object is known by a number;
-- it holds the address of its header, and 0 stands for the address of `default_buf_header()`. An access
-- to an object that does not live, or to memory that is not allocated, is `none`.
pub mod Owners
pub mod Tests
use fiona.Base.{◌>>=◌, ℕ, ◌==◌, Bool, true, Option, none, some, if◌then◌else◌}
use fiona.Buffers.Linked.{Headers, at, aligned_delete}

pub record Objects : Type 0 where
  pub headers : Headers
  pub objects : ℕ → Option ℕ

-- `is_defaulted`
abbrev pub is_defaulted : ℕ → Bool
is_defaulted p = p == 0

-- `aligned_alloc` at the address `p`, and the header that is constructed there.
unfoldable pub alloc : (p capacity : ℕ) → Headers → Headers
alloc p capacity h = record {
  live = at h.live p true;
  size = at h.size p 0;
  capacity = at h.capacity p capacity;
  prev = at h.prev p 0;
  next = at h.next p 0;
}

-- `recv_buffer( capacity )`, where the allocation is at `p`.
unfoldable pub construct : (i p capacity : ℕ) → Objects → Option Objects
unfolding alloc
construct i p capacity st =
    some (record { headers = alloc p capacity st.headers; objects = at st.objects i (some p) })

-- `to_raw_parts`
unfoldable pub to_raw_parts : ℕ → Objects → Option (ℕ × Objects)
to_raw_parts i st = st.objects i >>= λ p. some (p, record st { objects = at st.objects i (some 0) })

-- The move constructor.
unfoldable pub move_construct : (i rhs : ℕ) → Objects → Option Objects
move_construct i rhs st = st.objects rhs >>= λ p.
    some (record st { objects = at (at st.objects i (some p)) rhs (some 0) })

-- What a destructor and an assignment do to the header that the object holds.
unfoldable pub release : ℕ → Headers → Option Headers
unfolding aligned_delete
release p h = if is_defaulted p then some h else aligned_delete p h

-- The move assignment.
unfoldable pub move_assign : (i rhs : ℕ) → Objects → Option Objects
unfolding release
move_assign i rhs st = if i == rhs then some st else (do
  p ← st.objects i
  q ← st.objects rhs
  h ← release p st.headers
  some (record { headers = h; objects = at (at st.objects i (some q)) rhs (some 0) }))

-- The destructor.
unfoldable pub destroy : ℕ → Objects → Option Objects
unfolding release
destroy i st = do
  p ← st.objects i
  h ← release p st.headers
  some (record { headers = h; objects = at st.objects i none })

pub data Operation : Type 0 where
  constructs : (i p capacity : ℕ) → Operation
  moves : (i rhs : ℕ) → Operation
  assigns : (i rhs : ℕ) → Operation
  destroys : (i : ℕ) → Operation

unfoldable pub operate : Operation → Objects → Option Objects
unfolding construct move_construct move_assign destroy
operate (constructs i p capacity) st = construct i p capacity st
operate (moves i rhs) st = move_construct i rhs st
operate (assigns i rhs) st = move_assign i rhs st
operate (destroys i) st = destroy i st
