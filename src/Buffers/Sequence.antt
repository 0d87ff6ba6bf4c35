-- ===== src/Buffers/Sequence.antt =====
-- The copying of a sequence of received buffers: src/buffer.cpp. A view of a sequence is the list of
-- the readable bytes of its buffers, in order; a span that is written to is the list of its bytes.
pub mod Copy
pub mod Tests
use fiona.Base.{
  ℕ, ◌+◌, Bool, true, false, List, [], ◌∷◌, ◌++◌, length, take, drop, replicate, ltb, if◌then◌else◌,
}

-- `buffer_size`
pub buffer_size : List (List ℕ) → ℕ
buffer_size [] = 0
buffer_size (b ∷ bs) = length b + buffer_size bs

abbrev pub empty : List ℕ → Bool
empty [] = true
empty (x ∷ xs) = false

-- `std::min`
abbrev pub min : ℕ → ℕ → ℕ
min a b = if ltb b a then b else a

-- `buffer_copy`: the span after the copy, and the number of bytes copied.
pub buffer_copy : (dst : List ℕ) → List (List ℕ) → List ℕ × ℕ
buffer_copy dst [] = (dst, 0)
buffer_copy dst (b ∷ bs) =
    let m = min (length dst) (length b) in
    let rest = drop m dst in
    let (copied, n) = buffer_copy (if empty b then dst else rest) bs in
    if empty b
    then (copied, n)
    else if ltb m (length b)
    then (take m b ++ rest, m)
    else if empty rest
    then (take m b ++ rest, m)
    else (take m b ++ copied, m + n)

-- `recv_buffer_sequence_view::to_bytes`; `to_string` does the same.
pub to_bytes : List (List ℕ) → List ℕ
unfolding buffer_size buffer_copy
to_bytes bufs = (buffer_copy (replicate (buffer_size bufs) 0) bufs).0
