-- ===== src/Tls.antt =====
-- `tls_callbacks` of src/tls/tls.cpp: what Botan's channel hands back to the stream. Botan itself is not
-- part of the model; its calls of these functions are their arguments. Bytes are numbers.
pub mod Fill
pub mod Records
pub mod Session
pub mod Credentials
pub mod Tests
use fiona.Base.{
  ◌>>=◌, ℕ, zero, suc, ◌+◌, ◌-◌, Bool, true, false, Option, none, some, List, [], ◌∷◌, ◌++◌, length,
  take, drop, ltb, if◌then◌else◌,
}
use fiona.Buffers.Sequence.{min}

-- A received buffer, with its readable bytes.
pub record Buffer : Type 0 where
  pub bytes : List ℕ
  pub capacity : ℕ

-- `tls_callbacks`; the two sequences are lists of their buffers.
pub record TlsCallbacks : Type 0 where
  pub send_buf : List ℕ
  pub input_sequence : List Buffer
  pub output_sequence : List Buffer
  pub received_record : Bool
  pub close_notify_received : Bool

-- `tls_emit_data`
unfoldable pub tls_emit_data : List ℕ → TlsCallbacks → TlsCallbacks
tls_emit_data bytes cb = record cb { send_buf = cb.send_buf ++ bytes }

-- `tls_alert`, on whether the alert is a close_notify.
unfoldable pub tls_alert : (close_notify : Bool) → TlsCallbacks → TlsCallbacks
tls_alert close_notify cb = if close_notify then record cb { close_notify_received = true } else cb

-- The size of `spare_capacity_mut()`
abbrev pub spare : Buffer → ℕ
spare b = b.capacity - length b.bytes

-- The copy into the spare capacity of a buffer, and the plaintext that is left.
abbrev pub filled : Buffer → List ℕ → Buffer × List ℕ
filled b plaintext =
    let n = min (spare b) (length plaintext) in
    (record b { bytes = b.bytes ++ take n plaintext }, drop n plaintext)

-- The branch that fills the last buffer of the sequence; `none` where there is none or it is full.
unfoldable pub fill_back : List Buffer → List ℕ → Option (List Buffer × List ℕ)
fill_back [] plaintext = none
fill_back (b ∷ []) plaintext =
    if ltb 0 (spare b) then (let (b', rest) = filled b plaintext in some (b' ∷ [], rest)) else none
fill_back (b ∷ c ∷ bs) plaintext = fill_back (c ∷ bs) plaintext >>= λ q. some (b ∷ q.0, q.1)

-- The next empty buffer: one that was read before, or a new one as large as the first of the input;
-- `none` where there is neither.
unfoldable pub next_buffer : TlsCallbacks → Option (Buffer × List Buffer)
next_buffer cb = elim cb.output_sequence [
  | [] ↦ elim cb.input_sequence [
    | [] ↦ none
    | b ∷ bs ↦ some (record { bytes = []; capacity = b.capacity }, [])
  ]
  | o ∷ os ↦ some (record o { bytes = [] }, os)
]

-- The branch that starts a buffer; a buffer without capacity fails an assertion.
unfoldable pub start_buffer : TlsCallbacks → List ℕ → Option (TlsCallbacks × List ℕ)
unfolding next_buffer
start_buffer cb plaintext = next_buffer cb >>= λ q.
    if ltb 0 q.0.capacity
    then (let (b, rest) = filled q.0 plaintext in
        some
          (record cb { input_sequence = cb.input_sequence ++ b ∷ []; output_sequence = q.1 }, rest))
    else none

-- A turn of the loop of `tls_record_received`.
unfoldable pub turn : TlsCallbacks → List ℕ → Option (TlsCallbacks × List ℕ)
unfolding fill_back start_buffer
turn cb plaintext = elim (fill_back cb.input_sequence plaintext) [
  | some q ↦ some (record cb { input_sequence = q.0 }, q.1)
  | none ↦ start_buffer cb plaintext
]

-- The loop of `tls_record_received`, for at most `fuel` turns.
unfoldable pub record_loop : (fuel : ℕ) → TlsCallbacks → List ℕ → Option TlsCallbacks
unfolding turn
record_loop fuel cb [] = some cb
record_loop zero cb (x ∷ xs) = none
record_loop (suc fuel) cb (x ∷ xs) = turn cb (x ∷ xs) >>= λ q. record_loop fuel q.0 q.1

-- `tls_record_received`: each turn takes at least a byte, so the length is fuel enough.
unfoldable pub tls_record_received : List ℕ → TlsCallbacks → Option TlsCallbacks
unfolding record_loop
tls_record_received plaintext cb =
    record_loop (length plaintext) (record cb { received_record = true }) plaintext
