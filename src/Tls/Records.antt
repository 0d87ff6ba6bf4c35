-- ===== src/Tls/Records.antt =====
-- The plaintext of a record goes into the input sequence.
use mathlib.Core.List.{append_assoc, append-nil}
use fiona.Base.{
  ℕ, zero, suc, ◌+◌, ◌≤◌, ◌≡◌, refl, sym, ap, ◌∙◌, true, Option, none, some, List, [], ◌∷◌, ◌++◌,
  length, length-append, ltb, All, arith,
}
use fiona.Tls.{
  Buffer, TlsCallbacks, filled, fill_back, next_buffer, start_buffer, turn, record_loop,
  tls_record_received,
}
use fiona.Tls.Fill.{
  contents, Fits, contents-append, All-snoc, Moves, filled-Moves, Done, fill_back-Done,
}

-- Each buffer fits, each spare one can hold a byte, and there is a buffer.
pub record IsReady (cb : TlsCallbacks) : Type 0 where
  pub input : All Fits cb.input_sequence
  pub output : All (λ b. 1 ≤ b.capacity) cb.output_sequence
  pub supply : 1 ≤ length cb.input_sequence + length cb.output_sequence

-- What a turn does.
record Turned (cb : TlsCallbacks) (plaintext : List ℕ) (cb' : TlsCallbacks) (rest : List ℕ)
    : Type 0 where
  pub moves : Moves (contents cb.input_sequence) plaintext cb'.input_sequence rest
  pub ready : IsReady cb'
  pub received : cb'.received_record ≡ cb.received_record

abbrev Turns : TlsCallbacks → List ℕ → Option (TlsCallbacks × List ℕ) → Type 0
Turns cb plaintext o = (q : TlsCallbacks × List ℕ) × (o ≡ some q) × Turned cb plaintext q.0 q.1

-- A buffer is started at the end of the sequence.
started :
    (cb : TlsCallbacks) (plaintext : List ℕ) (capacity : ℕ) (os : List Buffer)
    → IsReady cb
    → 1 ≤ length plaintext
    → 1 ≤ capacity
    → All (λ b. 1 ≤ b.capacity) os
    → let (b, rest) = filled (record { bytes = []; capacity = capacity }) plaintext in
      Turned cb plaintext
        (record cb { input_sequence = cb.input_sequence ++ b ∷ []; output_sequence = os })
        rest
started cb plaintext capacity os r l c a =
    let empty : Buffer = record { bytes = []; capacity = capacity } in
    let m =
      filled-Moves empty plaintext (record { positive = c; within = omega arith })
        (omega (arith, c)) l in
    let (b, rest) = filled empty plaintext in
    record {
      moves = record {
        bytes =
            ap (λ ys. ys ++ rest) (contents-append cb.input_sequence (b ∷ []))
            ∙ append_assoc (contents cb.input_sequence) (contents (b ∷ [])) rest
            ∙ ap (λ ys. contents cb.input_sequence ++ ys) m.bytes;
        less = m.less;
        fit = All-snoc Fits cb.input_sequence b r.input m.fit.0;
        used = omega (arith, length-append cb.input_sequence (b ∷ []));
      };
      ready = record {
        input = All-snoc Fits cb.input_sequence b r.input m.fit.0;
        output = a;
        supply = omega (arith, length-append cb.input_sequence (b ∷ []));
      };
      received = refl;
    }

record Next (o : Option (Buffer × List Buffer)) : Type 0 where
  pub capacity : ℕ
  pub others : List Buffer
  pub is : o ≡ some (record { bytes = []; capacity = capacity }, others)
  pub positive : 1 ≤ capacity
  pub output : All (λ b. 1 ≤ b.capacity) others

next_buffer-Next : (cb : TlsCallbacks) → IsReady cb → Next (next_buffer cb)
unfolding next_buffer
next_buffer-Next cb r = go cb.output_sequence cb.input_sequence r.input r.output r.supply
  where
    go :
        (os bs : List Buffer)
        → All Fits bs
        → All (λ b. 1 ≤ b.capacity) os
        → 1 ≤ length bs + length os
        → Next (elim os [
          | [] ↦ elim bs [
            | [] ↦ none
            | b ∷ cs ↦ some (record { bytes = []; capacity = b.capacity }, [])
          ]
          | o ∷ ps ↦ some (record o { bytes = [] }, ps)
        ])
    go [] [] a p s = absurd (omega arith)
    go [] (b ∷ bs) a p s = record {
      capacity = b.capacity;
      others = [];
      is = refl;
      positive = a.0.positive;
      output = tt;
    }
    go (o ∷ os) bs a p s = record {
      capacity = o.capacity;
      others = os;
      is = refl;
      positive = p.0;
      output = p.1;
    }

start_buffer-Turns :
    (cb : TlsCallbacks) (plaintext : List ℕ)
    → IsReady cb
    → 1 ≤ length plaintext
    → Turns cb plaintext (start_buffer cb plaintext)
unfolding start_buffer
start_buffer-Turns cb plaintext r l =
    let n = next_buffer-Next cb r in
    let positive : ltb 0 n.capacity ≡ true = ground (arith, n.positive) in
    (_, rw (n.is, positive) refl, started cb plaintext n.capacity n.others r l n.positive n.output)

turn-Turns :
    (cb : TlsCallbacks) (plaintext : List ℕ)
    → IsReady cb
    → 1 ≤ length plaintext
    → Turns cb plaintext (turn cb plaintext)
unfolding turn
turn-Turns cb plaintext r l =
    go (fill_back cb.input_sequence plaintext)
      (fill_back-Done cb.input_sequence plaintext r.input l)
  where
    go :
        (o : Option (List Buffer × List ℕ))
        → Done (contents cb.input_sequence) plaintext o
        → Turns cb plaintext (elim o [
          | some q ↦ some (record cb { input_sequence = q.0 }, q.1)
          | none ↦ start_buffer cb plaintext
        ])
    go none d = start_buffer-Turns cb plaintext r l
    go (some q) m = (
      (record cb { input_sequence = q.0 }, q.1),
      refl,
      record {
        moves = m;
        ready = record { input = m.fit; output = r.output; supply = omega (arith, m.used) };
        received = refl;
      },
    )

-- What the loop leaves.
pub record Received (cb : TlsCallbacks) (plaintext : List ℕ) (d : TlsCallbacks) : Type 0 where
  pub bytes : contents d.input_sequence ≡ contents cb.input_sequence ++ plaintext
  pub ready : IsReady d
  pub received : d.received_record ≡ cb.received_record

after_turn :
    (cb d : TlsCallbacks) (plaintext : List ℕ) (q : TlsCallbacks × List ℕ)
    → Turned cb plaintext q.0 q.1
    → Received q.0 q.1 d
    → Received cb plaintext d
after_turn cb d plaintext q t r = record {
  bytes = r.bytes ∙ t.moves.bytes;
  ready = r.ready;
  received = r.received ∙ t.received;
}

record_loop-Received :
    (fuel : ℕ) (cb : TlsCallbacks) (plaintext : List ℕ)
    → IsReady cb
    → length plaintext ≤ fuel
    → (d : TlsCallbacks) × (record_loop fuel cb plaintext ≡ some d) × Received cb plaintext d
unfolding record_loop
record_loop-Received fuel cb [] r l = (
  cb,
  refl,
  record { bytes = sym (append-nil (contents cb.input_sequence)); ready = r; received = refl },
)
record_loop-Received zero cb (x ∷ xs) r l = absurd (omega arith)
record_loop-Received (suc fuel) cb (x ∷ xs) r l =
    let (q, e, t) = turn-Turns cb (x ∷ xs) r (omega arith) in
    let (d, f, s) = record_loop-Received fuel q.0 q.1 t.ready (omega (arith, t.moves.less)) in
    (d, rw (e) f, after_turn cb d (x ∷ xs) q t s)

-- Where each buffer of the input fits, each spare buffer can hold a byte and there is a buffer, the
-- receipt of a record ends without a failed assertion: the plaintext is appended to the readable
-- bytes of the input, in order and whole, whatever the capacities; the buffers are again as they were
-- required to be, and the record is marked as received.
pub tls_record_received-Received :
    (plaintext : List ℕ) (cb : TlsCallbacks)
    → IsReady cb
    → (d : TlsCallbacks) × (tls_record_received plaintext cb ≡ some d)
      × Received (record cb { received_record = true }) plaintext d
unfolding tls_record_received
tls_record_received-Received plaintext cb r =
    record_loop-Received (length plaintext) (record cb { received_record = true }) plaintext
      (record { input = r.input; output = r.output; supply = r.supply }) (omega arith)
