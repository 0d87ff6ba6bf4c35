-- ===== src/Tls/Session/Sent.antt =====
-- The data that a channel emits goes to the stream, in the coroutines of src/tls/tls.cpp.
use mathlib.Core.List.{append_assoc, append-nil}
use fiona.Base.{
  ◌>>=◌, ℕ, zero, suc, ◌≡◌, refl, sym, ap, ◌∙◌, true, false, Option, none, some, List, [], ◌∷◌,
  ◌++◌, length, if◌then◌else◌, if_cases, ltb,
}
use fiona.Tls.{
  Buffer, TlsCallbacks, filled, fill_back, next_buffer, start_buffer, turn, record_loop,
  tls_record_received, tls_emit_data, tls_alert,
}
use fiona.Tls.Session.{Callback, emits, receives, alerts, call_back, call_back_all}
use fiona.Tls.Session.Recv.{emitted}

-- What is done, if it is, leaves the data to send.
abbrev SameData : TlsCallbacks → Option (TlsCallbacks × List ℕ) → Type 0
SameData cb none = Unit
SameData cb (some q) = q.0.send_buf ≡ cb.send_buf

start_buffer-SameData :
    (cb : TlsCallbacks) (plaintext : List ℕ) → SameData cb (start_buffer cb plaintext)
unfolding start_buffer
start_buffer-SameData cb plaintext = go (next_buffer cb)
  where
    go :
        (o : Option (Buffer × List Buffer))
        → SameData cb (
            o >>= λ q.
            if ltb 0 q.0.capacity
            then (let (b, rest) = filled q.0 plaintext in
                some (
                  record cb { input_sequence = cb.input_sequence ++ b ∷ []; output_sequence = q.1 },
                  rest,
                ))
            else none)
    go none = tt
    go (some q) = if_cases (SameData cb) (ltb 0 q.0.capacity) refl (λ e. tt)

turn-SameData : (cb : TlsCallbacks) (plaintext : List ℕ) → SameData cb (turn cb plaintext)
unfolding turn
turn-SameData cb plaintext = go (fill_back cb.input_sequence plaintext)
  where
    go :
        (o : Option (List Buffer × List ℕ))
        → SameData cb (elim o [
          | some q ↦ some (record cb { input_sequence = q.0 }, q.1)
          | none ↦ start_buffer cb plaintext
        ])
    go none = start_buffer-SameData cb plaintext
    go (some q) = refl

-- What is done, if it is, adds these bytes to the data to send.
abbrev pub Adds : TlsCallbacks → List ℕ → Option TlsCallbacks → Type 0
Adds cb bytes none = Unit
Adds cb bytes (some d) = d.send_buf ≡ cb.send_buf ++ bytes

record_loop-Adds :
    (fuel : ℕ) (cb : TlsCallbacks) (plaintext : List ℕ) → Adds cb [] (record_loop fuel cb plaintext)
unfolding record_loop
record_loop-Adds fuel cb [] = sym (append-nil cb.send_buf)
record_loop-Adds zero cb (x ∷ xs) = tt
record_loop-Adds (suc fuel) cb (x ∷ xs) =
    go (turn cb (x ∷ xs)) (turn-SameData cb (x ∷ xs)) (record_loop-Adds fuel)
  where
    go :
        (o : Option (TlsCallbacks × List ℕ))
        → SameData cb o
        → ((d : TlsCallbacks) (rest : List ℕ) → Adds d [] (record_loop fuel d rest))
        → Adds cb [] (o >>= λ q. record_loop fuel q.0 q.1)
    go none s h = tt
    go (some q) s h = more (record_loop fuel q.0 q.1) (h q.0 q.1)
      where
        more : (o : Option TlsCallbacks) → Adds q.0 [] o → Adds cb [] o
        more none a = tt
        more (some d) a = a ∙ ap (λ ys. ys ++ []) s

call_back-Adds : (k : Callback) (cb : TlsCallbacks) → Adds cb (emitted (k ∷ [])) (call_back k cb)
unfolding call_back tls_emit_data tls_alert tls_record_received
call_back-Adds (emits bytes) cb = ap (λ ys. cb.send_buf ++ ys) (sym (append-nil bytes))
call_back-Adds (receives plaintext) cb =
    record_loop-Adds (length plaintext) (record cb { received_record = true }) plaintext
call_back-Adds (alerts true) cb = sym (append-nil cb.send_buf)
call_back-Adds (alerts false) cb = sym (append-nil cb.send_buf)

emitted-cons :
    (k : Callback) (ks : List Callback) → emitted (k ∷ ks) ≡ emitted (k ∷ []) ++ emitted ks
emitted-cons (emits bytes) ks = ap (λ ys. ys ++ emitted ks) (sym (append-nil bytes))
emitted-cons (receives plaintext) ks = refl
emitted-cons (alerts c) ks = refl

pub call_back_all-Adds :
    (ks : List Callback) (cb : TlsCallbacks) → Adds cb (emitted ks) (call_back_all ks cb)
unfolding call_back_all
call_back_all-Adds [] cb = sym (append-nil cb.send_buf)
call_back_all-Adds (k ∷ ks) cb = go (call_back k cb) (call_back-Adds k cb) (call_back_all-Adds ks)
  where
    go :
        (o : Option TlsCallbacks)
        → Adds cb (emitted (k ∷ [])) o
        → ((d : TlsCallbacks) → Adds d (emitted ks) (call_back_all ks d))
        → Adds cb (emitted (k ∷ ks)) (o >>= call_back_all ks)
    go none a h = tt
    go (some d) a h = more (call_back_all ks d) (h d)
      where
        more : (o : Option TlsCallbacks) → Adds d (emitted ks) o → Adds cb (emitted (k ∷ ks)) o
        more none b = tt
        more (some e) b =
            b
            ∙ ap (λ ys. ys ++ emitted ks) a
            ∙ append_assoc cb.send_buf (emitted (k ∷ [])) (emitted ks)
            ∙ ap (λ ys. cb.send_buf ++ ys) (sym (emitted-cons k ks))
