-- ===== src/Tls/Session/Recv.antt =====
-- The callbacks of a channel and `async_recv_impl` of src/tls/tls.cpp, on the bytes alone.
use mathlib.Core.List.{append_assoc, append-nil}
use fiona.Base.{
  ℕ, ◌≡◌, refl, sym, ap, ◌∙◌, ◌==◌, Bool, true, false, ◌||◌, Result, ok, err, Option, none, some,
  List, [], ◌∷◌, ◌++◌, if◌then◌else◌,
}
use fiona.Tls.{Buffer, TlsCallbacks, tls_emit_data, tls_alert}
use fiona.Tls.Fill.{contents}
use fiona.Tls.Records.{IsReady, Received, tls_record_received-Received}
use fiona.Tls.Session.{
  Callback, emits, receives, alerts, Thrown, botan, other, Channel, call_back, call_back_all,
  TlsError, botan_error, from_errno, Session, Answer, Run, returns, waits, raises, aborts,
}

-- The plaintext that the callbacks of a call hand over.
abbrev pub plaintext : List Callback → List ℕ
plaintext [] = []
plaintext (emits bytes ∷ ks) = plaintext ks
plaintext (receives bytes ∷ ks) = bytes ++ plaintext ks
plaintext (alerts close_notify ∷ ks) = plaintext ks

-- Whether there is a record among them.
abbrev pub has_record : List Callback → Bool
has_record [] = false
has_record (emits bytes ∷ ks) = has_record ks
has_record (receives bytes ∷ ks) = true
has_record (alerts close_notify ∷ ks) = has_record ks

-- The data that they hand over to be sent.
abbrev pub emitted : List Callback → List ℕ
emitted [] = []
emitted (emits bytes ∷ ks) = bytes ++ emitted ks
emitted (receives bytes ∷ ks) = emitted ks
emitted (alerts close_notify ∷ ks) = emitted ks

-- What the callbacks of a call do to a stream that has room for plaintext.
pub record CalledBack (ks : List Callback) (cb d : TlsCallbacks) : Type 0 where
  pub bytes : contents d.input_sequence ≡ contents cb.input_sequence ++ plaintext ks
  pub received : d.received_record ≡ (has_record ks || cb.received_record)
  pub ready : IsReady d

abbrev pub CallsBack : List Callback → TlsCallbacks → Option TlsCallbacks → Type 0
CallsBack ks cb o = (d : TlsCallbacks) × (o ≡ some d) × CalledBack ks cb d

true_or : (b c : Bool) → c ≡ true → (b || c) ≡ true
true_or false c e = e
true_or true c e = refl

after_record :
    (cb : TlsCallbacks) (bytes : List ℕ) (ks : List Callback) (d e : TlsCallbacks)
    → Received (record cb { received_record = true }) bytes d
    → CalledBack ks d e
    → CalledBack (receives bytes ∷ ks) cb e
after_record cb bytes ks d e r c = record {
  bytes =
      c.bytes
      ∙ ap (λ ys. ys ++ plaintext ks) r.bytes
      ∙ append_assoc (contents cb.input_sequence) bytes (plaintext ks);
  received = c.received ∙ true_or (has_record ks) d.received_record r.received;
  ready = c.ready;
}

-- Where a stream has room for plaintext, the callbacks of a call of the channel end without a failed
-- assertion: the plaintext of its records is appended to the input whole and in order, whatever else
-- is called between them, and the stream has room again.
pub call_back_all-CallsBack :
    (ks : List Callback) (cb : TlsCallbacks) → IsReady cb → CallsBack ks cb (call_back_all ks cb)
unfolding call_back_all call_back tls_emit_data tls_alert
call_back_all-CallsBack [] cb r = (
  cb,
  refl,
  record { bytes = sym (append-nil (contents cb.input_sequence)); received = refl; ready = r },
)
call_back_all-CallsBack (emits bytes ∷ ks) cb r =
    let (d, e, c) =
      call_back_all-CallsBack ks (tls_emit_data bytes cb)
        (record { input = r.input; output = r.output; supply = r.supply }) in
    (d, e, record { bytes = c.bytes; received = c.received; ready = c.ready })
call_back_all-CallsBack (receives bytes ∷ ks) cb r =
    let (d, e, c) = tls_record_received-Received bytes cb r in
    let (f, g, h) = call_back_all-CallsBack ks d c.ready in
    (f, rw (e, g) refl, after_record cb bytes ks d f c h)
call_back_all-CallsBack (alerts true ∷ ks) cb r =
    let (d, e, c) =
      call_back_all-CallsBack ks (tls_alert true cb)
        (record { input = r.input; output = r.output; supply = r.supply }) in
    (d, e, record { bytes = c.bytes; received = c.received; ready = c.ready })
call_back_all-CallsBack (alerts false ∷ ks) cb r =
    let (d, e, c) = call_back_all-CallsBack ks cb r in
    (d, e, record { bytes = c.bytes; received = c.received; ready = c.ready })

-- A receiver of plaintext, with neither buffers nor capacities: the bytes that no `async_recv` has
-- returned, and whether it has what the next one waits for.
pub record Reader (Chan : Type 0) : Type 0 where
  pub pending : List ℕ
  pub received : Bool
  pub channel : Chan

-- What an `async_recv` comes to.
pub data Outcome (Chan : Type 0) : Type 0 where
  delivers : List ℕ → Chan → List Answer → Outcome Chan
  fails : TlsError → Reader Chan → List Answer → Outcome Chan
  stops : Reader Chan → Outcome Chan
  throws : Thrown → Reader Chan → List Answer → Outcome Chan

-- A session as a receiver.
abbrev pub reader : {Chan : Type 0} → Session Chan → Reader Chan
reader s = record {
  pending = contents s.callbacks.input_sequence;
  received = s.callbacks.received_record;
  channel = s.channel;
}

-- A run as an outcome; a failed assertion is none.
abbrev pub outcome :
    {Chan : Type 0} → Run Chan (Result TlsError (List Buffer)) → Option (Outcome Chan)
outcome (returns (ok bufs) s incoming) = some (delivers (contents bufs) s.channel incoming)
outcome (returns (err e) s incoming) = some (fails e (reader s) incoming)
outcome (waits s) = some (stops (reader s))
outcome (raises thrown s incoming) = some (throws thrown (reader s) incoming)
outcome aborts = none

module _ (C : Channel) where
  open C use {Chan}

  -- The data of the channel goes to the bytes.
  abbrev pub read : List ℕ → Reader Chan → Option Thrown × Reader Chan
  read bytes r =
      let (ks, thrown, ch) = C.received_data r.channel bytes in
      (
        thrown,
        record {
          pending = r.pending ++ plaintext ks;
          received = has_record ks || r.received;
          channel = ch;
        },
      )

  -- The buffers of an answer, up to an end of file.
  abbrev pub read_bufs : List Buffer → Reader Chan → Option Thrown × Reader Chan
  read_bufs [] r = (none, r)
  read_bufs (b ∷ bs) r =
      if b.capacity == 0
      then (none, record r { received = true })
      else (let q = read b.bytes r in elim q.0 [ none ↦ read_bufs bs q.1 | some thrown ↦ q ])

  abbrev pub read_answer :
      List Answer → (Reader Chan → Outcome Chan) → Option Thrown × Reader Chan → Outcome Chan
  read_answer incoming go (none, r) = go r
  read_answer incoming go (some (botan e), r) = fails (botan_error e) r incoming
  read_answer incoming go (some other, r) = throws other r incoming

  -- The answers are read until there is a record or an end of file.
  abbrev pub read_all : List Answer → Reader Chan → Outcome Chan
  read_all [] r = if r.received then delivers r.pending r.channel [] else stops r
  read_all (err e ∷ incoming) r =
      if r.received
      then delivers r.pending r.channel (err e ∷ incoming)
      else fails (from_errno e) r incoming
  read_all (ok bufs ∷ incoming) r =
      if r.received
      then delivers r.pending r.channel (ok bufs ∷ incoming)
      else read_answer incoming (read_all incoming) (read_bufs bufs r)
