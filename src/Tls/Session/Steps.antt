-- ===== src/Tls/Session/Steps.antt =====
-- A call of the channel of src/tls/tls.cpp that hands no record over.
use mathlib.Core.List.{append_assoc, append-nil}
use fiona.Base.{◌≡◌, refl, sym, ◌∙◌, true, false, some, List, [], ◌∷◌, ◌++◌}
use fiona.Tls.{TlsCallbacks, tls_emit_data, tls_alert}
use fiona.Tls.Session.{Callback, emits, receives, alerts, call_back, call_back_all}
use fiona.Tls.Session.Recv.{has_record, emitted}

-- The callbacks of a call without a record leave the buffers.
pub record Quiet (ks : List Callback) (cb d : TlsCallbacks) : Type 0 where
  pub emits : d.send_buf ≡ cb.send_buf ++ emitted ks
  pub input : d.input_sequence ≡ cb.input_sequence
  pub output : d.output_sequence ≡ cb.output_sequence
  pub received : d.received_record ≡ cb.received_record

pub call_back_all-Quiet :
    (ks : List Callback) (cb : TlsCallbacks)
    → has_record ks ≡ false
    → (d : TlsCallbacks) × (call_back_all ks cb ≡ some d) × Quiet ks cb d
unfolding call_back_all call_back tls_emit_data tls_alert
call_back_all-Quiet [] cb e = (
  cb,
  refl,
  record { emits = sym (append-nil cb.send_buf); input = refl; output = refl; received = refl },
)
call_back_all-Quiet (emits bytes ∷ ks) cb e =
    let (d, f, q) = call_back_all-Quiet ks (tls_emit_data bytes cb) e in
    (
      d,
      f,
      record {
        emits = q.emits ∙ append_assoc cb.send_buf bytes (emitted ks);
        input = q.input;
        output = q.output;
        received = q.received;
      },
    )
call_back_all-Quiet (receives bytes ∷ ks) cb e = absurd (cc)
call_back_all-Quiet (alerts true ∷ ks) cb e =
    let (d, f, q) = call_back_all-Quiet ks (tls_alert true cb) e in
    (d, f, record { emits = q.emits; input = q.input; output = q.output; received = q.received })
call_back_all-Quiet (alerts false ∷ ks) cb e =
    let (d, f, q) = call_back_all-Quiet ks cb e in
    (d, f, record { emits = q.emits; input = q.input; output = q.output; received = q.received })
