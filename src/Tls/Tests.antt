-- ===== src/Tls/Tests.antt =====
-- A record of five bytes for an input with one byte of room and a spare buffer of two bytes.
use fiona.Tls.Records.{IsReady, Received, tls_record_received-Received}
use fiona.Base.{◌≡◌, refl, false, true, some, [], ◌∷◌, arith}
use fiona.Tls.{TlsCallbacks, tls_emit_data, tls_alert, tls_record_received}

abbrev callbacks : TlsCallbacks
callbacks = record {
  send_buf = [];
  input_sequence = record { bytes = 7 ∷ 8 ∷ []; capacity = 3 } ∷ [];
  output_sequence = record { bytes = 1 ∷ []; capacity = 2 } ∷ [];
  received_record = false;
  close_notify_received = false;
}

callbacks-IsReady : IsReady callbacks
callbacks-IsReady = record {
  input = (record { positive = omega arith; within = omega arith }, tt);
  output = (omega arith, tt);
  supply = omega arith;
}

-- The third buffer is as large as the first.
five_bytes :
    tls_record_received (1 ∷ 2 ∷ 3 ∷ 4 ∷ 5 ∷ []) callbacks
    ≡ some (record callbacks {
      input_sequence =
          record { bytes = 7 ∷ 8 ∷ 1 ∷ []; capacity = 3 }
          ∷ record { bytes = 2 ∷ 3 ∷ []; capacity = 2 }
          ∷ record { bytes = 4 ∷ 5 ∷ []; capacity = 3 }
          ∷ [];
      output_sequence = [];
      received_record = true;
    })
unfolding tls_record_received
five_bytes = refl

goodbye : (tls_alert true (tls_emit_data (21 ∷ []) callbacks)).close_notify_received ≡ true
unfolding tls_alert tls_emit_data
goodbye = refl

tls_record_received-Received_example :
    (d : TlsCallbacks) × (tls_record_received (1 ∷ 2 ∷ 3 ∷ 4 ∷ 5 ∷ []) callbacks ≡ some d)
    × Received (record callbacks { received_record = true }) (1 ∷ 2 ∷ 3 ∷ 4 ∷ 5 ∷ []) d
tls_record_received-Received_example =
    tls_record_received-Received (1 ∷ 2 ∷ 3 ∷ 4 ∷ 5 ∷ []) callbacks callbacks-IsReady
