-- ===== src/Tls/Session/Early.antt =====
-- A record that comes with the end of the peer's handshake, in `server::async_handshake` of
-- src/tls/tls.cpp.
use fiona.Base.{
  ◌>>=◌, ℕ, ◌≡◌, refl, ◌∙◌, ap, false, Result, ok, Option, none, some, List, [], ◌∷◌, ◌++◌,
}
use fiona.Tls.{
  Buffer, TlsCallbacks, fill_back, next_buffer, start_buffer, turn, record_loop,
  tls_record_received,
}
use fiona.Tls.Fill.{contents}
use fiona.Tls.Session.{
  Callback, receives, Channel, call_back, call_back_all, Session, Answer, aborts,
}
use fiona.Tls.Session.Coroutines.{call, uncaught}
use fiona.Tls.Session.Recv.{has_record}
use fiona.Tls.Session.Steps.{call_back_all-Quiet}
use fiona.Tls.Session.Server.{handshake_loop}

call_back_all-append :
    (ks js : List Callback) (cb : TlsCallbacks)
    → call_back_all (ks ++ js) cb ≡ (call_back_all ks cb >>= call_back_all js)
unfolding call_back_all
call_back_all-append [] js cb = refl
call_back_all-append (k ∷ ks) js cb = go (call_back k cb) (call_back_all-append ks js)
  where
    go :
        (o : Option TlsCallbacks)
        → ((d : TlsCallbacks)
            → call_back_all (ks ++ js) d ≡ (call_back_all ks d >>= call_back_all js))
        → (o >>= call_back_all (ks ++ js)) ≡ ((o >>= call_back_all ks) >>= call_back_all js)
    go none h = refl
    go (some d) h = h d

-- A record for a stream without any buffer.
no_buffer :
    (x : ℕ) (xs : List ℕ) (cb : TlsCallbacks)
    → cb.input_sequence ≡ []
    → cb.output_sequence ≡ []
    → tls_record_received (x ∷ xs) cb ≡ none
unfolding tls_record_received record_loop turn fill_back start_buffer next_buffer
no_buffer x xs cb e f = rw (e, f) refl

module _ (C : Channel) (answer : List (List ℕ) → Result ℕ ℕ) where
  open C use {Chan, received_data, is_handshake_complete}

  -- Where the stream has no buffer yet and the channel hands over a record that is not empty, with the
  -- data that its handshake still waits for, the handshake of a server fails an assertion, whatever
  -- the channel calls back before that record and after it.
  pub early_record_aborts :
      (bufs : List Buffer) (incoming : List Answer) (s : Session Chan) (ks js : List Callback)
      (x : ℕ) (xs : List ℕ)
      → is_handshake_complete s.channel ≡ false
      → (received_data s.channel (contents bufs)).0 ≡ ks ++ receives (x ∷ xs) ∷ js
      → has_record ks ≡ false
      → s.callbacks.input_sequence ≡ []
      → s.callbacks.output_sequence ≡ []
      → handshake_loop C answer (ok bufs ∷ incoming) s ≡ aborts
  unfolding handshake_loop uncaught call call_back_all call_back
  early_record_aborts bufs incoming s ks js x xs c e h i o =
      let (d, f, q) = call_back_all-Quiet ks s.callbacks h in
      let dead = no_buffer x xs d (q.input ∙ i) (q.output ∙ o) in
      let all : call_back_all (received_data s.channel (contents bufs)).0 s.callbacks ≡ none =
        ap (λ l. call_back_all l s.callbacks) e
        ∙ call_back_all-append ks (receives (x ∷ xs) ∷ js) s.callbacks
        ∙ rw (f, dead) refl in
      rw (c, all) refl
