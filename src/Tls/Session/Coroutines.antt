-- ===== src/Tls/Session/Coroutines.antt =====
-- `async_recv_impl` and `async_send_impl` of src/tls/tls.cpp, as functions of the answers of the stream,
-- whose errors are errnos, and the steps that the coroutines share.
use fiona.Base.{
  ◌>>=◌, ℕ, ◌==◌, false, true, Result, ok, err, Option, none, some, List, [], ◌∷◌, ◌++◌, length,
  if◌then◌else◌,
}
use fiona.Tls.{Buffer}
use fiona.Tls.Session.{
  Callback, Thrown, botan, other, Channel, call_back_all, TlsError, botan_error, from_errno,
  Session, Answer, Run, returns, waits, raises, aborts,
}

module _ {Chan : Type 0} where
  -- The callbacks of a call of the channel, and what the call throws.
  unfoldable pub call :
      List Callback × Option Thrown × Chan → Session Chan → Option (Option Thrown × Session Chan)
  unfolding call_back_all
  call (ks, thrown, ch) s = call_back_all ks s.callbacks >>= λ cb.
      some (thrown, record s { callbacks = cb; channel = ch })

  -- What comes after a call whose exceptions are not caught.
  unfoldable pub uncaught :
      {A : Type 0}
      → List Answer
      → (Session Chan → Run Chan A)
      → Option (Option Thrown × Session Chan)
      → Run Chan A
  uncaught incoming go none = aborts
  uncaught incoming go (some (none, s)) = go s
  uncaught incoming go (some (some thrown, s)) = raises thrown s incoming

  -- The buffer of an end of file goes to the input, and ends the loops.
  abbrev pub hit_eof : Buffer → Session Chan → Session Chan
  hit_eof b s =
      let cb = s.callbacks in
      record s {
        callbacks = record cb {
          input_sequence = cb.input_sequence ++ b ∷ [];
          received_record = true;
        };
      }

  -- Another buffer is kept, as room for plaintext.
  abbrev pub keep : Buffer → Session Chan → Session Chan
  keep b s =
      let cb = s.callbacks in
      record s { callbacks = record cb { output_sequence = cb.output_sequence ++ b ∷ [] } }

  -- `co_return std::move( cb.input_sequence_ )`, which leaves an empty one.
  unfoldable pub finish : Session Chan → List Answer → Run Chan (Result TlsError (List Buffer))
  finish s incoming =
      let cb = s.callbacks in
      returns (ok cb.input_sequence)
        (record s { callbacks = record cb { input_sequence = []; received_record = false } })
        incoming

  -- What `async_recv_impl` does after the buffers of an answer; only Botan's exceptions are caught.
  unfoldable pub after_bufs :
      List Answer
      → (Session Chan → Run Chan (Result TlsError (List Buffer)))
      → Option (Option Thrown × Session Chan)
      → Run Chan (Result TlsError (List Buffer))
  after_bufs incoming go none = aborts
  after_bufs incoming go (some (none, s)) = go s
  after_bufs incoming go (some (some (botan e), s)) = returns (err (botan_error e)) s incoming
  after_bufs incoming go (some (some other, s)) = raises other s incoming

  -- `co_await tcp::stream::async_send( send_buf )` and what it gives. The suspension is not a state of its
  -- own: the send is answered before another coroutine of the session emits data, which `clear` would
  -- else drop.
  unfoldable pub send : (List (List ℕ) → Result ℕ ℕ) → Session Chan → Result ℕ ℕ × Session Chan
  send answer s =
      let all = s.sent ++ s.callbacks.send_buf ∷ [] in (answer all, record s { sent = all })

  abbrev pub clear : Session Chan → Session Chan
  clear s = let cb = s.callbacks in record s { callbacks = record cb { send_buf = [] } }

  -- What a handshake does with the data to send: the result of the send is not looked at.
  unfoldable pub flush : (List (List ℕ) → Result ℕ ℕ) → Session Chan → Session Chan
  unfolding send
  flush answer s = elim s.callbacks.send_buf [ [] ↦ s | x ∷ xs ↦ clear (send answer s).1 ]

  -- The end of `async_send_impl`: the count that the stream sent is not looked at.
  unfoldable pub sent_all :
      ℕ → List Answer → Result ℕ ℕ × Session Chan → Run Chan (Result TlsError ℕ)
  sent_all n incoming (err e, s) = returns (err (from_errno e)) (clear s) incoming
  sent_all n incoming (ok m, s) = returns (ok n) (clear s) incoming

module _ (C : Channel) where
  open C use {Chan}

  -- The inner loop of `async_recv_impl`, over the buffers of an answer. The source hands the channel a
  -- span of a buffer that the callbacks may write into; here it is handed the bytes, so the channel is
  -- one that reads the whole span before its first callback.
  unfoldable pub take_bufs : List Buffer → Session Chan → Option (Option Thrown × Session Chan)
  unfolding call
  take_bufs [] s = some (none, s)
  take_bufs (b ∷ bs) s =
      if b.capacity == 0
      then some (none, hit_eof b s)
      else (call (C.received_data s.channel b.bytes) (keep b s) >>= λ q. elim q.0 [
        | none ↦ take_bufs bs q.1
        | some thrown ↦ some q
      ])

  -- The outer loop, and what ends it.
  unfoldable pub async_recv_impl :
      List Answer → Session Chan → Run Chan (Result TlsError (List Buffer))
  unfolding take_bufs after_bufs finish
  async_recv_impl [] s = if s.callbacks.received_record then finish s [] else waits s
  async_recv_impl (err e ∷ incoming) s =
      if s.callbacks.received_record
      then finish s (err e ∷ incoming)
      else returns (err (from_errno e)) s incoming
  async_recv_impl (ok bufs ∷ incoming) s =
      if s.callbacks.received_record
      then finish s (ok bufs ∷ incoming)
      else after_bufs incoming (async_recv_impl incoming) (take_bufs bufs s)

module _ (C : Channel) (answer : List (List ℕ) → Result ℕ ℕ) where
  open C use {Chan}

  unfoldable pub async_send_impl :
      List ℕ → List Answer → Session Chan → Run Chan (Result TlsError ℕ)
  unfolding call uncaught send sent_all
  async_send_impl bytes incoming s =
      uncaught incoming (λ r. sent_all (length bytes) incoming (send answer r))
        (call (C.send s.channel bytes) s)
