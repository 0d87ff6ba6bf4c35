-- ===== src/Tls/Session/Client.antt =====
-- `client` of src/tls/tls.cpp: its handshake and its shutdown.
use fiona.Errno.{einval}
use fiona.Base.{ℕ, ◌==◌, ◌||◌, Result, ok, err, List, [], ◌∷◌, if◌then◌else◌}
use fiona.Tls.{Buffer}
use fiona.Tls.Session.{Channel, TlsError, from_errno, Session, Answer, Run, returns, waits}
use fiona.Tls.Session.Coroutines.{call, uncaught, send, clear, flush}

module _ (C : Channel) where
  open C use {Chan}

  -- The buffers of an answer, in a handshake
  unfoldable pub receive_bufs :
      List Answer
      → (Session Chan → Run Chan (Result TlsError Unit))
      → List Buffer
      → Session Chan
      → Run Chan (Result TlsError Unit)
  unfolding call uncaught
  receive_bufs incoming go [] s = go s
  receive_bufs incoming go (b ∷ bs) s =
      if b.capacity == 0
      then returns (err (from_errno einval)) s incoming
      else uncaught incoming (receive_bufs incoming go bs)
          (call (C.received_data s.channel b.bytes) s)

  -- The buffers of an answer, in a shutdown
  unfoldable pub shutdown_bufs :
      List Answer → List Buffer → Session Chan → Run Chan (Result TlsError Unit)
  unfolding call uncaught
  shutdown_bufs incoming [] s = returns (ok tt) s incoming
  shutdown_bufs incoming (b ∷ bs) s =
      uncaught incoming (shutdown_bufs incoming bs) (call (C.received_data s.channel b.bytes) s)

  -- The answer that `client::async_shutdown` waits for
  unfoldable pub shutdown_recv : List Answer → Session Chan → Run Chan (Result TlsError Unit)
  unfolding shutdown_bufs
  shutdown_recv [] s = waits s
  shutdown_recv (err e ∷ incoming) s = returns (err (from_errno e)) s incoming
  shutdown_recv (ok bufs ∷ incoming) s = shutdown_bufs incoming bufs s

module _ (C : Channel) (answer : List (List ℕ) → Result ℕ ℕ) where
  open C use {Chan}

  -- The loop of `client::async_handshake`
  unfoldable pub handshake_loop : List Answer → Session Chan → Run Chan (Result TlsError Unit)
  unfolding receive_bufs flush
  handshake_loop [] s = if C.is_handshake_complete s.channel then returns (ok tt) s [] else waits s
  handshake_loop (err e ∷ incoming) s =
      if C.is_handshake_complete s.channel
      then returns (ok tt) s (err e ∷ incoming)
      else returns (err (from_errno e)) s incoming
  handshake_loop (ok bufs ∷ incoming) s =
      if C.is_handshake_complete s.channel
      then returns (ok tt) s (ok bufs ∷ incoming)
      else receive_bufs C incoming (λ r. handshake_loop incoming (flush answer r)) bufs s

  -- `client::async_handshake`
  unfoldable pub async_handshake : List Answer → Session Chan → Run Chan (Result TlsError Unit)
  unfolding handshake_loop flush
  async_handshake incoming s =
      if C.is_active s.channel || C.is_closed s.channel
      then returns (err (from_errno einval)) s incoming
      else elim s.callbacks.send_buf [
        | [] ↦ returns (err (from_errno einval)) s incoming
        | x ∷ xs ↦ handshake_loop incoming (flush answer s)
      ]

  -- After its send, whose error leaves the data in the buffer
  unfoldable pub shutdown_sent :
      List Answer → Result ℕ ℕ × Session Chan → Run Chan (Result TlsError Unit)
  unfolding shutdown_recv
  shutdown_sent incoming (err e, s) = returns (err (from_errno e)) s incoming
  shutdown_sent incoming (ok n, s) = shutdown_recv C incoming (clear s)

  -- `client::async_shutdown`
  unfoldable pub async_shutdown : List Answer → Session Chan → Run Chan (Result TlsError Unit)
  unfolding call uncaught send shutdown_sent
  async_shutdown incoming s =
      uncaught incoming (λ r. shutdown_sent incoming (send answer r)) (call (C.close s.channel) s)
