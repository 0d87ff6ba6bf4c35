-- ===== src/Tls/Session/Server.antt =====
-- `server` of src/tls/tls.cpp: its handshake and its shutdown.
use fiona.Errno.{einval}
use fiona.Base.{ℕ, not, ◌||◌, Result, ok, err, List, [], ◌∷◌, if◌then◌else◌}
use fiona.Tls.Fill.{contents}
use fiona.Tls.Session.{
  other, Channel, TlsError, from_errno, Session, Answer, Run, returns, waits, raises,
}
use fiona.Tls.Session.Coroutines.{call, uncaught, send, clear, flush}

module _ (C : Channel) (answer : List (List ℕ) → Result ℕ ℕ) where
  open C use {Chan}

  -- The loop of `server::async_handshake`
  unfoldable pub handshake_loop : List Answer → Session Chan → Run Chan (Result TlsError Unit)
  unfolding call uncaught flush
  handshake_loop [] s = if C.is_handshake_complete s.channel then returns (ok tt) s [] else waits s
  handshake_loop (err e ∷ incoming) s =
      if C.is_handshake_complete s.channel
      then returns (ok tt) s (err e ∷ incoming)
      else returns (err (from_errno e)) s incoming
  handshake_loop (ok bufs ∷ incoming) s =
      if C.is_handshake_complete s.channel
      then returns (ok tt) s (ok bufs ∷ incoming)
      else uncaught incoming (λ r. handshake_loop incoming (flush answer r))
          (call (C.received_data s.channel (contents bufs)) s)

  -- `server::async_handshake`
  unfoldable pub async_handshake : List Answer → Session Chan → Run Chan (Result TlsError Unit)
  unfolding handshake_loop
  async_handshake incoming s =
      if C.is_active s.channel || C.is_closed s.channel
      then returns (err (from_errno einval)) s incoming
      else handshake_loop incoming s

  -- The end of `server::async_shutdown`; an error of the send is not the one that it returns.
  unfoldable pub shutdown_sent :
      List Answer → Result ℕ ℕ × Session Chan → Run Chan (Result TlsError Unit)
  shutdown_sent incoming (err e, s) = returns (err (from_errno einval)) s incoming
  shutdown_sent incoming (ok n, s) = returns (ok tt) (clear s) incoming

  -- After the peer's data, which has to hold a close_notify
  unfoldable pub shutdown_received : List Answer → Session Chan → Run Chan (Result TlsError Unit)
  unfolding send shutdown_sent
  shutdown_received incoming s =
      if not s.callbacks.close_notify_received
      then returns (err (from_errno einval)) s incoming
      else shutdown_sent incoming (send answer s)

  -- `server::async_shutdown`: the `value()` of an error throws.
  unfoldable pub async_shutdown : List Answer → Session Chan → Run Chan (Result TlsError Unit)
  unfolding call uncaught shutdown_received
  async_shutdown [] s = waits s
  async_shutdown (err e ∷ incoming) s = raises other s incoming
  async_shutdown (ok bufs ∷ incoming) s =
      uncaught incoming (shutdown_received incoming)
        (call (C.received_data s.channel (contents bufs)) s)
