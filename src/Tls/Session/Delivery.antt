-- ===== src/Tls/Session/Delivery.antt =====
-- The data of the channel on its way to the stream, in the coroutines of src/tls/tls.cpp, one at a time.
use fiona.Errno.{einval}
use fiona.Base.{ℕ, ◌==◌, ◌||◌, Result, ok, err, List, [], ◌∷◌, ◌++◌, length, if_cases}
use fiona.Tls.{Buffer}
use fiona.Tls.Fill.{contents}
use fiona.Tls.Session.{Channel, TlsError, from_errno, Session, Answer, Run, returns}
use fiona.Tls.Session.Coroutines.{call, send, flush, async_recv_impl, sent_all, async_send_impl}
use fiona.Tls.Session.Client.{receive_bufs}
use fiona.Tls.Session.Client
use fiona.Tls.Session.Server
use fiona.Tls.Session.Intact.{
  Logs, Intact, RunIntact, call-Intact, uncaught-Intact, sent-Intact, flush-Intact, received-Intact,
  recv-Intact,
}

module _ (C : Channel) (log : C.Chan → List ℕ) (logs : Logs C log)
    (answer : List (List ℕ) → Result ℕ ℕ) where
  open C use {Chan}

  sent_all-Intact :
      (n : ℕ) (incoming : List Answer) (s : Session Chan)
      → Intact C log s
      → RunIntact C log (sent_all n incoming (send answer s))
  unfolding sent_all send
  sent_all-Intact n incoming s i = go (answer (s.sent ++ s.callbacks.send_buf ∷ []))
    where
      go :
          (r : Result ℕ ℕ)
          → RunIntact C log
              (sent_all n incoming (r, record s { sent = s.sent ++ s.callbacks.send_buf ∷ [] }))
      go (ok m) = sent-Intact C log answer s i
      go (err e) = sent-Intact C log answer s i

  send-Intact :
      (bytes : List ℕ) (incoming : List Answer) (s : Session Chan)
      → Intact C log s
      → RunIntact C log (async_send_impl C answer bytes incoming s)
  unfolding async_send_impl
  send-Intact bytes incoming s i =
      let q = C.send s.channel bytes in
      uncaught-Intact C log incoming (λ r. sent_all (length bytes) incoming (send answer r))
        (call q s) (call-Intact C log q.0 q.1 q.2 s i (logs.sends s.channel bytes))
        (sent_all-Intact (length bytes) incoming)

  receive_bufs-Intact :
      (incoming : List Answer) (go : Session Chan → Run Chan (Result TlsError Unit))
      (bufs : List Buffer) (s : Session Chan)
      → ((r : Session Chan) → Intact C log r → RunIntact C log (go r))
      → Intact C log s
      → RunIntact C log (receive_bufs C incoming go bufs s)
  unfolding receive_bufs
  receive_bufs-Intact incoming go [] s h i = h s i
  receive_bufs-Intact incoming go (b ∷ bs) s h i =
      if_cases (RunIntact C log) (b.capacity == 0) i (λ e.
        uncaught-Intact C log incoming (receive_bufs C incoming go bs)
          (call (C.received_data s.channel b.bytes) s) (received-Intact C log logs b.bytes s i)
          (λ r j. receive_bufs-Intact incoming go bs r h j))

  client_loop-Intact :
      (incoming : List Answer) (s : Session Chan)
      → Intact C log s
      → RunIntact C log (Client.handshake_loop C answer incoming s)
  unfolding Client.handshake_loop
  client_loop-Intact [] s i =
      if_cases (RunIntact C log) (C.is_handshake_complete s.channel) i (λ e. i)
  client_loop-Intact (err x ∷ is) s i =
      if_cases (RunIntact C log) (C.is_handshake_complete s.channel) i (λ e. i)
  client_loop-Intact (ok bufs ∷ is) s i =
      if_cases (RunIntact C log) (C.is_handshake_complete s.channel) i (λ e.
        receive_bufs-Intact is (λ r. Client.handshake_loop C answer is (flush answer r)) bufs s
          (λ r j. client_loop-Intact is (flush answer r) (flush-Intact C log answer r j)) i)

  client-Intact :
      (incoming : List Answer) (s : Session Chan)
      → Intact C log s
      → RunIntact C log (Client.async_handshake C answer incoming s)
  unfolding Client.async_handshake
  client-Intact incoming s i =
      if_cases (RunIntact C log) (C.is_active s.channel || C.is_closed s.channel) i
        (λ e. go s.callbacks.send_buf)
    where
      go :
          (xs : List ℕ)
          → RunIntact C log {A = Result TlsError Unit} (elim xs [
            | [] ↦ returns (err (from_errno einval)) s incoming
            | x ∷ ys ↦ Client.handshake_loop C answer incoming (flush answer s)
          ])
      go [] = i
      go (x ∷ xs) = client_loop-Intact incoming (flush answer s) (flush-Intact C log answer s i)

  server_loop-Intact :
      (incoming : List Answer) (s : Session Chan)
      → Intact C log s
      → RunIntact C log (Server.handshake_loop C answer incoming s)
  unfolding Server.handshake_loop
  server_loop-Intact [] s i =
      if_cases (RunIntact C log) (C.is_handshake_complete s.channel) i (λ e. i)
  server_loop-Intact (err x ∷ is) s i =
      if_cases (RunIntact C log) (C.is_handshake_complete s.channel) i (λ e. i)
  server_loop-Intact (ok bufs ∷ is) s i =
      if_cases (RunIntact C log) (C.is_handshake_complete s.channel) i (λ e.
        uncaught-Intact C log is (λ r. Server.handshake_loop C answer is (flush answer r))
          (call (C.received_data s.channel (contents bufs)) s)
          (received-Intact C log logs (contents bufs) s i)
          (λ r j. server_loop-Intact is (flush answer r) (flush-Intact C log answer r j)))

  server-Intact :
      (incoming : List Answer) (s : Session Chan)
      → Intact C log s
      → RunIntact C log (Server.async_handshake C answer incoming s)
  unfolding Server.async_handshake
  server-Intact incoming s i =
      if_cases (RunIntact C log) (C.is_active s.channel || C.is_closed s.channel) i
        (λ e. server_loop-Intact incoming s i)

  -- For one coroutine of a session at a time, with each send answered before anything else emits data:
  -- where the channel keeps a record of the data that it emits, and what the stream was given, with
  -- what is to be sent behind it, is all of that data in its order, this is so again at the end of a
  -- receipt, a send and a handshake of a client or a server: where they return a value or an error, wait
  -- for an answer to a receive, or let an exception escape. All data that was emitted is then given to
  -- the stream or still to be sent, and none is given twice.
  pub coroutines-Intact :
      (bytes : List ℕ) (incoming : List Answer) (s : Session Chan)
      → Intact C log s
      → RunIntact C log (async_recv_impl C incoming s)
        × RunIntact C log (async_send_impl C answer bytes incoming s)
        × RunIntact C log (Client.async_handshake C answer incoming s)
        × RunIntact C log (Server.async_handshake C answer incoming s)
  coroutines-Intact bytes incoming s i = (
    recv-Intact C log logs incoming s i,
    send-Intact bytes incoming s i,
    client-Intact incoming s i,
    server-Intact incoming s i,
  )
