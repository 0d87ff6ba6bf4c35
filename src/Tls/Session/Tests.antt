-- ===== src/Tls/Session/Tests.antt =====
-- A channel whose handshake takes two flights of the peer: a flight begins with 22, and a record with 23.
use fiona.Errno.{einval, etimedout}
use fiona.Base.{
  ℕ, ◌-◌, ◌≡◌, refl, ◌==◌, false, Result, ok, err, Option, none, some, List, [], ◌∷◌, ◌++◌,
  if◌then◌else◌,
}
use fiona.Tls.{Buffer, TlsCallbacks}
use fiona.Tls.Session.{
  Callback, emits, receives, Thrown, botan, other, Channel, from_errno, Session, Answer, returns,
  raises, waits, aborts,
}
use fiona.Tls.Session.Coroutines.{async_recv_impl, async_send_impl}
use fiona.Tls.Session.Client
use fiona.Tls.Session.Server
use fiona.Tls.Session.Recv.{Outcome, outcome}
use fiona.Tls.Session.Recv.{emitted}
use fiona.Tls.Session.Intact.{Logs, RunIntact}
use fiona.Tls.Session.Delivery.{coroutines-Intact}
use fiona.Tls.Session.Early.{early_record_aborts}

abbrev received : ℕ → List ℕ → List Callback × Option Thrown × ℕ
received n [] = ([], none, n)
received n (x ∷ xs) =
    if x == 22
    then (emits (20 ∷ []) ∷ [], none, n - 1)
    else (if x == 23 then (receives xs ∷ [], none, n) else ([], some (botan 5), n))

abbrev toy : Channel
toy = record {
  Chan = ℕ;
  received_data = received;
  send = λ n bytes. (emits (23 ∷ bytes) ∷ [], none, n);
  close = λ n. (emits (21 ∷ []) ∷ [], none, n);
  is_active = λ n. n == 0;
  is_closed = λ n. false;
  is_handshake_complete = λ n. n == 0;
}

abbrev everything : List (List ℕ) → Result ℕ ℕ
everything sent = ok 0

abbrev empty_callbacks : TlsCallbacks
empty_callbacks = record {
  send_buf = [];
  input_sequence = [];
  output_sequence = [];
  received_record = false;
  close_notify_received = false;
}

abbrev session : ℕ → Session ℕ
session n = record { callbacks = empty_callbacks; channel = n; sent = [] }

abbrev buffer : List ℕ → Buffer
buffer bytes = record { bytes = bytes; capacity = 4 }

abbrev flights : List Answer
flights =
    ok (buffer (22 ∷ 9 ∷ []) ∷ []) ∷ ok (buffer (22 ∷ []) ∷ []) ∷ ok (buffer (22 ∷ []) ∷ []) ∷ []

abbrev records : List Answer
records = ok (buffer [] ∷ buffer (23 ∷ 1 ∷ 2 ∷ []) ∷ buffer (23 ∷ 3 ∷ []) ∷ []) ∷ err etimedout ∷ []

two_records :
    outcome (async_recv_impl toy records (session 0))
    ≡ some (Outcome.delivers (1 ∷ 2 ∷ 3 ∷ []) 0 (err etimedout ∷ []))
unfolding async_recv_impl
two_records = refl

-- The stream sent no byte, and the whole size is the result.
short_send :
    async_send_impl toy everything (7 ∷ 8 ∷ []) [] (session 0)
    ≡ returns (ok 2) (record (session 0) { sent = (23 ∷ 7 ∷ 8 ∷ []) ∷ [] }) []
unfolding async_send_impl
short_send = refl

-- A server that shuts down does not return the error of its stream.
shutdown_throws :
    Server.async_shutdown toy everything (err etimedout ∷ []) (session 0)
    ≡ raises other (session 0) []
unfolding Server.async_shutdown
shutdown_throws = refl

shutdown_silent :
    Server.async_shutdown toy everything (ok [] ∷ []) (session 0)
    ≡ returns (err (from_errno einval)) (session 0) []
unfolding Server.async_shutdown
shutdown_silent = refl

client_shutdown :
    Client.async_shutdown toy everything [] (session 0)
    ≡ waits (record (session 0) { sent = (21 ∷ []) ∷ [] })
unfolding Client.async_shutdown
client_shutdown = refl

early_record_aborts_example :
    Server.handshake_loop toy everything (ok (buffer (23 ∷ 5 ∷ []) ∷ []) ∷ []) (session 1) ≡ aborts
early_record_aborts_example =
    early_record_aborts toy everything (buffer (23 ∷ 5 ∷ []) ∷ []) [] (session 1) [] [] 5 [] refl
      refl refl refl refl

-- The same channel with a record of what it has emitted.
abbrev logged_call :
    List ℕ → List Callback × Option Thrown × ℕ → List Callback × Option Thrown × (ℕ × List ℕ)
logged_call log (ks, thrown, n) = (ks, thrown, (n, log ++ emitted ks))

abbrev logged : Channel
logged = record {
  Chan = ℕ × List ℕ;
  received_data = λ ch bytes. logged_call ch.1 (toy.received_data ch.0 bytes);
  send = λ ch bytes. logged_call ch.1 (toy.send ch.0 bytes);
  close = λ ch. logged_call ch.1 (toy.close ch.0);
  is_active = λ ch. toy.is_active ch.0;
  is_closed = λ ch. toy.is_closed ch.0;
  is_handshake_complete = λ ch. toy.is_handshake_complete ch.0;
}

abbrev log_of : ℕ × List ℕ → List ℕ
log_of ch = ch.1

logged-Logs : Logs logged log_of
logged-Logs = record { receives = λ ch bytes. refl; sends = λ ch bytes. refl }

abbrev greeting : Session (ℕ × List ℕ)
greeting = record {
  callbacks = record empty_callbacks { send_buf = 1 ∷ 2 ∷ [] };
  channel = (2, 9 ∷ 1 ∷ 2 ∷ []);
  sent = (9 ∷ []) ∷ [];
}

coroutines-Intact_example :
    RunIntact logged log_of (async_recv_impl logged flights greeting)
    × RunIntact logged log_of (async_send_impl logged everything (5 ∷ []) flights greeting)
    × RunIntact logged log_of (Client.async_handshake logged everything flights greeting)
    × RunIntact logged log_of (Server.async_handshake logged everything flights greeting)
coroutines-Intact_example =
    coroutines-Intact logged log_of logged-Logs everything (5 ∷ []) flights greeting refl
