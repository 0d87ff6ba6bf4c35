-- ===== src/Tls/Session.antt =====
-- The coroutines of src/tls/tls.cpp: `async_recv_impl`, `async_send_impl`, the handshakes and the
-- shutdowns. A channel of Botan is a parameter: what it does with its data is told by the callbacks
-- that it makes, in order, and by the exception that leaves it. A span that it is given is the list of
-- its bytes, read before the first callback. The TCP stream is a parameter by its answers: a list of
-- what each `async_recv` that is awaited gives, and a function from all that has been sent to what the
-- last `async_send` gives.
pub mod Coroutines
pub mod Client
pub mod Server
pub mod Recv
pub mod Refines
pub mod Steps
pub mod Early
pub mod Sent
pub mod Intact
pub mod Delivery
pub mod Tests
use fiona.Base.{
  ◌>>=◌, ℕ, ◌==◌, Bool, true, false, Result, Option, none, some, List, [], ◌∷◌, ◌++◌, if◌then◌else◌,
}
use fiona.Tls.{Buffer, TlsCallbacks, tls_emit_data, tls_alert, tls_record_received}

-- A call of one of the `tls_callbacks`.
pub data Callback : Type 0 where
  emits : List ℕ → Callback
  receives : List ℕ → Callback
  alerts : (close_notify : Bool) → Callback

-- What leaves a call of the channel as an exception: a `Botan::Exception`, by its error type, or
-- another one, such as that of `tls_verify_cert_chain`.
pub data Thrown : Type 0 where
  botan : ℕ → Thrown
  other : Thrown

-- `Botan::TLS::Channel`: the callbacks that a call makes, the exception that leaves it, and the channel
-- after it.
pub record Channel : Type 1 where
  pub Chan : Type 0
  pub received_data : Chan → List ℕ → List Callback × Option Thrown × Chan
  pub send : Chan → List ℕ → List Callback × Option Thrown × Chan
  pub close : Chan → List Callback × Option Thrown × Chan
  pub is_active : Chan → Bool
  pub is_closed : Chan → Bool
  pub is_handshake_complete : Chan → Bool

-- A callback; `none` is a failed assertion in it.
unfoldable pub call_back : Callback → TlsCallbacks → Option TlsCallbacks
unfolding tls_emit_data tls_alert tls_record_received
call_back (emits bytes) cb = some (tls_emit_data bytes cb)
call_back (receives plaintext) cb = tls_record_received plaintext cb
call_back (alerts close_notify) cb = some (tls_alert close_notify cb)

-- The callbacks of a call, in order.
unfoldable pub call_back_all : List Callback → TlsCallbacks → Option TlsCallbacks
unfolding call_back
call_back_all [] cb = some cb
call_back_all (k ∷ ks) cb = call_back k cb >>= call_back_all ks

-- An error that a coroutine returns: of Botan, or of the system.
pub data TlsError : Type 0 where
  botan_error : ℕ → TlsError
  from_errno : ℕ → TlsError

-- `client_impl` and `server_impl`, in what the coroutines use of them, with what the stream has been given to send.
pub record Session (Chan : Type 0) : Type 0 where
  pub callbacks : TlsCallbacks
  pub channel : Chan
  pub sent : List (List ℕ)

-- What an `async_recv` of the stream gives.
abbrev pub Answer : Type 0
Answer = Result ℕ (List Buffer)

-- How far a coroutine gets: it returns, waits for an answer of the stream, lets an exception escape, or
-- fails an assertion. The list is the answers that are left.
pub data Run (Chan A : Type 0) : Type 0 where
  returns : A → Session Chan → List Answer → Run Chan A
  waits : Session Chan → Run Chan A
  raises : Thrown → Session Chan → List Answer → Run Chan A
  aborts : Run Chan A
