-- ===== src/Tls/Session/Intact.antt =====
-- What a call of the channel, a send and `async_recv_impl` do to the data on its way to the stream.
use mathlib.Core.List.{append_assoc, append-nil}
use fiona.Base.{
  ◌>>=◌, ℕ, ◌≡◌, sym, ap, ◌∙◌, ◌==◌, Result, ok, err, Option, none, some, List, [], ◌∷◌, ◌++◌,
  if_cases,
}
use fiona.Tls.{Buffer, TlsCallbacks}
use fiona.Tls.Session.{
  Callback, Thrown, botan, other, Channel, call_back_all, TlsError, Session, Answer, Run, returns,
  waits, raises, aborts,
}
use fiona.Tls.Session.Coroutines.{
  call, uncaught, keep, finish, after_bufs, send, clear, flush, take_bufs, async_recv_impl,
}
use fiona.Tls.Session.Recv.{emitted}
use fiona.Tls.Session.Sent.{Adds, call_back_all-Adds}

-- All that the stream was given.
abbrev pub sent_bytes : List (List ℕ) → List ℕ
sent_bytes [] = []
sent_bytes (s ∷ ss) = s ++ sent_bytes ss

sent_bytes-append :
    (ss : List (List ℕ)) (bytes : List ℕ) → sent_bytes (ss ++ bytes ∷ []) ≡ sent_bytes ss ++ bytes
sent_bytes-append [] bytes = append-nil bytes
sent_bytes-append (s ∷ ss) bytes =
    ap (λ ys. s ++ ys) (sent_bytes-append ss bytes) ∙ sym (append_assoc s (sent_bytes ss) bytes)

-- A record, kept in the channel, of all the data that it has emitted.
pub record Logs (C : Channel) (log : C.Chan → List ℕ) : Type 0 where
  pub receives :
      (ch : C.Chan) (bytes : List ℕ)
      → log (C.received_data ch bytes).2 ≡ log ch ++ emitted (C.received_data ch bytes).0
  pub sends :
      (ch : C.Chan) (bytes : List ℕ)
      → log (C.send ch bytes).2 ≡ log ch ++ emitted (C.send ch bytes).0

module _ (C : Channel) (log : C.Chan → List ℕ) where
  open C use {Chan}

  -- What was given to the stream, and then what is to be sent, is all that was emitted.
  abbrev pub Intact : Session Chan → Type 0
  Intact s = sent_bytes s.sent ++ s.callbacks.send_buf ≡ log s.channel

  -- However far the coroutine gets
  abbrev pub RunIntact : {A : Type 0} → Run Chan A → Type 0
  RunIntact (returns a s incoming) = Intact s
  RunIntact (waits s) = Intact s
  RunIntact (raises thrown s incoming) = Intact s
  RunIntact aborts = Unit

  abbrev pub CallIntact : Option (Option Thrown × Session Chan) → Type 0
  CallIntact none = Unit
  CallIntact (some q) = Intact q.1

  pub call-Intact :
      (ks : List Callback) (thrown : Option Thrown) (ch : Chan) (s : Session Chan)
      → Intact s
      → log ch ≡ log s.channel ++ emitted ks
      → CallIntact (call (ks, thrown, ch) s)
  unfolding call
  call-Intact ks thrown ch s i e =
      go (call_back_all ks s.callbacks) (call_back_all-Adds ks s.callbacks)
    where
      go :
          (o : Option TlsCallbacks)
          → Adds s.callbacks (emitted ks) o
          → CallIntact (o >>= λ cb. some (thrown, record s { callbacks = cb; channel = ch }))
      go none a = tt
      go (some d) a =
          ap (λ ys. sent_bytes s.sent ++ ys) a
          ∙ sym (append_assoc (sent_bytes s.sent) s.callbacks.send_buf (emitted ks))
          ∙ ap (λ ys. ys ++ emitted ks) i
          ∙ sym e

  pub uncaught-Intact :
      {A : Type 0} (incoming : List Answer) (go : Session Chan → Run Chan A)
      (o : Option (Option Thrown × Session Chan))
      → CallIntact o
      → ((r : Session Chan) → Intact r → RunIntact (go r))
      → RunIntact (uncaught incoming go o)
  unfolding uncaught
  uncaught-Intact incoming go none c h = tt
  uncaught-Intact incoming go (some (none, r)) c h = h r c
  uncaught-Intact incoming go (some (some thrown, r)) c h = c

  -- A send, and the clearing after it
  pub sent-Intact :
      (answer : List (List ℕ) → Result ℕ ℕ) (s : Session Chan)
      → Intact s
      → Intact (clear (send answer s).1)
  unfolding send
  sent-Intact answer s i =
      append-nil (sent_bytes (s.sent ++ s.callbacks.send_buf ∷ []))
      ∙ sent_bytes-append s.sent s.callbacks.send_buf
      ∙ i

  pub flush-Intact :
      (answer : List (List ℕ) → Result ℕ ℕ) (s : Session Chan) → Intact s → Intact (flush answer s)
  unfolding flush
  flush-Intact answer s i = go s.callbacks.send_buf
    where
      go : (xs : List ℕ) → Intact (elim xs [ [] ↦ s | x ∷ ys ↦ clear (send answer s).1 ])
      go [] = i
      go (x ∷ xs) = sent-Intact answer s i

  module _ (logs : Logs C log) where
    pub received-Intact :
        (bytes : List ℕ) (s : Session Chan)
        → Intact s
        → CallIntact (call (C.received_data s.channel bytes) s)
    received-Intact bytes s i =
        let q = C.received_data s.channel bytes in
        call-Intact q.0 q.1 q.2 s i (logs.receives s.channel bytes)

    take_bufs-Intact :
        (bufs : List Buffer) (s : Session Chan) → Intact s → CallIntact (take_bufs C bufs s)
    unfolding take_bufs
    take_bufs-Intact [] s i = i
    take_bufs-Intact (b ∷ bs) s i = if_cases CallIntact (b.capacity == 0) i (λ e.
        go (call (C.received_data s.channel b.bytes) (keep b s))
          (received-Intact b.bytes (keep b s) i) (take_bufs-Intact bs))
      where
        go :
            (o : Option (Option Thrown × Session Chan))
            → CallIntact o
            → ((r : Session Chan) → Intact r → CallIntact (take_bufs C bs r))
            → CallIntact (o >>= λ q. elim q.0 [ none ↦ take_bufs C bs q.1 | some thrown ↦ some q ])
        go none c h = tt
        go (some (none, r)) c h = h r c
        go (some (some thrown, r)) c h = c

    after_bufs-Intact :
        (incoming : List Answer) (go : Session Chan → Run Chan (Result TlsError (List Buffer)))
        (o : Option (Option Thrown × Session Chan))
        → CallIntact o
        → ((r : Session Chan) → Intact r → RunIntact (go r))
        → RunIntact (after_bufs incoming go o)
    unfolding after_bufs
    after_bufs-Intact incoming go none c h = tt
    after_bufs-Intact incoming go (some (none, r)) c h = h r c
    after_bufs-Intact incoming go (some (some (botan e), r)) c h = c
    after_bufs-Intact incoming go (some (some other, r)) c h = c

    pub recv-Intact :
        (incoming : List Answer) (s : Session Chan)
        → Intact s
        → RunIntact (async_recv_impl C incoming s)
    unfolding async_recv_impl finish
    recv-Intact [] s i = if_cases RunIntact s.callbacks.received_record i (λ e. i)
    recv-Intact (err x ∷ is) s i = if_cases RunIntact s.callbacks.received_record i (λ e. i)
    recv-Intact (ok bufs ∷ is) s i = if_cases RunIntact s.callbacks.received_record i (λ e.
        after_bufs-Intact is (async_recv_impl C is) (take_bufs C bufs s) (take_bufs-Intact bufs s i)
          (recv-Intact is))
