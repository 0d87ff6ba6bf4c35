-- ===== src/Stream/Refs/Life.antt =====
-- A stream over its whole life.
use mathlib.Core.Path.{subst}
use fiona.Base.{
  ℕ, suc, ◌+◌, ◌-◌, ◌<◌, ◌≡◌, ok, refl, sym, ℤ, true, false, not, ◌&&◌, Option, some, List, [],
  ◌++◌, arith, if◌then◌else◌, ◌==◌, inl, inr, Bool-cases,
}
use fiona.Ring.Entries.{Cqe, Timespec}
use fiona.Ring.{Call}
use fiona.Buffers.Provided.{BufRing}
use fiona.Stream.{
  StreamImpl, stream_impl, hold, let_go, frame_refs, cancel_timer, cancel_recv, destroy_stream,
  set_timeout,
}
use fiona.Stream.Timeout.{complete_timeout, should_cancel}
use fiona.Stream.Recv
use fiona.Stream.Recv.{complete_recv}
use fiona.Stream.Send
use fiona.Stream.Send.{complete_send}
use fiona.Stream.Close
use fiona.Stream.Close.{complete_close}
use fiona.Stream.Control.{
  cancel_suspend, complete_cancel, cancel_resume, shutdown_suspend, complete_shutdown,
  shutdown_resume, complete_timeout_cancel,
}
use fiona.Stream.Refs.{Balanced, stream_impl-Balanced}
use fiona.Stream.Refs.Steps.{
  sends-Balanced, send_completes-Balanced, send_resumes-Balanced, closes-Balanced,
  close_completes-Balanced, close_resumes-Balanced, cancels-Balanced, cancel_completes-Balanced,
  cancel_resumes-Balanced, shutdowns-Balanced, shutdown_completes-Balanced,
  shutdown_resumes-Balanced, recvs-Balanced, recv_completes-Balanced, recv_resumes-Balanced,
  timeout_cancels-Balanced, groups-Balanced, timeouts-Balanced,
}
use fiona.Stream.Refs.Ticks.{ticks-Balanced, destroys-Balanced}

-- What the awaitables of a stream ask for as they suspend; an operation other than a send or a
-- receive is asked for once at a time.
pub data Asks (s t : StreamImpl) : Type 0 where
  sends : (now len h : ℕ) (cs : List Call) → Send.await_suspend now len s h ≡ ok (t, cs) → Asks s t
  recvs : (now h : ℕ) → t ≡ (Recv.await_suspend now s h).0 → Asks s t
  closes : (h : ℕ) → s.close.initiated ≡ false → t ≡ (Close.await_suspend s h).0 → Asks s t
  cancels : (h : ℕ) → s.cancel.initiated ≡ false → t ≡ (cancel_suspend s h).0 → Asks s t
  shutdowns :
      (how h : ℕ) → s.shutdown.op.initiated ≡ false → t ≡ (shutdown_suspend how s h).0 → Asks s t

-- What an owner sets on a stream.
pub data Sets (s t : StreamImpl) : Type 0 where
  group : (bgid : ℕ) (found : Option BufRing) → Recv.set_buffer_group s bgid found ≡ ok t → Sets s t
  timeout : (ts : Timespec) → t ≡ (set_timeout s ts).0 → Sets s t

-- What the kernel completes, of what is in flight.
pub data Completes (s t : StreamImpl) : Type 0 where
  send :
      (cqe : Cqe)
      → (s.send.op.initiated && not s.send.op.done) ≡ true
      → t ≡ (complete_send s cqe).1
      → Completes s t
  recv :
      (now : ℕ) (ring ring' : BufRing) (cqe : Cqe) (h : Option ℕ)
      → s.recv.initiated ≡ true
      → complete_recv now s ring cqe ≡ some (h, t, ring')
      → Completes s t
  close :
      (fds : List ℕ) (cqe : Cqe)
      → (s.close.initiated && not s.close.done) ≡ true
      → t ≡ (complete_close s fds cqe).1
      → Completes s t
  cancel :
      (cqe : Cqe)
      → (s.cancel.initiated && not s.cancel.done) ≡ true
      → t ≡ (complete_cancel s cqe).1
      → Completes s t
  shutdown :
      (cqe : Cqe)
      → (s.shutdown.op.initiated && not s.shutdown.op.done) ≡ true
      → t ≡ (complete_shutdown s cqe).1
      → Completes s t
  tick :
      (now : ℕ) (cqe : Cqe)
      → s.timeout.initiated ≡ true
      → (should_cancel now s && s.timeout_cancel.initiated) ≡ false
      → t ≡ (complete_timeout now s cqe).0
      → Completes s t
  timeout_cancel :
      (cqe : Cqe)
      → s.timeout_cancel.initiated ≡ true
      → t ≡ complete_timeout_cancel s cqe
      → Completes s t

-- What a resumed coroutine fetches.
pub data Resumes (s t : StreamImpl) : Type 0 where
  send : s.send.op.done ≡ true → t ≡ (Send.await_resume s).0 → Resumes s t
  recv : (ring : BufRing) → t ≡ (Recv.await_resume s ring).0 → Resumes s t
  close : s.close.done ≡ true → t ≡ (Close.await_resume s).0 → Resumes s t
  cancel : s.cancel.done ≡ true → t ≡ (cancel_resume s).0 → Resumes s t
  shutdown : s.shutdown.op.done ≡ true → t ≡ (shutdown_resume s).0 → Resumes s t

-- The life of a stream, with the number of its owners and of its awaitables: an owner is copied and
-- destroyed and makes awaitables, and an awaitable suspends, fetches a result and ends, also while
-- its operation is in flight. An awaitable may outlive the owner that made it.
pub data Life (s : StreamImpl) : ℕ → ℕ → StreamImpl → Type 0 where
  born : {n a : ℕ} → n ≡ 1 → a ≡ 0 → Life s n a s
  sets : {n a : ℕ} {t u : StreamImpl} → Life s (suc n) a t → Sets t u → Life s (suc n) a u
  makes : {n a : ℕ} {t u : StreamImpl} → Life s (suc n) a t → u ≡ hold t → Life s (suc n) (suc a) u
  asks : {n a : ℕ} {t u : StreamImpl} → Life s n (suc a) t → Asks t u → Life s n (suc a) u
  completes : {n a : ℕ} {t u : StreamImpl} → Life s n a t → Completes t u → Life s n a u
  resumes : {n a : ℕ} {t u : StreamImpl} → Life s n (suc a) t → Resumes t u → Life s n (suc a) u
  ends : {n a : ℕ} {t u : StreamImpl} → Life s n (suc a) t → u ≡ let_go t → Life s n a u
  copies : {n a : ℕ} {t u : StreamImpl} → Life s (suc n) a t → u ≡ hold t → Life s (suc (suc n)) a u
  destroys :
      {n a : ℕ} {t u : StreamImpl} → Life s (suc n) a t → u ≡ (destroy_stream t).0 → Life s n a u

module _ {n : ℕ} {s t : StreamImpl} (b : Balanced n s) where
  move : {u : StreamImpl} → t ≡ u → Balanced n u → Balanced n t
  move e c = subst (Balanced n) (sym e) c

  Asks-Balanced : Asks s t → Balanced n t
  Asks-Balanced (sends now len h cs e) = sends-Balanced n s b now len h t cs e
  Asks-Balanced (recvs now h e) = move e (recvs-Balanced n s b now h)
  Asks-Balanced (closes h i e) = move e (closes-Balanced n s b h i)
  Asks-Balanced (cancels h i e) = move e (cancels-Balanced n s b h i)
  Asks-Balanced (shutdowns how h i e) = move e (shutdowns-Balanced n s b how h i)

  Sets-Balanced : Sets s t → Balanced n t
  Sets-Balanced (group bgid found e) = groups-Balanced n s b bgid found t e
  Sets-Balanced (timeout ts e) = move e (timeouts-Balanced n s b ts)

  Completes-Balanced : Completes s t → Balanced n t
  Completes-Balanced (send cqe i e) = move e (send_completes-Balanced n s b cqe i)
  Completes-Balanced (recv now ring ring' cqe h i e) =
      recv_completes-Balanced n s b now ring ring' cqe h t i e
  Completes-Balanced (close fds cqe i e) = move e (close_completes-Balanced n s b fds cqe i)
  Completes-Balanced (cancel cqe i e) = move e (cancel_completes-Balanced n s b cqe i)
  Completes-Balanced (shutdown cqe i e) = move e (shutdown_completes-Balanced n s b cqe i)
  Completes-Balanced (tick now cqe i q e) = move e (ticks-Balanced n s b now cqe i q)
  Completes-Balanced (timeout_cancel cqe i e) = move e (timeout_cancels-Balanced n s b cqe i)

  Resumes-Balanced : Resumes s t → Balanced n t
  Resumes-Balanced (send d e) = move e (send_resumes-Balanced n s b d)
  Resumes-Balanced (recv ring e) = move e (recv_resumes-Balanced n s b ring)
  Resumes-Balanced (close d e) = move e (close_resumes-Balanced n s b d)
  Resumes-Balanced (cancel d e) = move e (cancel_resumes-Balanced n s b d)
  Resumes-Balanced (shutdown d e) = move e (shutdown_resumes-Balanced n s b d)

module _ (n : ℕ) (s : StreamImpl) where
  hold-Balanced : Balanced n s → Balanced (suc n) (hold s)
  unfolding frame_refs hold
  hold-Balanced b = record {
    refs = omega (arith, b.refs);
    cancel = b.cancel;
    close = b.close;
    shutdown = b.shutdown;
    send = b.send;
  }

  let_go-Balanced : Balanced (suc n) s → Balanced n (let_go s)
  unfolding frame_refs let_go
  let_go-Balanced b = record {
    refs = omega (arith, b.refs);
    cancel = b.cancel;
    close = b.close;
    shutdown = b.shutdown;
    send = b.send;
  }

-- Through any history of a new stream, with its buffer group and its timeout set, its owners copied
-- and destroyed, and awaitables made, suspended, completed, resumed and ended, the count of the stream
-- is the number of its owners and of its awaitables and of the frames that `stream::~stream` finds
-- active. In such a history a cancellation, close or shutdown is asked for once at a time and a tick
-- does not cancel twice.
pub Life-Balanced :
    (now : ℕ) (fd : ℤ) {n a : ℕ} {s : StreamImpl}
    → Life (stream_impl now fd).0 n a s
    → Balanced (n + a) s
Life-Balanced now fd (born e f) = rw (e, f) (stream_impl-Balanced now fd)
Life-Balanced now fd (sets l a) = Sets-Balanced (Life-Balanced now fd l) a
Life-Balanced now fd (makes {n} {a} {t} l e) = rw e (
    subst (λ m. Balanced m (hold t)) (omega arith)
      (hold-Balanced (suc n + a) t (Life-Balanced now fd l)))
Life-Balanced now fd (asks l a) = Asks-Balanced (Life-Balanced now fd l) a
Life-Balanced now fd (completes l c) = Completes-Balanced (Life-Balanced now fd l) c
Life-Balanced now fd (resumes l r) = Resumes-Balanced (Life-Balanced now fd l) r
Life-Balanced now fd (ends {n} {a} {t} l e) =
    rw e
      (let_go-Balanced (n + a) t (subst (λ m. Balanced m t) (omega arith) (Life-Balanced now fd l)))
Life-Balanced now fd (copies {n} {a} {t} l e) = rw e (
    subst (λ m. Balanced m (hold t)) (omega arith)
      (hold-Balanced (suc n + a) t (Life-Balanced now fd l)))
Life-Balanced now fd (destroys {n} {a} {t} l e) =
    rw e (
      destroys-Balanced (n + a) t
        (subst (λ m. Balanced m t) (omega arith) (Life-Balanced now fd l)))

last_owner :
    (s : StreamImpl) (n : ℕ)
    → s.count ≡ suc n + frame_refs s
    → (destroy_stream s).1
      ≡ (if n == 0 then (cancel_timer s).1 ++ cancel_recv (cancel_timer s).0 else [])
unfolding destroy_stream
last_owner s n b =
    let q : (s.count - frame_refs s == 1) ≡ (n == 0) = ground arith in
    elim (Bool-cases (n == 0)) [
      | inl e ↦ rw (q, e, destroy_stream) refl
      | inr e ↦ rw (q, e, destroy_stream) refl
    ]

-- At any point of a history of a new stream, in which a cancellation, close or shutdown is asked for
-- once at a time and a tick does not cancel twice, and with an owner left, what the destructor of that
-- owner asserts holds: the count exceeds the active frames. It cancels the timeout and the receive if
-- there is no other owner and no awaitable, and else makes no call.
pub Life-destroy_stream :
    (now : ℕ) (fd : ℤ) {n a : ℕ} {s : StreamImpl}
    → Life (stream_impl now fd).0 (suc n) a s
    → (frame_refs s < s.count)
      × ((destroy_stream s).1
          ≡ (if n + a == 0 then (cancel_timer s).1 ++ cancel_recv (cancel_timer s).0 else []))
Life-destroy_stream now fd {n} {a} {s} l =
    let b : s.count ≡ suc (n + a) + frame_refs s = omega (arith, (Life-Balanced now fd l).refs) in
    (omega (arith, b), last_owner s (n + a) b)
