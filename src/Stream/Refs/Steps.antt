-- ===== src/Stream/Refs/Steps.antt =====
-- Each operation of a stream, and each completion, keeps its references in balance.
use mathlib.Core.Option.{some-injective}
use mathlib.Core.Path.{subst}
use fiona.Base.{
  refl, ap, none, ◌-◌, if◌then◌else◌, ℤ, Bool, Result, ok, if_cases, is_some, is_errno, ℕ, ◌≡◌,
  true, false, not, ◌&&◌, Option, some, List, arith,
}
use fiona.Ring.Entries.{Cqe, Timespec}
use fiona.Buffers.Provided.{BufRing}
use fiona.Stream.{StreamImpl, frame_refs, set_timeout}
use fiona.Ring.{Call}
use fiona.Stream.Recv
use fiona.Stream.Recv.{asserts_fail, taken_in, complete_recv}
use fiona.Stream.Send
use fiona.Stream.Send.{complete_send}
use fiona.Stream.Close
use fiona.Stream.Close.{complete_close}
use fiona.Stream.Control.{
  cancel_suspend, complete_cancel, cancel_resume, shutdown_suspend, complete_shutdown,
  shutdown_resume, complete_timeout_cancel,
}
use fiona.Stream.Refs.{Balanced}

module _ (owners : ℕ) (s : StreamImpl) (b : Balanced owners s) where
  pub sends-Balanced :
      (now len h : ℕ) (t : StreamImpl) (cs : List Call)
      → Send.await_suspend now len s h ≡ ok (t, cs)
      → Balanced owners t
  unfolding Send.await_suspend frame_refs
  sends-Balanced now len h t cs e = ground arith

  pub groups-Balanced :
      (bgid : ℕ) (group : Option BufRing) (t : StreamImpl)
      → Recv.set_buffer_group s bgid group ≡ ok t
      → Balanced owners t
  unfolding Recv.set_buffer_group frame_refs
  groups-Balanced bgid group t e = ground arith

  pub timeouts-Balanced : (ts : Timespec) → Balanced owners (set_timeout s ts).0
  unfolding set_timeout frame_refs
  timeouts-Balanced ts = record {
    refs = b.refs;
    cancel = b.cancel;
    close = b.close;
    shutdown = b.shutdown;
    send = b.send;
  }

  pub send_completes-Balanced :
      (cqe : Cqe)
      → (s.send.op.initiated && not s.send.op.done) ≡ true
      → Balanced owners (complete_send s cqe).1
  unfolding complete_send frame_refs
  send_completes-Balanced cqe h = ground arith

  pub send_resumes-Balanced : s.send.op.done ≡ true → Balanced owners (Send.await_resume s).0
  unfolding Send.await_resume frame_refs
  send_resumes-Balanced h = ground arith

  pub closes-Balanced :
      (h : ℕ) → s.close.initiated ≡ false → Balanced owners (Close.await_suspend s h).0
  unfolding Close.await_suspend frame_refs
  closes-Balanced h i = ground arith

  pub close_completes-Balanced :
      (fds : List ℕ) (cqe : Cqe)
      → (s.close.initiated && not s.close.done) ≡ true
      → Balanced owners (complete_close s fds cqe).1
  unfolding complete_close frame_refs
  close_completes-Balanced fds cqe h = ground arith

  pub close_resumes-Balanced : s.close.done ≡ true → Balanced owners (Close.await_resume s).0
  unfolding Close.await_resume frame_refs
  close_resumes-Balanced h = ground arith

  pub cancels-Balanced :
      (h : ℕ) → s.cancel.initiated ≡ false → Balanced owners (cancel_suspend s h).0
  unfolding cancel_suspend frame_refs
  cancels-Balanced h i = ground arith

  pub cancel_completes-Balanced :
      (cqe : Cqe)
      → (s.cancel.initiated && not s.cancel.done) ≡ true
      → Balanced owners (complete_cancel s cqe).1
  unfolding complete_cancel frame_refs
  cancel_completes-Balanced cqe h = ground arith

  pub cancel_resumes-Balanced : s.cancel.done ≡ true → Balanced owners (cancel_resume s).0
  unfolding cancel_resume frame_refs
  cancel_resumes-Balanced h = ground arith

  pub shutdowns-Balanced :
      (how h : ℕ) → s.shutdown.op.initiated ≡ false → Balanced owners (shutdown_suspend how s h).0
  unfolding shutdown_suspend frame_refs
  shutdowns-Balanced how h i = ground arith

  pub shutdown_completes-Balanced :
      (cqe : Cqe)
      → (s.shutdown.op.initiated && not s.shutdown.op.done) ≡ true
      → Balanced owners (complete_shutdown s cqe).1
  unfolding complete_shutdown frame_refs
  shutdown_completes-Balanced cqe h = ground arith

  pub shutdown_resumes-Balanced : s.shutdown.op.done ≡ true → Balanced owners (shutdown_resume s).0
  unfolding shutdown_resume frame_refs
  shutdown_resumes-Balanced h = ground arith

  handle-Balanced : (h : Option ℕ) → Balanced owners (record s { recv = record (s.recv) { h = h } })
  unfolding frame_refs
  handle-Balanced h = record {
    refs = b.refs;
    cancel = b.cancel;
    close = b.close;
    shutdown = b.shutdown;
    send = b.send;
  }

  schedule_recv-Balanced :
      (now : ℕ) → s.recv.initiated ≡ false → Balanced owners (Recv.schedule_recv now s).0
  unfolding Recv.schedule_recv frame_refs
  schedule_recv-Balanced now e = record {
    refs = ground (arith, b.refs);
    cancel = b.cancel;
    close = b.close;
    shutdown = b.shutdown;
    send = b.send;
  }

module _ (owners : ℕ) (s : StreamImpl) (b : Balanced owners s) where
  pub recvs-Balanced : (now h : ℕ) → Balanced owners (Recv.await_suspend now s h).0
  unfolding Recv.await_suspend
  recvs-Balanced now h =
      let s' : StreamImpl = record s { recv = record (s.recv) { h = some h } } in
      let b' : Balanced owners s' = handle-Balanced owners s b (some h) in
      let P : StreamImpl × Result ℤ Bool × List Call → Type 0 = λ out. Balanced owners out.0 in
      if_cases P (is_some s.recv.ec) b' (λ e. if_cases P s.recv.initiated b' (λ i.
        if_cases P (is_errno s.recv.buffer_group_id 1) b'
          (λ g. schedule_recv-Balanced owners s' b' now i)))

  recv_taken-Balanced :
      (now : ℕ) (ring ring' : BufRing) (cqe : Cqe) (t : StreamImpl)
      → s.recv.initiated ≡ true
      → taken_in now s ring cqe ≡ some (t, ring')
      → Balanced owners (record t { recv = record (t.recv) { h = none }; count = t.count - 1 })
  unfolding taken_in frame_refs
  recv_taken-Balanced now ring ring' cqe t i e = ground arith

  pub recv_completes-Balanced :
      (now : ℕ) (ring ring' : BufRing) (cqe : Cqe) (h : Option ℕ) (s' : StreamImpl)
      → s.recv.initiated ≡ true
      → complete_recv now s ring cqe ≡ some (h, s', ring')
      → Balanced owners s'
  unfolding complete_recv
  recv_completes-Balanced now ring ring' cqe h s' i e =
      go (asserts_fail s.recv.ec ring cqe) (taken_in now s ring cqe)
        (λ t r f. recv_taken-Balanced now ring r cqe t i f) e
    where
      go :
          (fails : Bool) (o : Option (StreamImpl × BufRing))
          → ((t : StreamImpl) (r : BufRing)
              → o ≡ some (t, r)
              → Balanced owners
                  (record t { recv = record (t.recv) { h = none }; count = t.count - 1 }))
          → elim (if fails then none else o) as (λ x. Option (Option ℕ × StreamImpl × BufRing)) [
            | none ↦ none
            | some (t, r) ↦
                some (
                  t.recv.h,
                  record t { recv = record (t.recv) { h = none }; count = t.count - 1 },
                  r,
                )
          ]
            ≡ some (h, s', ring')
          → Balanced owners s'
      go true o k f = absurd (cc)
      go false none k f = absurd (cc)
      go false (some (t, r)) k f =
          subst (Balanced owners) (ap (λ q. q.1) (some-injective _ _ f)) (k t r refl)

  pub recv_resumes-Balanced : (ring : BufRing) → Balanced owners (Recv.await_resume s ring).0
  unfolding Recv.await_resume frame_refs
  recv_resumes-Balanced ring = ground arith

  pub timeout_cancels-Balanced :
      (cqe : Cqe)
      → s.timeout_cancel.initiated ≡ true
      → Balanced owners (complete_timeout_cancel s cqe)
  unfolding complete_timeout_cancel frame_refs
  timeout_cancels-Balanced cqe i = ground arith
