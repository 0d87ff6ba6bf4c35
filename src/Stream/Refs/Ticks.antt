-- ===== src/Stream/Refs/Ticks.antt =====
-- The tick of the timeout, and the end of an owner: operations on the two timeout frames.
use mathlib.Core.Path.{subst}
use fiona.Base.{ℕ, suc, ◌+◌, ◌≡◌, sym, true, false, ◌&&◌, arith, to_int}
use fiona.Ring.Entries.{Cqe}
use fiona.Stream.Frames.{ShutdownFrame, SendFrame, active}
use fiona.Stream.{StreamImpl, frame_refs, queue_timer_cancel, cancel_timer, destroy_stream}
use fiona.Stream.Timeout.{complete_timeout, should_cancel}
use fiona.Stream.Refs.{Balanced, IsOrdered}

-- The references of the frames that a tick does not touch.
pub others : StreamImpl → ℕ
others s =
    active s.cancel
    + active s.close
    + active s.shutdown.op
    + active s.send.op
    + to_int s.recv.initiated

pub frame_refs-others :
    (s : StreamImpl)
    → frame_refs s ≡ others s + to_int s.timeout_cancel.initiated + to_int s.timeout.initiated
unfolding frame_refs others
frame_refs-others s = omega arith

-- Two streams whose other frames are the same.
pub record Same (s t : StreamImpl) : Type 0 where
  pub cancel : t.cancel ≡ s.cancel
  pub close : t.close ≡ s.close
  pub shutdown : t.shutdown ≡ s.shutdown
  pub send : t.send ≡ s.send
  pub recv : t.recv ≡ s.recv

pub others-Same : (s t : StreamImpl) → Same s t → others t ≡ others s
unfolding others
others-Same s t e = cc (e.cancel, e.close, e.shutdown, e.send, e.recv)

Balanced-Same :
    (owners : ℕ) (s t : StreamImpl)
    → Same s t
    → t.count ≡ owners + others s + to_int t.timeout_cancel.initiated + to_int t.timeout.initiated
    → {m : ℕ} → Balanced m s
    → Balanced owners t
Balanced-Same owners s t e q b = record {
  refs = omega (arith, frame_refs-others t, others-Same s t e);
  cancel = subst IsOrdered (sym e.cancel) b.cancel;
  close = subst IsOrdered (sym e.close) b.close;
  shutdown = subst (λ (f : ShutdownFrame). IsOrdered f.op) (sym e.shutdown) b.shutdown;
  send = subst (λ (f : SendFrame). IsOrdered f.op) (sym e.send) b.send;
}

pub complete_timeout-Same :
    (now : ℕ) (s : StreamImpl) (cqe : Cqe) → Same s (complete_timeout now s cqe).0
unfolding complete_timeout
complete_timeout-Same now s cqe = ground arith

complete_timeout-count :
    (now : ℕ) (s : StreamImpl) (cqe : Cqe) (n : ℕ)
    → s.count ≡ n + to_int s.timeout_cancel.initiated + to_int s.timeout.initiated
    → s.timeout.initiated ≡ true
    → (should_cancel now s && s.timeout_cancel.initiated) ≡ false
    → let t = (complete_timeout now s cqe).0 in
      t.count ≡ n + to_int t.timeout_cancel.initiated + to_int t.timeout.initiated
unfolding complete_timeout
complete_timeout-count now s cqe n e i q = ground arith

-- A tick keeps the balance, if it does not cancel the stream's operations a second time while such a
-- cancellation is in flight.
pub ticks-Balanced :
    (owners : ℕ) (s : StreamImpl)
    → Balanced owners s
    → (now : ℕ) (cqe : Cqe) → s.timeout.initiated ≡ true
    → (should_cancel now s && s.timeout_cancel.initiated) ≡ false
    → Balanced owners (complete_timeout now s cqe).0
ticks-Balanced owners s b now cqe i q =
    Balanced-Same owners s (complete_timeout now s cqe).0 (complete_timeout-Same now s cqe)
      (complete_timeout-count now s cqe (owners + others s)
        (omega (arith, b.refs, frame_refs-others s)) i q)
      b

destroy_stream-Same : (s : StreamImpl) → Same s (destroy_stream s).0
unfolding destroy_stream cancel_timer queue_timer_cancel
destroy_stream-Same s = ground arith

destroy_stream-count :
    (s : StreamImpl) (n : ℕ)
    → s.count ≡ suc n + to_int s.timeout_cancel.initiated + to_int s.timeout.initiated
    → let t = (destroy_stream s).0 in
      t.count ≡ n + to_int t.timeout_cancel.initiated + to_int t.timeout.initiated
unfolding destroy_stream cancel_timer queue_timer_cancel
destroy_stream-count s n e = ground arith

-- The end of an owner leaves the references of the others.
pub destroys-Balanced :
    (owners : ℕ) (s : StreamImpl) → Balanced (suc owners) s → Balanced owners (destroy_stream s).0
destroys-Balanced owners s b =
    Balanced-Same owners s (destroy_stream s).0 (destroy_stream-Same s)
      (destroy_stream-count s (owners + others s) (omega (arith, b.refs, frame_refs-others s))) b
