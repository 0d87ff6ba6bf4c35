-- ===== src/Stream/Calls.antt =====
-- The calls on the ring that a stream makes.
use fiona.Base.{ℕ, ◌≤◌, ◌≡◌, ℤ, true, some, List, arith}
use fiona.Ring.Entries.{Cqe, Timespec}
use fiona.Ring.{Call, Liburing, exec, covered}
use fiona.Ring.Submission.{Documented, Accepts, exec_total}
use fiona.Stream.{StreamImpl, stream_impl, destroy_impl, destroy_stream, set_timeout}
use fiona.Stream.Timeout.{process_timeout}
use fiona.Stream.Recv
use fiona.Stream.Send.{async_send}
use fiona.Stream.Close
use fiona.Stream.Control.{cancel_suspend, shutdown_suspend}

-- Whatever of the stream's code talks to the ring.
pub data Operation : Type 0 where
  constructs : (now : ℕ) (fd : ℤ) → Operation
  destructs : (fds : List ℕ) → Operation
  releases : Operation
  sets_timeout : (ts : Timespec) → Operation
  ticks : (now : ℕ) (cqe : Cqe) → Operation
  sends : (now len h : ℕ) → Operation
  recvs : (now h : ℕ) → Operation
  closes : (h : ℕ) → Operation
  cancels : (h : ℕ) → Operation
  shutdowns : (how h : ℕ) → Operation

pub calls : Operation → StreamImpl → List Call
calls (constructs now fd) s = (stream_impl now fd).1
calls (destructs fds) s = (destroy_impl s fds).2
calls releases s = (destroy_stream s).1
calls (sets_timeout ts) s = (set_timeout s ts).1
calls (ticks now cqe) s = (process_timeout now s cqe).1
calls (sends now len h) s = (async_send now len s h).2
calls (recvs now h) s = (Recv.await_suspend now s h).2
calls (closes h) s = (Close.await_suspend s h).1
calls (cancels h) s = (cancel_suspend s h).1
calls (shutdowns how h) s = (shutdown_suspend how s h).1

calls-covered :
    (o : Operation) (s : StreamImpl) (entries : ℕ)
    → 3 ≤ entries
    → covered entries 0 (calls o s) ≡ true
unfolding calls covered
calls-covered (constructs now fd) s entries h = unfold stream_impl in ground arith
calls-covered (destructs fds) s entries h = unfold destroy_impl in ground arith
calls-covered releases s entries h = unfold destroy_stream in ground arith
calls-covered (sets_timeout ts) s entries h = unfold set_timeout in ground arith
calls-covered (ticks now cqe) s entries h = unfold process_timeout in ground arith
calls-covered (sends now len h') s entries h = unfold async_send in ground arith
calls-covered (recvs now h') s entries h = unfold Recv.await_suspend in ground arith
calls-covered (closes h') s entries h = unfold Close.await_suspend in ground arith
calls-covered (cancels h') s entries h = unfold cancel_suspend in ground arith
calls-covered (shutdowns how h') s entries h = unfold shutdown_suspend in ground arith

-- On a ring of at least three entries of a liburing that does what it documents, no operation of a
-- stream, in any state of it, writes a submission through a null pointer, whatever is queued when it
-- starts, where the kernel takes whole each submission that the operation makes.
pub calls_total :
    (u : Liburing) (entries : ℕ)
    → Documented u entries
    → 3 ≤ entries
    → (o : Operation) (s : StreamImpl) (r : u.Ring) → Accepts u entries (calls o s) r
    → (r' : u.Ring) × (exec u (calls o s) r ≡ some r')
calls_total u entries d h o s r k =
    exec_total u entries d (calls o s) 0 r (calls-covered o s entries h) (omega arith) k
