-- ===== src/Stream/Send/Laws.antt =====
-- What a send comes to.
use fiona.Errno.{ebusy}
use fiona.Base.{
  ℕ, ◌≡◌, pos, neg, pos_part, is_neg, true, false, ok, err, none, some, [], ◌∷◌, arith,
  if◌then◌else◌,
}
use fiona.Ring.Entries.{Cqe, sends, send, cancel, fixed_file, skip_success}
use fiona.Ring.{reserves, prepares, submits}
use fiona.Stream.Frames.{idle}
use fiona.Stream.{StreamImpl}
use fiona.Stream.Send.{async_send, complete_send, await_resume}

-- A send on a stream with no send under way queues one entry; its completion resumes the sender with
-- the number of bytes or the error, after which the next send can start, and the references are as
-- before. An error marks the stream as not connected.
async_send_complete :
    (now len h : ℕ) (s : StreamImpl) (cqe : Cqe)
    → s.send.op ≡ idle
    → let started = async_send now len s h in
      let completed = complete_send started.0 cqe in
      let resumed = await_resume completed.1 in
      (started.1 ≡ ok tt)
      × (started.2
          ≡ reserves 1
            ∷ prepares
                (record { op = send s.fd len; user_data = some sends; flags = fixed_file ∷ [] })
            ∷ [])
      × (completed.0 ≡ some h)
      × (resumed.1 ≡ (if is_neg cqe.res then err (neg cqe.res) else ok (pos_part cqe.res)))
      × (resumed.0.send ≡ record { op = idle; last_send = now })
      × (resumed.0.connected ≡ (if is_neg cqe.res then false else s.connected))
      × (resumed.0.count ≡ s.count)
unfolding async_send complete_send await_resume
async_send_complete now len h s cqe e = ground arith

-- A send while one is in flight is refused with EBUSY, and the refused awaitable cancels the send that
-- is in flight.
async_send-busy :
    (now len h : ℕ) (s : StreamImpl)
    → s.send.op.initiated ≡ true
    → s.send.op.done ≡ false
    → async_send now len s h ≡ (
      s,
      err (pos ebusy),
      reserves 1
          ∷ prepares (record { op = cancel sends; user_data = none; flags = skip_success ∷ [] })
          ∷ submits
          ∷ [],
    )
unfolding async_send
async_send-busy now len h s i d = ground arith
