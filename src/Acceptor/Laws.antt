-- ===== src/Acceptor/Laws.antt =====
-- What becomes of the slot of an accept, and of the acceptor's own.
use fiona.Errno.{ebusy, ebadfd}
use fiona.Base.{
  ℕ, ◌≡◌, refl, ℤ, pos, neg, is_neg, pos_part, true, false, Result, ok, err, some, none, List, [],
  ◌∷◌, has, arith, if◌then◌else◌,
}
use fiona.Ring.Entries.{Cqe, accepts, cancel, skip_success}
use fiona.Ring.{Call, reserves, prepares, submits}
use fiona.Stream.Frames.{idle}
use fiona.Stream.{StreamImpl, stream_impl}
use fiona.Acceptor.{
  AcceptorImpl, no_accept, async_accept, complete_accept, end_accept, close_suspend, complete_close,
  close_resume, destroy_impl,
}

-- The result of an accept on slot `fd` at time `now`.
abbrev pub accepted : (now fd : ℕ) → ℤ → Result ℤ (StreamImpl × List Call)
accepted now fd res =
    if is_neg res
    then err (neg res)
    else ok
        (record ((stream_impl now (pos fd)).0) { connected = true }, (stream_impl now (pos fd)).1)

-- An accept on an acceptor without one under way takes a free slot; its completion resumes the
-- caller. A failed accept gives the slot back, so that the free slots are as before, and the
-- caller gets the error; else the caller gets a connected stream on the slot. Afterwards the next
-- accept can start, and the references are as before.
async_accept_complete :
    (now h fd : ℕ) (rest : List ℕ) (a : AcceptorImpl) (cqe : Cqe)
    → a.accept ≡ no_accept
    → has fd rest ≡ false
    → let started = async_accept a h (fd ∷ rest) in
      let completed = complete_accept started.0 started.3 cqe in
      let resumed = end_accept now completed.1 in
      (started.1 ≡ ok tt)
      × (completed.0 ≡ some h)
      × (completed.2 ≡ (if is_neg cqe.res then fd ∷ rest else rest))
      × (resumed.1 ≡ accepted now fd cqe.res)
      × (resumed.0.accept ≡ no_accept)
      × (resumed.0.count ≡ a.count)
unfolding async_accept complete_accept end_accept
async_accept_complete now h fd rest a cqe e f = ground arith

-- An accept while one is in flight is refused with EBUSY and takes no slot, and the refused
-- awaitable cancels the accept that is in flight.
async_accept-busy :
    (h : ℕ) (fds : List ℕ) (a : AcceptorImpl)
    → a.accept.initiated ≡ true
    → a.accept.done ≡ false
    → async_accept a h fds ≡ (
      a,
      err (pos ebusy),
      reserves 1
          ∷ prepares (record { op = cancel accepts; user_data = none; flags = skip_success ∷ [] })
          ∷ submits
          ∷ [],
      fds,
    )
unfolding async_accept
async_accept-busy h fds a e f = ground arith

-- A close, where none is under way, gives the slot of an open acceptor back once, whatever the
-- kernel says of it: on completion the closer is resumed, the slot is free, the acceptor has none,
-- a second close is refused with EBADFD, and the end of the object gives nothing back and makes no
-- call. The caller gets the kernel's result.
acceptor_close_once :
    (a : AcceptorImpl) (h fd : ℕ) (fds : List ℕ) (cqe : Cqe)
    → a.close ≡ idle
    → a.fd ≡ pos fd
    → (a' : AcceptorImpl) × (cs : List Call) × (close_suspend a h ≡ ok (a', cs))
      × (let completed = complete_close a' fds cqe in
          let resumed = close_resume completed.1 in
          (completed.0 ≡ some h)
          × (has fd completed.2 ≡ true)
          × (resumed.1 ≡ (if is_neg cqe.res then err (neg cqe.res) else ok (pos_part cqe.res)))
          × (close_suspend resumed.0 h ≡ err (pos ebadfd))
          × (resumed.0.count ≡ a.count)
          × (destroy_impl resumed.0 completed.2 ≡ (resumed.0, completed.2, [])))
unfolding close_suspend complete_close close_resume destroy_impl
acceptor_close_once a h fd fds cqe e f = rw (f) (_, _, refl, ground arith)
