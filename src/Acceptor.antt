-- ===== src/Acceptor.antt =====
-- The acceptors of src/tcp.cpp: `accept_frame`, `acceptor_close_frame`, `acceptor_impl`, and the
-- awaitables that accept, cancel and close. `fds` is the list of free slots of the executor. The
-- children say what comes of the operations.
pub mod Construct
pub mod Laws
pub mod Refs
pub mod Tests
use fiona.Errno.{ebusy, enfile, ebadfd}
use fiona.Base.{
  ℕ, suc, ◌-◌, ℤ, pos, negsuc, neg, pos_part, is_neg, Bool, true, false, not, ◌&&◌, Result, ok, err,
  Option, none, some, List, [], ◌∷◌, if◌then◌else◌,
}
use fiona.Ring.Entries.{
  Cqe, accepts, acceptor_cancels, acceptor_closes, cancel, cancel_fd, close_direct, accept_direct,
  fixed_file, hardlink, skip_success,
}
use fiona.Ring.{Call, reserves, prepares, gets, submits}
use fiona.Executor.Files.{get_available_fd, release_fd}
use fiona.Stream.Frames.{OpFrame, idle, process_op, take_handle, initiate}
use fiona.Stream.{StreamImpl, stream_impl}

pub record AcceptFrame : Type 0 where
  pub h : Option ℕ
  pub peer_fd : ℤ
  pub initiated : Bool
  pub done : Bool

-- `accept_frame::reset`, and the state of a new frame.
abbrev pub no_accept : AcceptFrame
no_accept = record { h = none; peer_fd = negsuc 0; initiated = false; done = false }

-- `acceptor_impl`, with the count of `ref_count`; the stored address is its family.
pub record AcceptorImpl : Type 0 where
  pub accept : AcceptFrame
  pub cancel : OpFrame
  pub close : OpFrame
  pub fd : ℤ
  pub is_ipv4 : Bool
  pub count : ℕ

-- The last part of the constructor, once the socket listens: `update` is what
-- `io_uring_register_files_update` answers, `none` for success. The acceptor has one owner.
registered : (is_ipv4 : Bool) (update : Option ℕ) → ℤ × List ℕ → Result ℤ AcceptorImpl × List ℕ
registered is_ipv4 update (negsuc n, fds) = (err (pos enfile), fds)
registered is_ipv4 none (pos off, fds) = (
  ok (record {
    accept = no_accept;
    cancel = idle;
    close = idle;
    fd = pos off;
    is_ipv4 = is_ipv4;
    count = 1;
  }),
  fds,
)
registered is_ipv4 (some e) (pos off, fds) = (err (pos e), fds)

-- The constructor of `acceptor_impl`, on the answers of `socket`, `bind`, `listen` and
-- `getsockname` (`some` is -1 with that errno), with the free slots that it leaves.
unfoldable pub acceptor_impl :
    (is_ipv4 : Bool) (socket bind listen getsockname update : Option ℕ)
    → List ℕ
    → Result ℤ AcceptorImpl × List ℕ
unfolding registered get_available_fd
acceptor_impl is_ipv4 (some e) bind listen name update fds = (err (pos e), fds)
acceptor_impl is_ipv4 none (some e) listen name update fds = (err (pos e), fds)
acceptor_impl is_ipv4 none none (some e) name update fds = (err (pos e), fds)
acceptor_impl is_ipv4 none none none (some e) update fds = (err (pos e), fds)
acceptor_impl is_ipv4 none none none none update fds =
    registered is_ipv4 update (get_available_fd fds)

-- `~acceptor_impl`
unfoldable pub destroy_impl : AcceptorImpl → List ℕ → AcceptorImpl × List ℕ × List Call
unfolding release_fd
destroy_impl a fds = if is_neg a.fd then (a, fds, []) else (
  record a { fd = negsuc 0 },
  release_fd a.fd fds,
  gets (record { op = close_direct a.fd; user_data = none; flags = skip_success ∷ [] })
      ∷ submits
      ∷ [],
)

-- A copy of the acceptor's `p_acceptor_`, which an awaitable is constructed with and which a copy of
-- the acceptor has, and its destruction.
unfoldable pub hold : AcceptorImpl → AcceptorImpl
hold a = record a { count = suc a.count }

unfoldable pub let_go : AcceptorImpl → AcceptorImpl
let_go a = record a { count = a.count - 1 }

-- `accept_frame::await_process_cqe`: the slot of a failed accept is given back.
unfoldable pub process_accept : AcceptFrame → List ℕ → Cqe → AcceptFrame × List ℕ
unfolding release_fd
process_accept f fds cqe =
    if is_neg cqe.res
    then (record f { peer_fd = cqe.res; done = true }, release_fd f.peer_fd fds)
    else (record f { done = true }, fds)

-- The loop's round on a completion of the accept.
unfoldable pub complete_accept : AcceptorImpl → List ℕ → Cqe → Option ℕ × AcceptorImpl × List ℕ
unfolding process_accept
complete_accept a fds cqe =
    let (f, fds') = process_accept a.accept fds cqe in
    (f.h, record a { accept = record f { h = none }; count = a.count - 1 }, fds')

-- `~accept_awaitable`
unfoldable pub destroy_awaitable : AcceptorImpl → List Call
destroy_awaitable a =
    if a.accept.initiated && not a.accept.done
    then reserves 1
      ∷ prepares (record { op = cancel accepts; user_data = none; flags = skip_success ∷ [] })
      ∷ submits
      ∷ []
    else []

queue_accept : AcceptorImpl → ℕ → ℤ × List ℕ → Result ℤ (AcceptorImpl × List Call) × List ℕ
queue_accept a h (negsuc n, fds) = (err (pos enfile), fds)
queue_accept a h (pos i, fds) = (
  ok (
    record a {
      accept = record (a.accept) { h = some h; peer_fd = pos i; initiated = true };
      count = suc a.count;
    },
    reserves 1
        ∷ prepares (record {
          op = accept_direct a.fd (pos i);
          user_data = some accepts;
          flags = fixed_file ∷ [];
        })
        ∷ [],
  ),
  fds,
)

-- `accept_awaitable::await_suspend`
unfoldable pub await_suspend :
    AcceptorImpl → ℕ → List ℕ → Result ℤ (AcceptorImpl × List Call) × List ℕ
unfolding queue_accept get_available_fd
await_suspend a h fds =
    if a.accept.initiated then (err (pos ebusy), fds) else queue_accept a h (get_available_fd fds)

-- `async_accept`, awaited: the awaitable has a reference of its own. One that is refused ends at once,
-- and else it lives through the suspension.
unfoldable pub async_accept :
    AcceptorImpl → ℕ → List ℕ → AcceptorImpl × Result ℤ (Unit {0}) × List Call × List ℕ
unfolding await_suspend destroy_awaitable hold let_go
async_accept a h fds =
    let (result, fds') = await_suspend (hold a) h fds in
    elim result [
      | err e ↦ (let_go (hold a), err e, destroy_awaitable (hold a), fds')
      | ok (a', cs) ↦ (a', ok tt, cs, fds')
    ]

-- `accept_awaitable::await_resume` at time `now`: a stream on the slot of the accept.
unfoldable pub await_resume : ℕ → AcceptorImpl → AcceptorImpl × Result ℤ (StreamImpl × List Call)
unfolding stream_impl
await_resume now a = (
  record a { accept = no_accept },
  if is_neg a.accept.peer_fd
      then err (neg a.accept.peer_fd)
      else (let (s, cs) = stream_impl now a.accept.peer_fd in
          ok (record s { connected = true }, cs)),
)

-- The end of the expression after its resumption: the result is fetched and the awaitable destroyed.
unfoldable pub end_accept :
    ℕ → AcceptorImpl → AcceptorImpl × Result ℤ (StreamImpl × List Call) × List Call
unfolding await_resume destroy_awaitable let_go
end_accept now a = let (a', r) = await_resume now a in (let_go a', r, destroy_awaitable a')

-- `accept_raw_awaitable::await_resume`: the slot itself.
unfoldable pub await_resume_raw : AcceptorImpl → AcceptorImpl × Result ℤ ℤ
await_resume_raw a = (
  record a { accept = no_accept },
  if is_neg a.accept.peer_fd then err (neg a.accept.peer_fd) else ok a.accept.peer_fd,
)

-- `accept_cancel_awaitable::await_suspend`
unfoldable pub cancel_suspend : AcceptorImpl → ℕ → AcceptorImpl × List Call
unfolding initiate
cancel_suspend a h = (
  record a { cancel = initiate a.cancel h; count = suc a.count },
  reserves 1
      ∷ prepares (record { op = cancel_fd a.fd; user_data = some acceptor_cancels; flags = [] })
      ∷ [],
)

-- The loop's round on a completion of the cancellation.
unfoldable pub complete_cancel : AcceptorImpl → Cqe → Option ℕ × AcceptorImpl
unfolding process_op take_handle
complete_cancel a cqe =
    let (h, f) = take_handle (process_op a.cancel cqe) in
    (h, record a { cancel = f; count = a.count - 1 })

-- `accept_cancel_awaitable::await_resume`
unfoldable pub cancel_resume : AcceptorImpl → AcceptorImpl × Result ℤ ℕ
cancel_resume a = (
  record a { cancel = idle },
  if is_neg a.cancel.res then err (neg a.cancel.res) else ok (pos_part a.cancel.res),
)

-- `accept_close_awaitable::await_suspend`
unfoldable pub close_suspend : AcceptorImpl → ℕ → Result ℤ (AcceptorImpl × List Call)
unfolding initiate
close_suspend a h =
    if is_neg a.fd
    then err (pos ebadfd)
    else ok (
      record a { close = initiate a.close h; count = suc a.count },
      reserves 2
          ∷ prepares (record {
            op = cancel_fd a.fd;
            user_data = none;
            flags = hardlink ∷ skip_success ∷ [];
          })
          ∷ prepares
              (record { op = close_direct a.fd; user_data = some acceptor_closes; flags = [] })
          ∷ [],
    )

-- The loop's round on a completion of the close: `acceptor_close_frame::await_process_cqe` and
-- `handle`.
unfoldable pub complete_close : AcceptorImpl → List ℕ → Cqe → Option ℕ × AcceptorImpl × List ℕ
unfolding process_op take_handle release_fd
complete_close a fds cqe =
    let (h, f) = take_handle (process_op a.close cqe) in
    (h, record a { close = f; fd = negsuc 0; count = a.count - 1 }, release_fd a.fd fds)

-- `accept_close_awaitable::await_resume`
unfoldable pub close_resume : AcceptorImpl → AcceptorImpl × Result ℤ ℕ
close_resume a = (
  record a { close = idle },
  if is_neg a.close.res then err (neg a.close.res) else ok (pos_part a.close.res),
)
