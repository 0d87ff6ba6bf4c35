-- ===== src/Client.antt =====
-- A TCP client: `socket_frame`, `connect_frame` and `client_impl` of src/detail/stream_impl.hpp, `client`
-- and `connect_awaitable` of src/tcp.cpp. A client is a stream with two further frames.
pub mod Connect
pub mod Calls
pub mod Tests
use fiona.Errno.{ebusy, einval, enfile, eisconn}
use fiona.Base.{
  ℕ, suc, ◌+◌, ◌-◌, ℤ, pos, negsuc, neg, is_neg, is_errno, Bool, true, false, not, ◌&&◌, ◌||◌,
  to_int, Result, ok, err, Option, none, some, List, [], ◌∷◌, ◌++◌, if◌then◌else◌, ◌==◌,
}
use fiona.Ring.Entries.{
  Cqe, sockets, connects, cancel, socket_direct, connect, link_timeout, fixed_file, io_link,
  skip_success,
}
use fiona.Ring.{Call, reserves, prepares, submits}
use fiona.Executor.Files.{get_available_fd, release_fd}
use fiona.Stream.Frames.{OpFrame, idle, active, initiate}
use fiona.Stream.{StreamImpl, stream_impl, frame_refs, cancel_timer, cancel_recv}

-- The `sa_family` of an address; only the family and the length that follows from it matter here.
pub data Family : Type 0 where
  inet inet6 unknown : Family

-- `client_impl`, with the family of `addr_storage_`; the reference count is that of the stream.
pub record ClientImpl : Type 0 where
  pub stream : StreamImpl
  pub socket : OpFrame
  pub connect : OpFrame
  pub family : Family

-- `client::client`, at time `now`.
unfoldable pub client_impl : (now : ℕ) → ClientImpl × List Call
unfolding stream_impl
client_impl now =
    let (s, cs) = stream_impl now (negsuc 0) in
    (record { stream = s; socket = idle; connect = idle; family = unknown }, cs)

abbrev is_ipv4 : Family → Bool
is_ipv4 inet = true
is_ipv4 inet6 = false
is_ipv4 unknown = false

-- `sizeof( sockaddr_in )` and `sizeof( sockaddr_in6 )`
abbrev addrlen : Family → ℕ
addrlen f = if is_ipv4 f then 16 else 28

-- `client::async_connect`: the address is kept, or its family is refused.
unfoldable pub async_connect : ClientImpl → Family → Result ℤ ClientImpl
async_connect c inet = ok (record c { family = inet })
async_connect c inet6 = ok (record c { family = inet6 })
async_connect c unknown = err (pos einval)

-- `connect_awaitable::await_ready`
unfoldable pub await_ready : ClientImpl → Result ℤ Bool
await_ready c = if c.socket.initiated then err (pos ebusy) else ok false

-- The entries of the connection and of the timeout that is linked to it, and the frame in flight.
queue_connect : ClientImpl → ℕ → ClientImpl × List Call
unfolding initiate
queue_connect c h = (
  record c {
    connect = initiate c.connect h;
    stream = record (c.stream) { count = suc c.stream.count };
  },
  prepares (record {
    op = connect c.stream.fd (addrlen c.family);
    user_data = some connects;
    flags = io_link ∷ fixed_file ∷ [];
  })
      ∷ prepares (record { op = link_timeout; user_data = none; flags = skip_success ∷ [] })
      ∷ [],
)

-- The entry of the socket, linked to what follows.
queue_socket : ClientImpl → ℕ → ClientImpl × List Call
unfolding initiate
queue_socket c h = (
  record c {
    socket = initiate c.socket h;
    stream = record (c.stream) { count = suc c.stream.count };
  },
  prepares (record {
    op = socket_direct (is_ipv4 c.family) c.stream.fd;
    user_data = some sockets;
    flags = io_link ∷ [];
  })
      ∷ [],
)

-- `get_available_fd`, where the client has no slot.
take_slot : ClientImpl → List ℕ → ClientImpl × List ℕ
unfolding get_available_fd
take_slot c fds =
    if is_errno c.stream.fd 1
    then (let (fd, fds') = get_available_fd fds in
        (record c { stream = record (c.stream) { fd = fd } }, fds'))
    else (c, fds)

-- `connect_awaitable::await_suspend`: whether the coroutine stays suspended, with the calls and the
-- free slots. Its assertions that no attempt is in flight are the conditions of `IsIdle`
-- in Client/Connect; that the family of the address is one of the two is not tested.
unfoldable pub await_suspend : ClientImpl → ℕ → List ℕ → ClientImpl × Bool × List Call × List ℕ
unfolding queue_connect queue_socket take_slot
await_suspend c h fds =
    if not (is_neg c.stream.fd) && c.stream.connected
    then (let (c', cs) = queue_connect c h in (c', true, reserves 2 ∷ cs, fds))
    else (let (c₁, fds') = take_slot c fds in
        if is_neg c₁.stream.fd
        then (record c₁ { socket = record (c₁.socket) { res = neg (pos enfile) } }, false, [], fds')
        else (let (c₂, first) = queue_socket c₁ h in
            let (c₃, second) = queue_connect c₂ h in
            (c₃, true, reserves 3 ∷ (first ++ second), fds')))

-- `socket_frame::await_process_cqe`: a failed socket gives its slot back.
unfoldable pub process_socket : ClientImpl → List ℕ → Cqe → ClientImpl × List ℕ
unfolding release_fd
process_socket c fds cqe =
    if is_neg cqe.res
    then (
      record c {
        socket = record (c.socket) { done = true; res = cqe.res };
        stream = record (c.stream) { fd = negsuc 0 };
      },
      release_fd c.stream.fd fds,
    )
    else (record c { socket = record (c.socket) { done = true } }, fds)

-- `connect_frame::await_process_cqe`
unfoldable pub process_connect : ClientImpl → Cqe → ClientImpl
process_connect c cqe =
    if is_neg cqe.res
    then record c {
      connect = record (c.connect) { done = true; res = cqe.res };
      stream = record (c.stream) {
        connected = if is_errno cqe.res eisconn then c.stream.connected else false;
      };
    }
    else record c {
      connect = record (c.connect) { done = true };
      stream = record (c.stream) { connected = true };
    }

-- `socket_frame::handle`: only a failure resumes the coroutine.
unfoldable pub handle_socket : OpFrame → Option ℕ × OpFrame
handle_socket f = if is_neg f.res then (f.h, record f { h = none }) else (none, f)

-- The loop's round on a completion of the socket.
unfoldable pub complete_socket : ClientImpl → List ℕ → Cqe → Option ℕ × ClientImpl × List ℕ
unfolding process_socket handle_socket
complete_socket c fds cqe =
    let (c', fds') = process_socket c fds cqe in
    let (h, f) = handle_socket c'.socket in
    (h, record c' { socket = f; stream = record (c'.stream) { count = c'.stream.count - 1 } }, fds')

-- The loop's round on a completion of the connection.
unfoldable pub complete_connect : ClientImpl → Cqe → Option ℕ × ClientImpl
unfolding process_connect
complete_connect c cqe =
    let c' = process_connect c cqe in
    (
      c'.connect.h,
      record c' {
        connect = record (c'.connect) { h = none };
        stream = record (c'.stream) { count = c'.stream.count - 1 };
      },
    )

-- `connect_awaitable::await_resume`: both frames are reset, whatever the result. `none` is one of its
-- assertions that fails.
unfoldable pub await_resume : ClientImpl → Option (ClientImpl × Result ℤ (Unit {0}))
await_resume c =
    let reset = record c { socket = idle; connect = idle } in
    if is_neg c.socket.res
    then (if c.connect.done then none else some (reset, err (neg c.socket.res)))
    else if is_neg c.connect.res
    then (if (not c.socket.initiated && not c.socket.done) || (c.socket.initiated && c.socket.done)
        then some (reset, err (neg c.connect.res))
        else none)
    else some (reset, ok tt)

abbrev in_flight : OpFrame → Bool
in_flight f = f.initiated && not f.done

-- `~connect_awaitable`
unfoldable pub destroy_awaitable : ClientImpl → List Call
destroy_awaitable c =
    reserves (to_int c.socket.initiated + to_int c.connect.initiated)
    ∷ ((if in_flight c.socket
          then prepares (record { op = cancel sockets; user_data = none; flags = [] }) ∷ []
          else [])
        ++ (if in_flight c.connect
            then prepares (record { op = cancel connects; user_data = none; flags = [] }) ∷ []
            else [])
        ++ submits ∷ [])

-- `client::~client`: as `stream::~stream`, with two further frames in the count.
unfoldable pub destroy_client : ClientImpl → ClientImpl × List Call
unfolding cancel_timer cancel_recv frame_refs active
destroy_client c =
    if c.stream.count - (frame_refs c.stream + active c.socket + active c.connect) == 1
    then (let (s', cs) = cancel_timer c.stream in
        (record c { stream = record s' { count = s'.count - 1 } }, cs ++ cancel_recv s'))
    else (record c { stream = record (c.stream) { count = c.stream.count - 1 } }, [])
