-- ===== src/Client/Connect.antt =====
-- What a connection attempt comes to.
use fiona.Errno.{enfile}
use fiona.Base.{
  ℕ, ◌≡◌, pos, negsuc, neg, is_neg, true, false, ok, err, none, some, List, [], ◌∷◌, has, arith,
  if◌then◌else◌,
}
use fiona.Ring.Entries.{
  Cqe, sockets, connects, socket_direct, connect, link_timeout, fixed_file, io_link, skip_success,
}
use fiona.Ring.{Call, reserves, prepares}
use fiona.Stream.Frames.{idle}
use fiona.Client.{
  ClientImpl, Family, is_ipv4, addrlen, await_ready, await_suspend, complete_socket,
  complete_connect, await_resume,
}

-- Neither frame of a connection attempt is in use.
pub record IsIdle (c : ClientImpl) : Type 0 where
  pub socket : c.socket ≡ idle
  pub connect : c.connect ≡ idle

-- The chain of entries of a first connection on slot `fd`.
abbrev pub chain : (family : Family) (fd : ℕ) → List Call
chain family fd =
    reserves 3
    ∷ prepares (record {
      op = socket_direct (is_ipv4 family) (pos fd);
      user_data = some sockets;
      flags = io_link ∷ [];
    })
    ∷ prepares (record {
      op = connect (pos fd) (addrlen family);
      user_data = some connects;
      flags = io_link ∷ fixed_file ∷ [];
    })
    ∷ prepares (record { op = link_timeout; user_data = none; flags = skip_success ∷ [] })
    ∷ []

-- A client without a slot, with no attempt under way, takes a free slot and queues the chain. Once the
-- socket is made nobody is resumed; the completion of the connection resumes the caller with success
-- or the error, the client keeps the slot, another attempt can start, and the references are as before.
pub connect_lem :
    (h fd : ℕ) (rest : List ℕ) (c : ClientImpl) (made finished : Cqe)
    → IsIdle c
    → c.stream.fd ≡ negsuc 0
    → is_neg made.res ≡ false
    → let started = await_suspend c h (fd ∷ rest) in
      let socketed = complete_socket started.0 started.3 made in
      let completed = complete_connect socketed.1 finished in
      let reset = record (completed.1) { socket = idle; connect = idle } in
      (started.1 ≡ true)
      × (started.2 ≡ chain c.family fd)
      × (socketed.0 ≡ none)
      × (socketed.2 ≡ rest)
      × (completed.0 ≡ some h)
      × (await_resume completed.1
          ≡ some (reset, if is_neg finished.res then err (neg finished.res) else ok tt))
      × (reset.stream.fd ≡ pos fd)
      × (reset.stream.count ≡ c.stream.count)
unfolding await_suspend complete_socket complete_connect await_resume
connect_lem h fd rest c made finished i f m = ground (arith, i.socket, i.connect)

-- With no free slot nothing is queued: the caller goes on at once, with ENFILE, and the client is as
-- before.
connect_full :
    (h : ℕ) (c : ClientImpl)
    → IsIdle c
    → c.stream.fd ≡ negsuc 0
    → let started = await_suspend c h [] in
      (started.1 ≡ false) × (started.2 ≡ []) × (await_resume started.0 ≡ some (c, err (pos enfile)))
unfolding await_suspend await_resume
connect_full h c i f = ground (arith, i.socket, i.connect)

-- Where the socket cannot be made, its completion gives the slot back and hands out the caller's
-- handle, and so does the completion of the connection, which the kernel cancels with the link: the
-- coroutine is resumed twice if both completions are in one round of the loop, and its first
-- resumption then fails an assertion.
pub connect_resumed_twice :
    (h fd : ℕ) (rest : List ℕ) (c : ClientImpl) (made finished : Cqe)
    → IsIdle c
    → c.stream.fd ≡ negsuc 0
    → has fd rest ≡ false
    → is_neg made.res ≡ true
    → let started = await_suspend c h (fd ∷ rest) in
      let socketed = complete_socket started.0 started.3 made in
      let completed = complete_connect socketed.1 finished in
      (socketed.0 ≡ some h)
      × (completed.0 ≡ some h)
      × (socketed.2 ≡ fd ∷ rest)
      × (socketed.1.stream.fd ≡ negsuc 0)
      × (await_resume completed.1 ≡ none)
unfolding await_suspend complete_socket complete_connect await_resume
connect_resumed_twice h fd rest c made finished i f o m = ground (arith, i.socket, i.connect)

-- A connected client that connects again queues the connection without a socket. While it is in
-- flight a further attempt is not refused: the test for EBUSY looks at the frame of the socket alone.
reconnect_lem :
    (h : ℕ) (fds : List ℕ) (c : ClientImpl)
    → IsIdle c
    → is_neg c.stream.fd ≡ false
    → c.stream.connected ≡ true
    → let started = await_suspend c h fds in
      (started.1 ≡ true)
      × (started.3 ≡ fds)
      × (started.0.connect.initiated ≡ true)
      × (await_ready started.0 ≡ ok false)
unfolding await_suspend await_ready
reconnect_lem h fds c i f k = ground (arith, i.socket, i.connect)
