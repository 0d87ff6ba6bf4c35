-- ===== src/Client/Tests.antt =====
-- A new client, with slots 4 and 5 free.
use fiona.Errno.{einval}
use fiona.Base.{◌≡◌, refl, ℤ, pos, negsuc, true, false, err, none, some, [], ◌∷◌}
use fiona.Ring.Entries.{Cqe}
use fiona.Ring.{reserves, submits}
use fiona.Stream.Frames.{idle}
use fiona.Client.{
  ClientImpl, inet6, unknown, client_impl, async_connect, await_suspend, complete_socket,
  complete_connect, await_resume, destroy_awaitable,
}
use fiona.Client.Connect.{IsIdle, chain, connect_lem, connect_resumed_twice}

abbrev cqe : ℤ → Cqe
cqe res = record { res = res; more = false; buffer_id = 0 }

-- The client as it is made at time 0, connecting to an IPv6 address.
abbrev fresh : ClientImpl
fresh = record ((client_impl 0).0) { family = inet6 }

fresh-IsIdle : IsIdle fresh
unfolding client_impl
fresh-IsIdle = record { socket = refl; connect = refl }

no_slot : fresh.stream.fd ≡ negsuc 0
unfolding client_impl
no_slot = refl

unknown_family : async_connect fresh unknown ≡ err (pos einval)
unfolding async_connect
unknown_family = refl

nothing_to_cancel : destroy_awaitable fresh ≡ reserves 0 ∷ submits ∷ []
unfolding destroy_awaitable client_impl
nothing_to_cancel = refl

-- The client on slot 4, connected.
abbrev connected : ClientImpl
connected = record fresh { stream = record (fresh.stream) { fd = pos 4; connected = true } }

connected-IsIdle : IsIdle connected
unfolding client_impl
connected-IsIdle = record { socket = refl; connect = refl }

connect_lem_example :
    let started = await_suspend fresh 32 (4 ∷ 5 ∷ []) in
    let socketed = complete_socket started.0 started.3 (cqe (pos 0)) in
    let completed = complete_connect socketed.1 (cqe (negsuc 110)) in
    let reset = record (completed.1) { socket = idle; connect = idle } in
    (started.1 ≡ true)
    × (started.2 ≡ chain inet6 4)
    × (socketed.0 ≡ none)
    × (socketed.2 ≡ 5 ∷ [])
    × (completed.0 ≡ some 32)
    × (await_resume completed.1 ≡ some (reset, err (pos 111)))
    × (reset.stream.fd ≡ pos 4)
    × (reset.stream.count ≡ fresh.stream.count)
connect_lem_example =
    connect_lem 32 4 (5 ∷ []) fresh (cqe (pos 0)) (cqe (negsuc 110)) fresh-IsIdle no_slot refl

connect_resumed_twice_example :
    let started = await_suspend fresh 32 (4 ∷ 5 ∷ []) in
    let socketed = complete_socket started.0 started.3 (cqe (negsuc 22)) in
    let completed = complete_connect socketed.1 (cqe (negsuc 124)) in
    (socketed.0 ≡ some 32)
    × (completed.0 ≡ some 32)
    × (socketed.2 ≡ 4 ∷ 5 ∷ [])
    × (socketed.1.stream.fd ≡ negsuc 0)
    × (await_resume completed.1 ≡ none)
connect_resumed_twice_example =
    connect_resumed_twice 32 4 (5 ∷ []) fresh (cqe (negsuc 22)) (cqe (negsuc 124)) fresh-IsIdle
      no_slot refl refl
