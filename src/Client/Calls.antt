-- ===== src/Client/Calls.antt =====
-- The calls on the ring that a client makes, beside those of its stream.
use fiona.Base.{ℕ, ◌≤◌, ◌≡◌, true, some, List, arith}
use fiona.Ring.{Call, Liburing, exec, covered}
use fiona.Ring.Submission.{Documented, Accepts, exec_total}
use fiona.Client.{ClientImpl, await_suspend, destroy_awaitable, destroy_client}

pub data Operation : Type 0 where
  connects : (h : ℕ) (fds : List ℕ) → Operation
  drops : Operation
  destructs : Operation

pub calls : Operation → ClientImpl → List Call
calls (connects h fds) c = (await_suspend c h fds).2
calls drops c = destroy_awaitable c
calls destructs c = (destroy_client c).1

calls-covered :
    (entries : ℕ)
    → 3 ≤ entries
    → (o : Operation) (c : ClientImpl) → covered entries 0 (calls o c) ≡ true
unfolding calls covered await_suspend destroy_awaitable destroy_client
calls-covered entries e (connects h fds) c = ground arith
calls-covered entries e drops c = ground arith
calls-covered entries e destructs c = ground arith

-- On a ring of at least three entries no attempt to connect, no end of one, and no end of a client
-- writes a submission through a null pointer, in any state of the client and of the queue, where the
-- kernel takes whole each submission that is made.
client_calls_total :
    (u : Liburing) (entries : ℕ)
    → Documented u entries
    → 3 ≤ entries
    → (o : Operation) (c : ClientImpl) (r : u.Ring) → Accepts u entries (calls o c) r
    → (r' : u.Ring) × (exec u (calls o c) r ≡ some r')
client_calls_total u entries d e o c r k =
    exec_total u entries d (calls o c) 0 r (calls-covered entries e o c) (omega arith) k
