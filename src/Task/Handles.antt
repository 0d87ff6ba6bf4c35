-- ===== src/Task/Handles.antt =====
-- `task` of include/fiona/task.hpp as the owner of the frame of a coroutine. A task is known by a number; it
-- holds the address of a frame, and 0 is the null handle. What touches a frame that does not live, a
-- task that does not, or fails an assertion, is `none`.
pub mod Owners
pub mod Tests
use fiona.Base.{◌>>=◌, ℕ, ◌==◌, Bool, true, false, Option, none, some, if◌then◌else◌}
use fiona.Buffers.Linked.{at}

-- The frames that live, and the tasks.
pub record Handles : Type 0 where
  pub live : ℕ → Bool
  pub tasks : ℕ → Option ℕ

-- A new frame at `p`, and the task that `get_return_object` makes of it.
unfoldable pub start : (i p : ℕ) → Handles → Option Handles
start i p st = some (record { live = at st.live p true; tasks = at st.tasks i (some p) })

-- The move constructor.
unfoldable pub move_construct : (i rhs : ℕ) → Handles → Option Handles
move_construct i rhs st =
    st.tasks rhs >>= λ p. some (record st { tasks = at (at st.tasks i (some p)) rhs (some 0) })

-- The move assignment, which exchanges the two.
unfoldable pub move_assign : (i rhs : ℕ) → Handles → Option Handles
move_assign i rhs st = if i == rhs then some st else (do
  p ← st.tasks i
  q ← st.tasks rhs
  some (record st { tasks = at (at st.tasks i (some q)) rhs (some p) }))

-- `h_.destroy()` where there is a handle.
unfoldable pub destroy_frame : ℕ → (ℕ → Bool) → Option (ℕ → Bool)
destroy_frame p live = if p == 0 then some live else if live p then some (at live p false) else none

-- The destructor.
unfoldable pub destroy : ℕ → Handles → Option Handles
unfolding destroy_frame
destroy i st = do
  p ← st.tasks i
  live ← destroy_frame p st.live
  some (record { live = live; tasks = at st.tasks i none })

-- `into_address`
unfoldable pub into_address : ℕ → Handles → Option (ℕ × Handles)
into_address i st = st.tasks i >>= λ p.
    if p == 0 then none else some (p, record st { tasks = at st.tasks i (some 0) })

-- `from_address`
unfoldable pub from_address : (i p : ℕ) → Handles → Handles
from_address i p st = record st { tasks = at st.tasks i (some p) }

pub data Operation : Type 0 where
  starts : (i p : ℕ) → Operation
  moves : (i rhs : ℕ) → Operation
  assigns : (i rhs : ℕ) → Operation
  destroys : (i : ℕ) → Operation
  -- `into_address` of one task, and `from_address` of the same word into another
  posts : (i rhs : ℕ) → Operation

unfoldable pub operate : Operation → Handles → Option Handles
unfolding start move_construct move_assign destroy into_address from_address
operate (starts i p) st = start i p st
operate (moves i rhs) st = move_construct i rhs st
operate (assigns i rhs) st = move_assign i rhs st
operate (destroys i) st = destroy i st
operate (posts i rhs) st = into_address rhs st >>= λ q. some (from_address i q.0 q.1)
