-- ===== src/Executor/Tasks/Handles.antt =====
-- `internal_task` of include/fiona/executor.hpp with its copies and moves: the objects by their number, each
-- with the frame that it holds. 0 is the null handle, which an object also has that was moved from or
-- destroyed. An operation is `none` where it uses a dead frame or the null handle.
pub mod Shares
pub mod Owners
pub mod Tests
use fiona.Base.{
  ◌>>=◌, ℕ, Bool, true, false, Option, none, some, List, [], ◌∷◌, get_elem?, set, ◌==◌,
  if◌then◌else◌,
}
use fiona.Executor.Tasks.{Heap, copy, drop_ref, internal_task}

pub record Objects : Type 0 where
  pub frames : Heap
  pub objects : List ℕ

-- A new frame at `h`, and the object that `get_return_object` makes of it.
unfoldable pub start : (i h : ℕ) → Objects → Objects
unfolding internal_task
start i h st = record { frames = internal_task h st.frames; objects = set st.objects i h }

-- The copy constructor.
unfoldable pub copy_construct : (i rhs : ℕ) → Objects → Option Objects
unfolding copy
copy_construct i rhs st = do
  h ← get_elem? st.objects rhs
  f ← copy h st.frames
  some (record { frames = f; objects = set st.objects i h })

-- The copy assignment.
unfoldable pub copy_assign : (i rhs : ℕ) → Objects → Option Objects
unfolding copy drop_ref
copy_assign i rhs st = if i == rhs then some st else (do
  h ← get_elem? st.objects i
  f ← drop_ref h st.frames
  q ← get_elem? st.objects rhs
  g ← copy q f
  some (record { frames = g; objects = set st.objects i q }))

-- The move constructor.
unfoldable pub move_construct : (i rhs : ℕ) → Objects → Option Objects
move_construct i rhs st =
    get_elem? st.objects rhs >>= λ h. some (record st { objects = set (set st.objects i h) rhs 0 })

-- The move assignment, which exchanges the two.
unfoldable pub move_assign : (i rhs : ℕ) → Objects → Option Objects
move_assign i rhs st = if i == rhs then some st else (do
  h ← get_elem? st.objects i
  q ← get_elem? st.objects rhs
  some (record st { objects = set (set st.objects i q) rhs h }))

-- The destructor.
unfoldable pub destroy : ℕ → Objects → Option Objects
unfolding drop_ref
destroy i st = do
  h ← get_elem? st.objects i
  f ← if h == 0 then some st.frames else drop_ref h st.frames
  some (record { frames = f; objects = set st.objects i 0 })

pub data Operation : Type 0 where
  starts : (i h : ℕ) → Operation
  copies : (i rhs : ℕ) → Operation
  assigns : (i rhs : ℕ) → Operation
  moves : (i rhs : ℕ) → Operation
  exchanges : (i rhs : ℕ) → Operation
  destroys : (i : ℕ) → Operation

unfoldable pub operate : Operation → Objects → Option Objects
unfolding start copy_construct copy_assign move_construct move_assign destroy
operate (starts i h) st = some (start i h st)
operate (copies i rhs) st = copy_construct i rhs st
operate (assigns i rhs) st = copy_assign i rhs st
operate (moves i rhs) st = move_construct i rhs st
operate (exchanges i rhs) st = move_assign i rhs st
operate (destroys i) st = destroy i st
