-- ===== src/Executor/Wake.antt =====
-- The words that cross the pipe of an executor: `waker::wake` and `executor::post` of
-- include/fiona/executor.hpp write them, `frame` of src/io_context.cpp reads them. A coroutine's
-- address is a 64-bit word, and its two low bits carry the tag.
pub mod Words
pub mod Tests
use Prim.Native.Nat.{bit_and, bit_or}
use fiona.Errno.{einval}
use fiona.Base.{
  ℕ, suc, ◌+◌, ◌-◌, ℤ, pos, neg, Bool, true, false, is_pos, Result, ok, err, Option, none, some,
  List, [], ◌∷◌, ◌++◌, ◌==◌, if◌then◌else◌,
}
use fiona.Ring.Entries.{Cqe, Frame, pipe, read, cancel}
use fiona.Ring.{Call, reserves, prepares, submits}

abbrev pub wake_mask : ℕ
wake_mask = 1

abbrev pub post_mask : ℕ
post_mask = 2

-- `~( wake_mask + post_mask )` on 64 bits.
abbrev pub ptr_mask : ℕ
ptr_mask = 0xffff_ffff_ffff_fffc

-- What `write` answers: `none` is success, `some e` is -1 with errno e.
abbrev pub written : Option ℕ → ℕ → Result ℤ ℕ
written none word = ok word
written (some e) word = err (pos e)

-- `wake`: the word that goes into the pipe. `alive` tells whether `p_.lock()` finds the runtime.
unfoldable pub wake : (alive : Bool) (write : Option ℕ) (h : ℕ) → Result ℤ ℕ
wake alive write h = if alive then written write (bit_or h wake_mask) else err (pos einval)

-- `executor::post`
unfoldable pub post : (write : Option ℕ) (p : ℕ) → Result ℤ ℕ
post write p = written write (bit_or p post_mask)

-- The pipe's frame, with the word in its buffer and the reference count of its base.
pub record PipeFrame : Type 0 where
  pub h : Option ℕ
  pub buffer : ℕ
  pub fd : ℤ
  pub count : ℕ

-- What the frame asks of the scheduler: nothing, or to adopt the task at an address.
pub data Adopted : Type 0 where
  nothing : Adopted
  adopts : ℕ → Adopted

-- `schedule_recv`
pub schedule_recv : PipeFrame → PipeFrame × List Call
schedule_recv f = (
  record f { count = suc f.count },
  reserves 1 ∷ prepares (record { op = read f.fd 8; user_data = some pipe; flags = [] }) ∷ [],
)

-- The branches on the word that was read.
receive : PipeFrame → PipeFrame × Adopted
receive f =
    if bit_and f.buffer wake_mask == 0
    then if bit_and f.buffer post_mask == 0
      then (f, nothing)
      else (f, adopts (bit_and f.buffer ptr_mask))
    else (record f { h = some (bit_and f.buffer ptr_mask) }, nothing)

-- `frame::await_process_cqe`; a short or failed read is thrown.
pub process_pipe : PipeFrame → Cqe → Result ℤ (PipeFrame × Adopted × List Call)
unfolding receive schedule_recv
process_pipe f cqe =
    if is_pos cqe.res 8
    then (let (f', adopted) = receive f in
        let (f'', calls) = schedule_recv f' in ok (f'', adopted, calls))
    else err (neg cqe.res)

-- `frame::handle`
pub handle_pipe : PipeFrame → Option ℕ × PipeFrame
handle_pipe f = (f.h, record f { h = none })

-- `pipe_awaitable( ex, fd )`: its own reference, and that of the read it queues.
pub pipe_awaitable : ℤ → PipeFrame × List Call
unfolding schedule_recv
pipe_awaitable fd = schedule_recv (record { h = none; buffer = 0; fd = fd; count = 1 })

-- `~pipe_awaitable`: `cancel`, and the release of `p_`.
pub destroy_awaitable : PipeFrame → PipeFrame × List Call
destroy_awaitable f = (
  record f { count = f.count - 1 },
  reserves 1 ∷ prepares (record { op = cancel pipe; user_data = none; flags = [] }) ∷ submits ∷ [],
)
