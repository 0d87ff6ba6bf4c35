-- ===== src/File.antt =====
-- Files: `file_impl` with its three frames, and the awaitables that open, write and read, of
-- src/file.cpp. A buffer is its length; offsets are always 0 and left out.
pub mod Open
pub mod Transfer
pub mod Tests
use fiona.Errno.{ebusy}
use fiona.Base.{
  ℕ, suc, ◌-◌, ◌%◌, ℤ, pos, negsuc, neg, is_neg, is_zero, Bool, true, false, not, ◌&&◌, Result, ok,
  err, Option, none, some, List, [], ◌∷◌, if◌then◌else◌,
}
use fiona.Ring.Entries.{
  Cqe, Frame, opens, writes, reads, Op, cancel, close_direct, open_direct, write, write_fixed, read,
  read_fixed, fixed_file, skip_success,
}
use fiona.Ring.{Call, reserves, prepares, gets, submits}
use fiona.Executor.Files.{get_available_fd, release_fd}

pub record OpenFrame : Type 0 where
  pub h : Option ℕ
  pub temp_fd : ℤ
  pub pathname : List ℕ
  pub flags : ℤ
  pub res : ℤ
  pub initiated : Bool
  pub done : Bool

-- `open_frame::reset`, and the state of a new frame.
abbrev pub no_open : OpenFrame
no_open = record {
  h = none;
  temp_fd = negsuc 0;
  pathname = [];
  flags = negsuc 0;
  res = pos 0;
  initiated = false;
  done = false;
}

-- `write_frame` and `read_frame`, which have the same members; `size` is that of `buf_`.
pub record TransferFrame : Type 0 where
  pub size : ℕ
  pub h : Option ℕ
  pub buf_index : ℤ
  pub res : ℤ
  pub initiated : Bool
  pub done : Bool

-- `write_frame::reset` and `read_frame::reset`, and the state of a new frame.
abbrev pub no_transfer : TransferFrame
no_transfer = record {
  size = 0;
  h = none;
  buf_index = negsuc 0;
  res = pos 0;
  initiated = false;
  done = false;
}

-- `file_impl`, with the count of `ref_count`.
pub record FileImpl : Type 0 where
  pub open_frame : OpenFrame
  pub write_frame : TransferFrame
  pub read_frame : TransferFrame
  pub fd : ℤ
  pub count : ℕ

-- `file::file`
abbrev pub new_file : FileImpl
new_file = record {
  open_frame = no_open;
  write_frame = no_transfer;
  read_frame = no_transfer;
  fd = negsuc 0;
  count = 1;
}

-- `~file_impl`, with the free slots that it leaves.
unfoldable pub destroy_impl : FileImpl → List ℕ → FileImpl × List ℕ × List Call
unfolding release_fd
destroy_impl f fds = if is_neg f.fd then (f, fds, []) else (
  record f { fd = negsuc 0 },
  release_fd f.fd fds,
  gets (record { op = close_direct f.fd; user_data = none; flags = skip_success ∷ [] })
      ∷ submits
      ∷ [],
)

-- The cancellation that the end of an awaitable queues where its frame is in flight.
abbrev cancels_if : Bool → Frame → List Call
cancels_if in_flight frame =
    if in_flight
    then reserves 1
      ∷ prepares (record { op = cancel frame; user_data = none; flags = skip_success ∷ [] })
      ∷ submits
      ∷ []
    else []

-- `file::async_open`
unfoldable pub async_open : FileImpl → (pathname : List ℕ) → (flags : ℤ) → FileImpl
async_open f pathname flags = record f {
  open_frame = record (f.open_frame) { pathname = pathname; flags = flags };
}

-- `open_awaitable::await_suspend`, with the free slots that it leaves. A slot of -1 stands for
-- IORING_FILE_INDEX_ALLOC once it is cast to unsigned.
unfoldable pub open_suspend : FileImpl → (h : ℕ) → List ℕ → FileImpl × List ℕ × List Call
unfolding get_available_fd
open_suspend f h fds =
    let (file_index, fds') = get_available_fd fds in
    (
      record f {
        open_frame = record (f.open_frame) { initiated = true; h = some h; temp_fd = file_index };
        count = suc f.count;
      },
      fds',
      reserves 1
          ∷ prepares (record {
            op = open_direct f.open_frame.pathname f.open_frame.flags file_index;
            user_data = some opens;
            flags = [];
          })
          ∷ [],
    )

-- `open_frame::await_process_cqe`; `none` is its assertion that fails.
unfoldable pub process_open : FileImpl → List ℕ → Cqe → Option (FileImpl × List ℕ)
unfolding release_fd
process_open f fds cqe =
    let frame = record (f.open_frame) { done = true; res = cqe.res; temp_fd = negsuc 0 } in
    if not (is_neg cqe.res)
    then some (record f { open_frame = frame; fd = f.open_frame.temp_fd }, fds)
    else if is_neg f.open_frame.temp_fd
    then none
    else some (record f { open_frame = frame }, release_fd f.open_frame.temp_fd fds)

-- The handle that a completed opening gives up, and the release of its reference.
abbrev opened : FileImpl × List ℕ → Option ℕ × FileImpl × List ℕ
opened (f, fds) = (
  f.open_frame.h,
  record f { open_frame = record (f.open_frame) { h = none }; count = f.count - 1 },
  fds,
)

-- The loop's round on a completion of the opening.
unfoldable pub complete_open : FileImpl → List ℕ → Cqe → Option (Option ℕ × FileImpl × List ℕ)
unfolding process_open
complete_open f fds cqe = elim (process_open f fds cqe) [ none ↦ none | some p ↦ some (opened p) ]

-- `open_awaitable::await_resume`
unfoldable pub open_resume : FileImpl → FileImpl × Result ℤ (Unit {0})
open_resume f = (
  record f { open_frame = no_open },
  if is_zero f.open_frame.res then ok tt else err (neg f.open_frame.res),
)

-- `~open_awaitable`
unfoldable pub destroy_open : FileImpl → List Call
destroy_open f = cancels_if (f.open_frame.initiated && not f.open_frame.done) opens

-- What tells writing and reading apart.
pub record Direction : Type 0 where
  pub frame : Frame
  pub plain : ℤ → ℕ → Op
  pub fixed : ℤ → ℕ → ℤ → Op

abbrev pub writing : Direction
writing = record { frame = writes; plain = write; fixed = write_fixed }

abbrev pub reading : Direction
reading = record { frame = reads; plain = read; fixed = read_fixed }

-- `async_write` and `async_read`, on the frame: the index of the buffer is left as it is.
unfoldable pub async_transfer : TransferFrame → (size : ℕ) → TransferFrame
async_transfer t size = record t { size = size }

-- `async_write_fixed` and `async_read_fixed`, on the frame.
unfoldable pub async_transfer_fixed : TransferFrame → (size buf_index : ℕ) → TransferFrame
async_transfer_fixed t size buf_index = record t { size = size; buf_index = pos buf_index }

-- The entry for the frame on file `fd`.
abbrev pub entry_op : Direction → ℤ → TransferFrame → Op
entry_op d fd t =
    if is_neg t.buf_index
    then d.plain fd (t.size % 0x1_0000_0000)
    else d.fixed fd (t.size % 0x1_0000_0000) t.buf_index

-- `await_suspend` of a `write_awaitable` or `read_awaitable`, on the frame.
unfoldable pub transfer_suspend :
    Direction → ℤ → TransferFrame → (h : ℕ) → Result ℤ (TransferFrame × List Call)
transfer_suspend d fd t h =
    if t.initiated
    then err (pos ebusy)
    else ok (
      record t { initiated = true; h = some h },
      reserves 1
          ∷ gets
              (record { op = entry_op d fd t; user_data = some d.frame; flags = fixed_file ∷ [] })
          ∷ [],
    )

-- `write_frame::await_process_cqe` and `read_frame::await_process_cqe`, and then `handle`.
unfoldable pub complete_transfer : TransferFrame → Cqe → Option ℕ × TransferFrame
complete_transfer t cqe = (t.h, record t { res = cqe.res; done = true; h = none })

-- `await_resume` of a `write_awaitable` or `read_awaitable`, on the frame.
unfoldable pub transfer_resume : TransferFrame → TransferFrame × Result ℤ ℤ
transfer_resume t = (no_transfer, if is_neg t.res then err (neg t.res) else ok t.res)

-- `~write_awaitable` and `~read_awaitable`, on the frame.
unfoldable pub destroy_transfer : Direction → TransferFrame → List Call
destroy_transfer d t = cancels_if (t.initiated && not t.done) d.frame

abbrev queued_write : FileImpl → TransferFrame × List Call → FileImpl × List Call
queued_write f (t, cs) = (record f { write_frame = t; count = suc f.count }, cs)

abbrev queued_read : FileImpl → TransferFrame × List Call → FileImpl × List Call
queued_read f (t, cs) = (record f { read_frame = t; count = suc f.count }, cs)

-- `write_awaitable::await_suspend`
unfoldable pub write_suspend : FileImpl → (h : ℕ) → Result ℤ (FileImpl × List Call)
unfolding transfer_suspend
write_suspend f h = elim (transfer_suspend writing f.fd f.write_frame h) [
  | err e ↦ err e
  | ok p ↦ ok (queued_write f p)
]

-- `read_awaitable::await_suspend`
unfoldable pub read_suspend : FileImpl → (h : ℕ) → Result ℤ (FileImpl × List Call)
unfolding transfer_suspend
read_suspend f h = elim (transfer_suspend reading f.fd f.read_frame h) [
  | err e ↦ err e
  | ok p ↦ ok (queued_read f p)
]

-- The loop's round on a completion of a write.
unfoldable pub complete_write : FileImpl → Cqe → Option ℕ × FileImpl
unfolding complete_transfer
complete_write f cqe =
    let (h, t) = complete_transfer f.write_frame cqe in
    (h, record f { write_frame = t; count = f.count - 1 })

-- The loop's round on a completion of a read.
unfoldable pub complete_read : FileImpl → Cqe → Option ℕ × FileImpl
unfolding complete_transfer
complete_read f cqe =
    let (h, t) = complete_transfer f.read_frame cqe in
    (h, record f { read_frame = t; count = f.count - 1 })

-- `write_awaitable::await_resume`
unfoldable pub write_resume : FileImpl → FileImpl × Result ℤ ℤ
unfolding transfer_resume
write_resume f = let (t, r) = transfer_resume f.write_frame in (record f { write_frame = t }, r)

-- `read_awaitable::await_resume`
unfoldable pub read_resume : FileImpl → FileImpl × Result ℤ ℤ
unfolding transfer_resume
read_resume f = let (t, r) = transfer_resume f.read_frame in (record f { read_frame = t }, r)
