-- ===== src/Ring/Entries.antt =====
-- The submission queue entries that the library prepares: one constructor of `Op` for each
-- `io_uring_prep_*` call of src/, the flags, and the `user_data` as the frame that it points to.
use fiona.Base.{ℕ, ℤ, Bool, Option, List}

-- The classes that derive from `awaitable_base`, as targets of `io_uring_sqe_set_data`.
pub data Frame : Type 0 where
  pipe timer_timeout timer_cancel : Frame
  cancels closes shutdowns sends recvs timeouts timeout_cancels : Frame
  sockets connects : Frame
  accepts acceptor_cancels acceptor_closes : Frame
  opens writes reads : Frame

-- `__kernel_timespec`
pub record Timespec : Type 0 where
  pub sec : ℤ
  pub nsec : ℕ

-- A `timeout` entry points at the `ts_` of its frame's object, and the kernel reads the time there
-- when the entry is submitted.
pub data Op : Type 0 where
  cancel : Frame → Op
  cancel_fd : ℤ → Op
  close_direct : ℤ → Op
  timeout : Frame → Op
  timeout_multishot : Frame → Op
  timeout_remove : Frame → Op
  link_timeout : Op
  shutdown : ℤ → ℕ → Op
  send : ℤ → ℕ → Op
  recv_multishot : ℤ → ℤ → Op
  socket_direct : Bool → ℤ → Op
  connect : ℤ → ℕ → Op
  accept_direct : ℤ → ℤ → Op
  read : ℤ → ℕ → Op
  open_direct : (pathname : List ℕ) → (flags file_index : ℤ) → Op
  write : ℤ → ℕ → Op
  write_fixed : ℤ → ℕ → ℤ → Op
  read_fixed : ℤ → ℕ → ℤ → Op

pub data Flag : Type 0 where
  fixed_file io_link hardlink skip_success buffer_select : Flag

-- `user_data` is `none` for a null pointer.
pub record Sqe : Type 0 where
  pub op : Op
  pub user_data : Option Frame
  pub flags : List Flag

-- `io_uring_cqe`: `res`, and of `flags` the bit IORING_CQE_F_MORE and the buffer id above
-- IORING_CQE_BUFFER_SHIFT.
pub record Cqe : Type 0 where
  pub res : ℤ
  pub more : Bool
  pub buffer_id : ℕ
