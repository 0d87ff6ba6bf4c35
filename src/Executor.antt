-- ===== src/Executor.antt =====
-- include/fiona/executor.hpp and the state of include/fiona/detail/common.hpp behind it.
pub mod Files
pub mod Wake
pub mod Tasks
pub mod Groups
