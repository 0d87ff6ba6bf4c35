-- ===== src/Buffers.antt =====
-- The buffers that the library lends to the kernel: provided buffers (`Buffers.Provided`) and
-- registered ones (`Buffers.Fixed`), of include/fiona/detail/common.hpp and src/common.cpp; and the
-- sequences of received buffers (`Buffers.Linked`, `Buffers.Sequence`), of include/fiona/buffer.hpp and
-- src/buffer.cpp.
pub mod Fixed
pub mod Linked
pub mod Owned
pub mod Provided
pub mod Sequence
