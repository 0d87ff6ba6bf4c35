-- ===== src/Lib.antt =====
-- Fiona: a coroutine runtime on io_uring. A program's coroutines await operations; an operation
-- prepares entries on the submission queue of the ring, under a frame that the entry's `user_data`
-- points to; `io_context::run` (src/io_context.cpp) waits for completions, hands each to its frame
-- (`await_process_cqe`), drops the reference that the submission held, and resumes the coroutine whose
-- handle the frame gives up (`handle`). What is modelled is this bookkeeping: which entries are
-- queued, who is resumed with what, which slot, buffer or reference is held by whom.
--
-- Conventions. A member function becomes a function from the object's record to the new record and,
-- where the code talks to the ring, the list of `Call`s that it makes, in order. An exception or an
-- error code is an errno value as an integer in `Result`; a failed assertion, a dead object or an
-- access out of range is `none`. A coroutine handle is its address; a frame as `user_data` is a
-- constructor of `Frame`. Times are nanoseconds on the steady clock and arguments of the operations.
-- Names are those of the source, without the trailing underscore of a field.
--
-- The files:
-- - Base: Boolean tests, lists, integers, results and bits over the native numbers.
-- - Errno: the errno values that the library names.
-- - Ring (include/fiona/detail/get_sqe.hpp): `submit_ring`, `get_sqe`, `reserve_sqes`, and `exec`,
--   which runs calls against a liburing. Liburing is a parameter, the record `Liburing`;
--   Ring/Submission has what it documents (`Documented`) and what follows for runs of calls.
-- - Buffers/Fixed (`fixed_buffers`, `fixed_buffer`) and Buffers/Provided (`buf_ring`) of
--   include/fiona/detail/common.hpp and src/common.cpp; the taking of a buffer by a completion is from
--   src/detail/stream_impl.hpp and the refill from `recv_awaitable::await_resume` of src/tcp.cpp.
--   Buffers/Linked (include/fiona/buffer.hpp) is `recv_buffer_sequence`, a linked list of headers in
--   a heap, which refines a list of buffers; Buffers/Sequence (src/buffer.cpp) copies its bytes;
--   Buffers/Owned is `recv_buffer` as the owner of an allocation.
-- - Timer (src/time.cpp, include/fiona/detail/time.hpp): the wait and its cancellation.
-- - Executor (include/fiona/executor.hpp, include/fiona/detail/common.hpp, src/io_context.cpp): Files
--   has the fixed-file slots, Wake the words that cross the pipe, Tasks the task map and the counts of
--   coroutine frames, Groups the buffer groups. Tasks/Handles has the copies of `internal_task`.
-- - Stream (src/tcp.cpp, src/detail/stream_impl.hpp): a TCP stream and its frames; Timeout, Recv,
--   Send and Close have the operation of that name, Control the cancellation and the shutdown, Refs
--   the reference count, Calls the use of the submission queue by all of them.
-- - Acceptor (src/tcp.cpp): `acceptor_impl` and its frames; Construct has its constructor, Laws the
--   slots of accepts and of the acceptor itself, Refs the reference count.
-- - Client (src/tcp.cpp, src/detail/stream_impl.hpp): a client, which is a stream with two more frames.
-- - RunLoop (src/io_context.cpp, src/detail/awaitable_base.hpp): the loop around the completions, the
--   exceptions that leave it, and the clean-up. Frames and coroutines are a parameter there (`Program`).
--   RunLoop/Frame has the constructor and the destructor of `io_context_frame`.
-- - Task (include/fiona/task.hpp, include/fiona/executor.hpp): the promises of coroutines, which carry a
--   value or an exception to who awaits it; Task/Handles has `task` as the owner of a frame.
-- - File (src/file.cpp): opening, writing and reading of files.
-- - Tls (src/tls/tls.cpp): the callbacks through which Botan hands over plaintext and data to send, and,
--   in Tls/Session, the coroutines around them. A channel of Botan is a parameter, the record
--   `Channel`: what a call of it calls back, what it throws, and its next state. The TCP stream is a
--   parameter by its answers. Session/Recv has a receiver of bytes without buffers, which
--   `async_recv_impl` refines (Session/Refines). Tls/Credentials is the credentials manager, over the
--   certificates and keys of Botan.
-- - Dns (src/dns.cpp): the resolver and its thread, over `getaddrinfo` as a parameter.
-- - Ip (src/ip.cpp): addresses from text, and the text of an IPv4 address, over `inet_pton` and `inet_ntop` as parameters.
--
-- Bounds and fuel. Most loops are structural recursions on the list or count that the code walks. Four
-- take fuel: the receipt of a TLS record, for which its length is enough; the end and the iteration of
-- a linked sequence, for which the number of its buffers plus one is enough; and the loop over the run
-- queue, for which more than any weight that each resumption lessens is enough.
-- Words are 64-bit where they cross the pipe; a buffer group's id is taken modulo 2 ^ 16 and a
-- ring's length modulo 2 ^ 32, as the casts of the source do. Reference counts, which the source keeps
-- in an int, are natural numbers.
--
-- An assertion of the source is a fault of the model (`none`) only where its definition says so. Those on
-- the free slots, on the buffer flag of a received completion, on the slot of a stream that cancels and on
-- the count of a stream that is destroyed are not tested: a comment at the definition says it, and
-- Executor/Files/Ownership and Stream/Refs/Life show the first and the last for the runs that they are
-- about.
--
-- Not modelled: what src/tls only passes on to Botan (the loading of certificates and keys, the
-- validation of a path); the errors' categories and the exported declarations,
-- which have no state; the tests and the benchmarks.
pub mod Base
pub mod Errno
pub mod Ring
pub mod Buffers
pub mod Timer
pub mod Executor
pub mod Stream
pub mod Acceptor
pub mod Client
pub mod RunLoop
pub mod Task
pub mod File
pub mod Tls
pub mod Dns
pub mod Ip
