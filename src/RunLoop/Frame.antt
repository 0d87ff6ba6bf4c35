-- ===== src/RunLoop/Frame.antt =====
-- The constructor and the destructor of `io_context_frame`, in src/io_context.cpp, with the descriptors
-- and the rings of the process.
use fiona.Base.{
  ℕ, suc, ◌+◌, ◌-◌, ℤ, pos, neg, not, Result, ok, err, Option, none, some, List, [], if◌then◌else◌,
  is_zero, is_pos,
}
use fiona.Executor.Files.{fill}

pub record Params : Type 0 where
  pub sq_entries : ℕ
  pub cq_entries : ℕ
  pub num_files : ℕ

-- The open ends of pipes, and the rings that are initialised.
pub record Process : Type 0 where
  pub pipe_ends : ℕ
  pub rings : ℕ

-- What the calls of the constructor give: the errno of `pipe`, and the results of the others.
pub record Answers : Type 0 where
  pub pipe : Option ℕ
  pub queue_init : ℤ
  pub register_ring_fd : ℤ
  pub register_files : ℤ

pub record ContextFrame : Type 0 where
  pub params : Params
  pub fds : List ℕ

-- After the registration of the ring's descriptor. The loop that fills the slots counts in an `int`, so
-- `num_files` is taken to be below 2^31.
unfoldable pub register_files : Params → Answers → Process → Result ℤ ContextFrame × Process
unfolding fill
register_files params answers w =
    if not (is_zero answers.register_files)
    then (err (neg answers.register_files), w)
    else (ok (record { params = params; fds = fill 0 params.num_files [] }), w)

-- After the initialisation of the ring; the result of the registration is 1 where it succeeds.
unfoldable pub register_ring : Params → Answers → Process → Result ℤ ContextFrame × Process
unfolding register_files
register_ring params answers w =
    if not (is_pos answers.register_ring_fd 1)
    then (err (neg answers.register_ring_fd), w)
    else register_files params answers w

-- After the pipe
unfoldable pub queue_init : Params → Answers → Process → Result ℤ ContextFrame × Process
unfolding register_ring
queue_init params answers w =
    if not (is_zero answers.queue_init)
    then (err (neg answers.queue_init), w)
    else register_ring params answers (record w { rings = suc w.rings })

-- The constructor: a frame or the errno that is thrown.
unfoldable pub io_context_frame : Params → Answers → Process → Result ℤ ContextFrame × Process
unfolding queue_init
io_context_frame params answers w = elim answers.pipe [
  | some e ↦ (err (pos e), w)
  | none ↦ queue_init params answers (record w { pipe_ends = 2 + w.pipe_ends })
]

-- The destructor
unfoldable pub destroy_frame : Process → Process
destroy_frame w = record { pipe_ends = w.pipe_ends - 2; rings = w.rings - 1 }
