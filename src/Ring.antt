-- ===== src/Ring.antt =====
-- include/fiona/detail/get_sqe.hpp, and the vocabulary of what the library queues on the ring.
-- Code that talks to io_uring is modelled by the list of calls that it makes, in order; liburing
-- itself is a parameter (`Liburing`), and `exec` runs a list of calls against it.
pub mod Entries
pub mod Submission
pub mod Tests
use Entries.{Sqe}
use fiona.Base.{
  ℕ, zero, suc, Bool, true, false, ◌&&◌, Option, none, some, List, [], ◌∷◌, ltb, leb, if◌then◌else◌,
}

-- What liburing offers: a ring, the room that `io_uring_sq_space_left` reports, and the three calls
-- that change the ring. `get_sqe` is `none` where `io_uring_get_sqe` returns a null pointer; `fill`
-- stands for the `io_uring_prep_*` and `io_uring_sqe_set_*` calls on the entry just taken;
-- `pending` lists the entries that wait for the next submission.
pub record Liburing : Type 1 where
  pub Ring : Type 0
  pub sq_space_left : Ring → ℕ
  pub pending : Ring → List Sqe
  pub io_uring_get_sqe : Ring → Option Ring
  pub fill : Ring → Sqe → Ring
  pub submit_and_get_events : Ring → Ring

-- The calls of the library's code, in the order of the source.
pub data Call : Type 0 where
  -- `fiona::detail::reserve_sqes( ring, n )`
  reserves : ℕ → Call
  -- `io_uring_get_sqe( ring )`, unchecked, and the preparation of the entry
  prepares : Sqe → Call
  -- `fiona::detail::get_sqe( ring )`, and the preparation of the entry
  gets : Sqe → Call
  -- `fiona::detail::submit_ring( ring )`
  submits : Call

module _ (u : Liburing) where
  open u use {Ring, sq_space_left, io_uring_get_sqe, fill, submit_and_get_events}

  pub submit_ring : Ring → Ring
  submit_ring r = submit_and_get_events r

  -- The second null pointer is the failed `BOOST_ASSERT( sqe )`.
  pub get_sqe : Ring → Option Ring
  unfolding submit_ring
  get_sqe r = elim (io_uring_get_sqe r) [
    | some r' ↦ some r'
    | none ↦ io_uring_get_sqe (submit_ring r)
  ]

  pub reserve_sqes : Ring → ℕ → Ring
  unfolding submit_ring
  reserve_sqes r n = if ltb (sq_space_left r) n then submit_ring r else r

  abbrev filled : Sqe → Option Ring → Option Ring
  filled s none = none
  filled s (some r) = some (fill r s)

  -- `none` is a null pointer written through.
  pub exec_call : Call → Ring → Option Ring
  unfolding get_sqe reserve_sqes submit_ring
  exec_call (reserves n) r = some (reserve_sqes r n)
  exec_call (prepares s) r = filled s (io_uring_get_sqe r)
  exec_call (gets s) r = filled s (get_sqe r)
  exec_call submits r = some (submit_ring r)

  pub exec : List Call → Ring → Option Ring
  exec [] r = some r
  exec (c ∷ cs) r = elim (exec_call c r) [ none ↦ none | some r' ↦ exec cs r' ]

-- Every unchecked entry is covered by a reservation: with `room` entries known to be free, on a ring
-- of `entries` entries.
unfoldable pub covered : (entries room : ℕ) → List Call → Bool
covered entries room [] = true
covered entries room (reserves n ∷ cs) = leb n entries && covered entries n cs
covered entries zero (prepares s ∷ cs) = false
covered entries (suc room) (prepares s ∷ cs) = covered entries room cs
covered entries room (gets s ∷ cs) = leb 1 entries && covered entries 0 cs
covered entries room (submits ∷ cs) = covered entries entries cs
