-- ===== src/Executor/Files.antt =====
-- The registered file slots: `get_available_fd` and `release_fd` of include/fiona/executor.hpp over
-- `fds_`, the set of free slots, and its filling by the constructor in src/io_context.cpp. The set is
-- a list of its elements in the order of the iteration, which is arbitrary.
pub mod Ownership
pub mod Tests
use fiona.Base.{ℕ, zero, suc, ℤ, pos, negsuc, Bool, true, false, List, [], ◌∷◌, has, if◌then◌else◌}

-- `for ( int i = 0; i < num_files; ++i ) fds_.insert( i )`, from slot i on.
unfoldable pub fill : (i rounds : ℕ) → List ℕ → List ℕ
fill i zero fds = fds
fill i (suc n) fds = fill (suc i) n (if has i fds then fds else i ∷ fds)

-- -1, or the slot that is taken off.
unfoldable pub get_available_fd : List ℕ → ℤ × List ℕ
get_available_fd [] = (negsuc 0, [])
get_available_fd (fd ∷ fds) = (pos fd, fds)

-- The slot joins the free ones. That it is a slot of the frame and was not free, which the source
-- asserts, is not tested: under the discipline of Ownership both are theorems about the slots.
unfoldable pub release_fd : ℤ → List ℕ → List ℕ
release_fd (negsuc n) fds = fds
release_fd (pos fd) fds = if has fd fds then fds else fd ∷ fds
