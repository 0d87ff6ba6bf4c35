-- ===== src/Executor/Files/Tests.antt =====
-- A context of three slots.
use fiona.Base.{without, ◌≡◌, refl, pos, negsuc, [], ◌∷◌}
use fiona.Executor.Files.{fill, get_available_fd, release_fd}
use fiona.Executor.Files.Ownership.{Partition, here, next, takes, gives, Reach-Partition}

three : fill 0 3 [] ≡ 2 ∷ 1 ∷ 0 ∷ []
unfolding fill
three = refl

none_left : (get_available_fd []).0 ≡ negsuc 0
unfolding get_available_fd
none_left = refl

Reach-Partition_example :
    Partition 3 (record { fds = release_fd (pos 2) (0 ∷ []); owned = without 2 (1 ∷ 2 ∷ []) })
unfolding fill get_available_fd
Reach-Partition_example = Reach-Partition 3 (
    next (next (next here (takes 2 (1 ∷ 0 ∷ []) refl refl)) (takes 1 (0 ∷ []) refl refl))
      (gives 2 refl refl))
