-- ===== src/File/Tests.antt =====
-- A new file, with slots 4 and 5 free; the path is "a".
use fiona.Base.{◌≡◌, refl, false, ℤ, pos, negsuc, err, some, [], ◌∷◌}
use fiona.Ring.Entries.{Cqe}
use fiona.File.{
  FileImpl, no_open, new_file, async_open, open_suspend, complete_open, open_resume, destroy_impl,
  destroy_open,
}
use fiona.File.Open.{opening, open_lem}

abbrev cqe : ℤ → Cqe
cqe res = record { res = res; more = false; buffer_id = 0 }

open_lem_example :
    let started = open_suspend (async_open new_file (97 ∷ []) (pos 0)) 32 (4 ∷ 5 ∷ []) in
    (started.2 ≡ opening (97 ∷ []) (pos 0) (pos 4))
    × (d : FileImpl) × (complete_open started.0 started.1 (cqe (negsuc 1))
        ≡ some (some 32, d, 4 ∷ 5 ∷ []))
    × (d.fd ≡ negsuc 0)
    × (d.count ≡ 1)
    × ((open_resume d).1 ≡ err (pos 2))
    × ((open_resume d).0.open_frame ≡ no_open)
    × ((destroy_impl d (4 ∷ 5 ∷ [])).1 ≡ 4 ∷ 5 ∷ [])
open_lem_example = open_lem (97 ∷ []) (pos 0) 32 4 (5 ∷ []) new_file (cqe (negsuc 1)) refl refl refl

nothing_in_flight : destroy_open new_file ≡ []
unfolding destroy_open
nothing_in_flight = refl
