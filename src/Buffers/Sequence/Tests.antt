-- ===== src/Buffers/Sequence/Tests.antt =====
-- A sequence of three buffers, the second of them empty.
use fiona.Base.{ℕ, ◌≡◌, refl, List, [], ◌∷◌}
use fiona.Buffers.Sequence.{buffer_copy, to_bytes}

abbrev hello : List (List ℕ)
hello = (104 ∷ 101 ∷ []) ∷ [] ∷ (108 ∷ 108 ∷ 111 ∷ []) ∷ []

hello-to_bytes : to_bytes hello ≡ 104 ∷ 101 ∷ 108 ∷ 108 ∷ 111 ∷ []
unfolding to_bytes
hello-to_bytes = refl

-- A span that is too short gets what fits.
short_copy : buffer_copy (0 ∷ 0 ∷ 0 ∷ []) hello ≡ (104 ∷ 101 ∷ 108 ∷ [], 3)
unfolding buffer_copy
short_copy = refl
