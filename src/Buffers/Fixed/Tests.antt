-- ===== src/Buffers/Fixed/Tests.antt =====
-- Pools of two and three buffers, taken from and given back to.
use fiona.Base.{◌≡◌, refl, none, List, [], ◌∷◌, arith, length}
use fiona.Buffers.Fixed.{fixed_buffers, get_avail_buf, Use, takes, drops, use_all}
use fiona.Buffers.Fixed.Supply.{fresh, indices, given_up-never-reused}

abbrev give_back : List Use
give_back = takes ∷ drops 0 ∷ takes ∷ drops 0 ∷ []

abbrev keep_two : List Use
keep_two = takes ∷ takes ∷ drops 0 ∷ takes ∷ []

-- Both buffers were given up, and the pool has none.
nothing_left : length (use_all (fresh 2 64) give_back).held ≡ 0
unfolding use_all fixed_buffers
nothing_left = refl

keep_two-indices : indices (use_all (fresh 3 64) keep_two).held ≡ 0 ∷ 2 ∷ []
unfolding use_all fixed_buffers
keep_two-indices = refl

given_up-never-reused_example : get_avail_buf (use_all (fresh 2 64) give_back).pool ≡ none
given_up-never-reused_example = given_up-never-reused 2 64 give_back (omega arith)
