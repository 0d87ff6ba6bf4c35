-- ===== src/Buffers/Linked/Tests.antt =====
-- Two sequences, with their sentries at 10 and 20; buffers at 1, 2 and 3.
use fiona.Base.{List, ℕ, ◌≡◌, refl, none, some, [], ◌∷◌, arith, ◌==◌, ◌>>=◌, if◌then◌else◌, leb}
use fiona.Buffers.Linked.{
  Headers, Sequence, push_back, pop_front, concat, free_list, forwards, begin,
}
use fiona.Buffers.Linked.Chain.{Represents}
use fiona.Buffers.Linked.Join.{standard}
use fiona.Buffers.Linked.Push.{Untouched, push_back-Represents}
use fiona.Buffers.Linked.Pop.{pop_front-Represents}
use fiona.Buffers.Linked.Move.{concat-Represents}
use mathlib.Core.List.{reverse}
use fiona.Buffers.Linked.Backwards.{backwards-forwards}
use fiona.Buffers.Linked.{forwards, backwards, begin, front, back}
use fiona.Buffers.Linked.Free.{Freed, free_list-Represents}

abbrev blank : Headers
blank = record {
  live = λ a. leb a 30;
  size = λ a. 0;
  capacity = λ a. 64;
  prev = λ a. 0;
  next = λ a. 0;
}

abbrev empty_at : ℕ → Sequence
empty_at t = standard t []

-- The sequence 1, 2, in order, and another with 3; then both together.
abbrev two : Headers
two = record blank {
  prev = λ a. if a == 2 then 1 else if a == 10 then 2 else 0;
  next = λ a. if a == 1 then 2 else if a == 2 then 10 else 0;
}

both_pushed :
    (push_back (empty_at 10) 1 blank >>= λ r.
    push_back r.0 2 r.1 >>= λ q. forwards 3 10 (begin q.0) q.1)
    ≡ some (1 ∷ 2 ∷ [])
unfolding push_back forwards begin
both_pushed = refl

no_buffer : pop_front (empty_at 10) blank ≡ none
unfolding pop_front
no_buffer = refl

two-Represents : Represents two (standard 10 (1 ∷ 2 ∷ [])) (1 ∷ 2 ∷ [])
two-Represents = record {
  head = refl;
  tail = refl;
  count = refl;
  chain = (refl, refl, refl, (refl, refl, refl, tt));
  sentry = refl;
  back = refl;
  apart = (refl, (refl, (refl, tt)));
  real = (omega arith, (omega arith, (omega arith, tt)));
}

empty-Represents : Represents two (empty_at 20) []
empty-Represents = record {
  head = refl;
  tail = refl;
  count = refl;
  chain = tt;
  sentry = refl;
  back = refl;
  apart = (refl, tt);
  real = (omega arith, tt);
}

push_back-Represents_example :
    (s' : Sequence) × (g : Headers) × (push_back (standard 10 (1 ∷ 2 ∷ [])) 3 two ≡ some (s', g))
    × Represents g s' (1 ∷ 2 ∷ 3 ∷ [])
    × Untouched two g
    × (s'.sentry ≡ 10)
push_back-Represents_example =
    push_back-Represents two (standard 10 (1 ∷ 2 ∷ [])) (1 ∷ 2 ∷ []) 3 two-Represents refl refl refl
      (omega arith)

pop_front-Represents_example :
    (s' : Sequence) × (g : Headers) × (pop_front (standard 10 (1 ∷ 2 ∷ [])) two ≡ some (1, s', g))
    × Represents g s' (2 ∷ [])
    × Untouched two g
    × (g.prev 1 ≡ 0)
    × (g.next 1 ≡ 0)
    × (s'.sentry ≡ 10)
pop_front-Represents_example =
    pop_front-Represents two (standard 10 (1 ∷ 2 ∷ [])) 1 (2 ∷ []) two-Represents

concat-Represents_example :
    (s' rhs' : Sequence) × (g : Headers) × (concat (empty_at 20) (standard 10 (1 ∷ 2 ∷ [])) two
      ≡ some (s', rhs', g))
    × Represents g s' (1 ∷ 2 ∷ [])
    × Represents g rhs' []
    × Untouched two g
concat-Represents_example =
    concat-Represents two (empty_at 20) (standard 10 (1 ∷ 2 ∷ [])) [] (1 ∷ 2 ∷ []) empty-Represents
      two-Represents (λ a i. ground arith)

free_list-Represents_example :
    (s' : Sequence) × (g : Headers) × (free_list 3 (standard 10 (1 ∷ 2 ∷ [])) two ≡ some (s', g))
    × Represents g s' []
    × Freed (1 ∷ 2 ∷ []) two g
free_list-Represents_example =
    free_list-Represents two (standard 10 (1 ∷ 2 ∷ [])) (1 ∷ 2 ∷ []) 3 two-Represents (omega arith)

backwards-forwards_example :
    (visited : List ℕ) × (forwards 3 10 (begin (standard 10 (1 ∷ 2 ∷ []))) two ≡ some visited)
    × (backwards 3 (begin (standard 10 (1 ∷ 2 ∷ []))) 10 two ≡ some (reverse visited))
backwards-forwards_example =
    backwards-forwards two (standard 10 (1 ∷ 2 ∷ [])) (1 ∷ 2 ∷ []) 3 two-Represents (omega arith)

ends : (front (standard 10 (1 ∷ 2 ∷ [])) ≡ some 1) × (back (standard 10 (1 ∷ 2 ∷ [])) ≡ some 2)
unfolding front back
ends = (refl, refl)
