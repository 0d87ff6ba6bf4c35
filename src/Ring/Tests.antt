-- ===== src/Ring/Tests.antt =====
-- A ring of four entries that only counts and queues, and runs against it.
use fiona.Base.{
  ℕ, zero, suc, ◌<◌, ◌≡◌, refl, pos, none, some, Option, List, [], ◌∷◌, ◌++◌, map, arith,
}
use fiona.Ring.Entries.{Sqe, cancel_fd, close_direct, hardlink, skip_success, closes}
use fiona.Ring.{
  Call, Liburing, reserves, prepares, gets, submits, reserve_sqes, submit_ring, exec_call, exec,
  covered,
}
use fiona.Ring.Submission.{Documented, Accepts, exec_total}

abbrev take_slot : ℕ × List Sqe → Option (ℕ × List Sqe)
take_slot (zero, q) = none
take_slot (suc n, q) = some (n, q)

abbrev pub four : Liburing
four = record {
  Ring = ℕ × List Sqe;
  sq_space_left = λ r. r.0;
  pending = λ r. r.1;
  io_uring_get_sqe = take_slot;
  fill = λ r s. (r.0, r.1 ++ s ∷ []);
  submit_and_get_events = λ r. (4, []);
}

four-room : (r : ℕ × List Sqe) → 0 < r.0 → (r' : ℕ × List Sqe) × (take_slot r ≡ some r')
four-room (zero, q) h = elim h [ ]
four-room (suc n, q) h = ((n, q), refl)

four-one : (r r' : ℕ × List Sqe) → take_slot r ≡ some r' → (suc r'.0 ≡ r.0) × (r'.1 ≡ r.1)
four-one (zero, q) r' e = cc
four-one (suc n, q) r' e = ground arith

pub four-Documented : Documented four 4
four-Documented = record {
  gets_while_room = four-room;
  takes_one = λ r r' s e. (four-one r r' e).0;
  queues_last = λ r r' s e. rw ((four-one r r' e).1) refl;
}

pub four-Accepts : (cs : List Call) (r : ℕ × List Sqe) → Accepts four 4 cs r
four-Accepts [] r = tt
four-Accepts (reserves n ∷ cs) r = ((λ e. refl), λ r' e. four-Accepts cs r')
four-Accepts (prepares s ∷ cs) r = (tt, λ r' e. four-Accepts cs r')
four-Accepts (gets s ∷ cs) r = ((λ e. refl), λ r' e. four-Accepts cs r')
four-Accepts (submits ∷ cs) r = (refl, λ r' e. four-Accepts cs r')

-- The same ring, of a kernel that refuses what is submitted.
abbrev refusing : Liburing
refusing = record four { submit_and_get_events = λ r. r }

abbrev pair : List Sqe
pair =
    record { op = cancel_fd (pos 7); user_data = none; flags = hardlink ∷ skip_success ∷ [] }
    ∷ record { op = close_direct (pos 7); user_data = some closes; flags = [] }
    ∷ []

-- With one place left the reservation submits first, and the pair goes out together.
full_ring : exec four (reserves 2 ∷ map prepares pair) (1, pair) ≡ some (2, pair)
unfolding exec exec_call reserve_sqes submit_ring
full_ring = refl

-- Without the reservation the second entry is a null pointer.
no_reservation : exec four (map prepares pair) (1, []) ≡ none
unfolding exec exec_call
no_reservation = refl

-- Nor does a reservation make room where the submission is refused: the second entry is null.
refused : exec refusing (reserves 2 ∷ map prepares pair) (1, []) ≡ none
unfolding exec exec_call reserve_sqes submit_ring
refused = refl

exec_total_example :
    (r' : ℕ × List Sqe) × (exec four (reserves 2 ∷ map prepares pair) (1, []) ≡ some r')
unfolding covered
exec_total_example =
    exec_total four 4 four-Documented (reserves 2 ∷ map prepares pair) 0 (1, []) refl (omega arith)
      (four-Accepts (reserves 2 ∷ map prepares pair) (1, []))
