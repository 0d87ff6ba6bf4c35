-- ===== src/Ring/Submission.antt =====
-- What `reserve_sqes` is for: no entry is written through a null pointer, and the entries of one
-- reservation stay together.
use fiona.Base.{
  ℕ, zero, suc, ◌≤◌, ◌<◌, ◌≡◌, refl, sym, ◌∙◌, inl, inr, true, none, some, List, [], ◌∷◌, ◌++◌, map,
  arith, ltb, Bool-cases, Option-cases, length,
}
use mathlib.Core.List.{append_assoc, append-nil}
use fiona.Ring.Entries.{Sqe}
use fiona.Ring.{
  Liburing, Call, reserves, prepares, gets, submits, submit_ring, get_sqe, reserve_sqes, exec_call,
  exec, covered,
}

-- What liburing documents of a ring of `entries` entries without a kernel thread that polls: an
-- entry is there while there is room, it takes one place and goes behind those that wait.
pub record Documented (u : Liburing) (entries : ℕ) : Type 0 where
  pub gets_while_room :
      (r : u.Ring) → 0 < u.sq_space_left r → (r' : u.Ring) × (u.io_uring_get_sqe r ≡ some r')
  pub takes_one :
      (r r' : u.Ring) (s : Sqe)
      → u.io_uring_get_sqe r ≡ some r'
      → suc (u.sq_space_left (u.fill r' s)) ≡ u.sq_space_left r
  pub queues_last :
      (r r' : u.Ring) (s : Sqe)
      → u.io_uring_get_sqe r ≡ some r'
      → u.pending (u.fill r' s) ≡ u.pending r ++ s ∷ []

-- The kernel takes the whole queue of `r` when it is submitted. This is not so of every submission: it
-- stops at an entry that it refuses, and `io_uring_enter` itself may fail, and the entries that are
-- left then keep their room.
abbrev pub Frees : (u : Liburing) (entries : ℕ) → u.Ring → Type 0
Frees u entries r = u.sq_space_left (u.submit_and_get_events r) ≡ entries

-- Each submission that a run of calls makes, where it makes one, is taken whole.
abbrev pub Accepts : (u : Liburing) (entries : ℕ) → List Call → u.Ring → Type 0
Accepts u entries [] r = Unit
Accepts u entries (c ∷ cs) r =
    elim c [
      | reserves n ↦ (ltb (u.sq_space_left r) n ≡ true → Frees u entries r)
      | prepares s ↦ Unit {0}
      | gets s ↦ (u.io_uring_get_sqe r ≡ none → Frees u entries r)
      | submits ↦ Frees u entries r
    ]
    × ((r' : u.Ring) → exec_call u c r ≡ some r' → Accepts u entries cs r')

module _ (u : Liburing) (entries : ℕ) (d : Documented u entries) where
  pub reserve_sqes-room :
      (r : u.Ring) (n : ℕ)
      → n ≤ entries
      → (ltb (u.sq_space_left r) n ≡ true → Frees u entries r)
      → n ≤ u.sq_space_left (reserve_sqes u r n)
  unfolding reserve_sqes
  reserve_sqes-room r n h f = elim (Bool-cases (ltb (u.sq_space_left r) n)) [
    | inl full ↦ rw full (rw (f full) h)
    | inr fits ↦ rw fits (ground arith)
  ]

  get_sqe_total :
      (r : u.Ring)
      → 1 ≤ entries
      → (u.io_uring_get_sqe r ≡ none → Frees u entries r)
      → (r' : u.Ring) × (get_sqe u r ≡ some r')
  unfolding get_sqe
  get_sqe_total r h f = elim (Option-cases (u.io_uring_get_sqe r)) [
    | inl e ↦ rw (e, get_sqe) (d.gets_while_room (u.submit_and_get_events r) (omega (arith, f e)))
    | inr (r', e) ↦ (r', rw (e, get_sqe) refl)
  ]

  -- One call that succeeds hands its ring to the rest.
  exec-cons :
      (c : Call) (cs : List Call) (r r' : u.Ring)
      → exec_call u c r ≡ some r'
      → exec u (c ∷ cs) r ≡ exec u cs r'
  unfolding exec
  exec-cons c cs r r' e = rw (e, exec) refl

  exec_call-prepares :
      (s : Sqe) (r r' : u.Ring)
      → u.io_uring_get_sqe r ≡ some r'
      → exec_call u (prepares s) r ≡ some (u.fill r' s)
  unfolding exec_call
  exec_call-prepares s r r' e = rw (e, exec_call) refl

  exec_call-gets :
      (s : Sqe) (r r' : u.Ring)
      → get_sqe u r ≡ some r'
      → exec_call u (gets s) r ≡ some (u.fill r' s)
  unfolding exec_call
  exec_call-gets s r r' e = rw (e, exec_call) refl

  -- On a ring of `entries` entries of a liburing that does what it documents, a run of calls whose
  -- unchecked entries are all covered by reservations, or by room that is there at the start,
  -- never meets a null pointer, where the kernel takes whole each submission that the run makes.
  pub exec_total :
      (cs : List Call) (room : ℕ) (r : u.Ring)
      → covered entries room cs ≡ true
      → room ≤ u.sq_space_left r
      → Accepts u entries cs r
      → (r' : u.Ring) × (exec u cs r ≡ some r')
  unfolding covered exec exec_call submit_ring
  exec_total [] room r c h k = (r, refl)
  exec_total (reserves n ∷ cs) room r c h k =
      exec_total cs n (reserve_sqes u r n) (ground arith) (reserve_sqes-room r n (ground arith) k.0)
        (k.1 (reserve_sqes u r n) refl)
  exec_total (prepares s ∷ cs) zero r c h k = cc
  exec_total (prepares s ∷ cs) (suc room) r c h k =
      let (r', e) = d.gets_while_room r (omega arith) in
      let one = exec_call-prepares s r r' e in
      rw (exec-cons (prepares s) cs r (u.fill r' s) one) (
        exec_total cs room (u.fill r' s) c (omega (arith, d.takes_one r r' s e))
          (k.1 (u.fill r' s) one))
  exec_total (gets s ∷ cs) room r c h k =
      let (r', e) = get_sqe_total r (ground arith) k.0 in
      let one = exec_call-gets s r r' e in
      rw (exec-cons (gets s) cs r (u.fill r' s) one)
        (exec_total cs 0 (u.fill r' s) (ground arith) (omega arith) (k.1 (u.fill r' s) one))
  exec_total (submits ∷ cs) room r c h k =
      exec_total cs entries (submit_ring u r) c (omega (arith, k.0)) (k.1 (submit_ring u r) refl)

  prepares-pending :
      (ss : List Sqe) (r : u.Ring)
      → length ss ≤ u.sq_space_left r
      → (r' : u.Ring) × (exec u (map prepares ss) r ≡ some r') × (u.pending r' ≡ u.pending r ++ ss)
  unfolding exec exec_call
  prepares-pending [] r h = (r, refl, sym (append-nil (u.pending r)))
  prepares-pending (s ∷ ss) r h =
      let (r', e) = d.gets_while_room r (omega arith) in
      let (r'', run, queue) =
        prepares-pending ss (u.fill r' s) (omega (arith, d.takes_one r r' s e)) in
      rw (exec-cons (prepares s) (map prepares ss) r (u.fill r' s) (exec_call-prepares s r r' e))
        (r'', run, queue ∙ (rw (d.queues_last r r' s e) (append_assoc (u.pending r) (s ∷ []) ss)))

  -- On a ring of `entries` entries of a liburing that does what it documents, at most `entries`
  -- entries that are prepared under one reservation are queued together, in their order, behind
  -- what waits once the reservation is made: no submission comes between the links of a chain. The
  -- submission that makes the room is taken whole.
  reserved_chain :
      (ss : List Sqe) (r : u.Ring)
      → length ss ≤ entries
      → (ltb (u.sq_space_left r) (length ss) ≡ true → Frees u entries r)
      → (r' : u.Ring) × (exec u (reserves (length ss) ∷ map prepares ss) r ≡ some r')
        × (u.pending r' ≡ u.pending (reserve_sqes u r (length ss)) ++ ss)
  unfolding exec exec_call
  reserved_chain ss r h f =
      prepares-pending ss (reserve_sqes u r (length ss)) (reserve_sqes-room r (length ss) h f)
