-- ===== src/Stream/Timeout/Laws.antt =====
-- What a tick of the timeout does.
use fiona.Base.{
  ℕ, suc, ◌+◌, ◌*◌, ◌≤◌, ◌≡◌, negsuc, pos_part, neg_part, true, false, ◌&&◌, List, [], ◌∷◌, some,
  arith, ap, to_int, inl, inr, Bool-cases, if◌then◌else◌,
}
use fiona.Ring.Entries.{Cqe, timeout_cancels, cancel_fd}
use fiona.Ring.{Call, reserves, prepares}
use fiona.Stream.{StreamImpl, timer_entry, frame_refs}
use fiona.Stream.Refs.Ticks.{others, others-Same, frame_refs-others, complete_timeout-Same}
use fiona.Stream.Timeout.{elapsed, should_cancel, process_timeout, complete_timeout}

-- The stream is quiet: a receive in flight, or a send in flight, saw nothing for the whole period.
pub data Quiet (now : ℕ) (s : StreamImpl) : Type 0 where
  recv :
      s.recv.initiated ≡ true
      → s.recv.last_recv + pos_part s.ts.sec * 1_000_000_000 + s.ts.nsec
        ≤ now + neg_part s.ts.sec * 1_000_000_000
      → Quiet now s
  send :
      s.send.op.initiated ≡ true
      → s.send.op.done ≡ false
      → s.send.last_send + pos_part s.ts.sec * 1_000_000_000 + s.ts.nsec
        ≤ now + neg_part s.ts.sec * 1_000_000_000
      → Quiet now s

Quiet-should_cancel : (now : ℕ) (s : StreamImpl) → Quiet now s → should_cancel now s ≡ true
unfolding should_cancel
Quiet-should_cancel now s (recv i q) = ground arith
Quiet-should_cancel now s (send i d q) = ground arith

should_cancel-Quiet : (now : ℕ) (s : StreamImpl) → should_cancel now s ≡ true → Quiet now s
unfolding should_cancel
should_cancel-Quiet now s h =
    elim (Bool-cases (s.recv.initiated && elapsed now s.recv.last_recv s.ts)) [
      | inl r ↦ recv (ground arith) (ground arith)
      | inr r ↦ send (ground arith) (ground arith) (ground arith)
    ]

-- The entries that start the timeout again, where the kernel has ended it.
abbrev pub restart : Cqe → List Call
restart cqe = if cqe.more then [] else reserves 1 ∷ prepares timer_entry ∷ []

-- When the running timeout of a stream ticks, with -ETIME, after a receive or a send has been
-- quiet for the whole period, everything on the stream's slot is cancelled, and the timeout runs
-- on; it is started again if the kernel has ended it.
tick_cancels :
    (now : ℕ) (s : StreamImpl) (cqe : Cqe)
    → cqe.res ≡ negsuc 61
    → s.timeout.initiated ≡ true
    → Quiet now s
    → let out = process_timeout now s cqe in
      (out.1
        ≡ reserves 1
          ∷ prepares (record { op = cancel_fd s.fd; user_data = some timeout_cancels; flags = [] })
          ∷ restart cqe)
      × (out.0.timeout_cancel.initiated ≡ true)
      × (out.0.timeout.initiated ≡ true)
unfolding process_timeout
tick_cancels now s cqe e i q = ground (arith, Quiet-should_cancel now s q)

-- When the running timeout of a stream ticks, with -ETIME, and neither a receive nor a send has
-- been quiet for the whole period, nothing is cancelled, and the timeout runs on; it is started
-- again if the kernel has ended it.
tick_spares :
    (now : ℕ) (s : StreamImpl) (cqe : Cqe)
    → cqe.res ≡ negsuc 61
    → s.timeout.initiated ≡ true
    → ¬ Quiet now s
    → let out = process_timeout now s cqe in
      (out.1 ≡ restart cqe)
      × (out.0.timeout_cancel ≡ s.timeout_cancel)
      × (out.0.timeout.initiated ≡ true)
unfolding process_timeout
tick_spares now s cqe e i q = elim (Bool-cases (should_cancel now s)) [
  | inl c ↦ absurd (q (should_cancel-Quiet now s c))
  | inr c ↦ ground arith
]

-- A tick, with -ETIME, that finds a stream quiet while the cancellation of an earlier tick is in
-- flight takes a second reference under the one flag: where the references were those of the
-- holders of the stream and of the active frames, they are afterwards one more than these.
pub tick_twice :
    (now holders : ℕ) (s : StreamImpl) (cqe : Cqe)
    → cqe.res ≡ negsuc 61
    → s.timeout.initiated ≡ true
    → Quiet now s
    → s.timeout_cancel.initiated ≡ true
    → s.count ≡ holders + frame_refs s
    → let t = (complete_timeout now s cqe).0 in t.count ≡ suc (holders + frame_refs t)
unfolding complete_timeout
tick_twice now holders s cqe e i q c b =
    let t = (complete_timeout now s cqe).0 in
    omega (
      arith,
      frame_refs-others t,
      frame_refs-others s,
      same,
      counts.0,
      ap to_int i,
      ap to_int c,
      ap to_int counts.1,
      ap to_int counts.2,
    )
  where
    same : others (complete_timeout now s cqe).0 ≡ others s
    same = others-Same s (complete_timeout now s cqe).0 (complete_timeout-Same now s cqe)

    counts :
        let t = (complete_timeout now s cqe).0 in
        (t.count ≡ suc s.count) × (t.timeout.initiated ≡ true) × (t.timeout_cancel.initiated ≡ true)
    counts = ground (arith, Quiet-should_cancel now s q)
