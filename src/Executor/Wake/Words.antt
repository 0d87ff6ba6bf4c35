-- ===== src/Executor/Wake/Words.antt =====
-- A wake or a post arrives as what it was.
use Prim.Native.Nat.{bit_and}
use fiona.Base.Bits.{bit_and-one, bit_and-two, bit_or-one, bit_or-two, bit_and-clear_low}
use fiona.Base.{
  ℕ, suc, ◌+◌, ◌%◌, ◌<◌, ◌≡◌, refl, pos, true, false, ok, ok-injective, none, some, List, [], ◌∷◌,
  arith,
}
use fiona.Ring.Entries.{Cqe, pipe, read}
use fiona.Ring.{Call, reserves, prepares}
use fiona.Executor.Wake.{ptr_mask, wake, post, PipeFrame, nothing, adopts, receive, process_pipe}

-- A coroutine's address: a 64-bit word whose two low bits are clear.
pub record IsAddress (p : ℕ) : Type 0 where
  pub aligned : p % 4 ≡ 0
  pub word : p < 0x1_0000_0000_0000_0000

wake_bits : (p : ℕ) → IsAddress p → (bit_and (p + 1) 1 ≡ 1) × (bit_and (p + 1) ptr_mask ≡ p)
wake_bits p a = (
  omega (arith, a.aligned, bit_and-one (p + 1)),
  omega (arith, a.aligned, a.word, bit_and-clear_low (p + 1)),
)

post_bits :
    (p : ℕ)
    → IsAddress p
    → (bit_and (p + 2) 1 ≡ 0) × (bit_and (p + 2) 2 ≡ 2) × (bit_and (p + 2) ptr_mask ≡ p)
post_bits p a = (
  omega (arith, a.aligned, bit_and-one (p + 2)),
  omega (arith, a.aligned, bit_and-two (p + 2)),
  omega (arith, a.aligned, a.word, bit_and-clear_low (p + 2)),
)

-- The frame once a word is read whole.
abbrev pub reading : PipeFrame → ℕ → PipeFrame
reading f w = record f { buffer = w }

receive-wake :
    (f : PipeFrame) (p : ℕ)
    → IsAddress p
    → receive (reading f (p + 1)) ≡ (record f { buffer = p + 1; h = some p }, nothing)
unfolding receive
receive-wake f p a = let b = wake_bits p a in rw (b.0, b.1, receive) refl

receive-post :
    (f : PipeFrame) (p : ℕ)
    → IsAddress p
    → receive (reading f (p + 2)) ≡ (reading f (p + 2), adopts p)
unfolding receive
receive-post f p a = let b = post_bits p a in rw (b.0, b.1, b.2, receive) refl

abbrev pub whole : Cqe
whole = record { res = pos 8; more = false; buffer_id = 0 }

abbrev pub rearmed : PipeFrame → List Call
rearmed f =
    reserves 1 ∷ prepares (record { op = read f.fd 8; user_data = some pipe; flags = [] }) ∷ []

-- Where a waker writes its word, and the pipe's frame has then read the whole word, the completion
-- of the read makes the frame hand out the very coroutine of the waker, and starts the next read
-- under one more reference. The coroutine's address is a 64-bit word with clear low bits.
pub wake-process_pipe :
    (f : PipeFrame) (p w : ℕ)
    → IsAddress p
    → wake true none p ≡ ok w
    → process_pipe (reading f w) whole
      ≡ ok (record f { buffer = w; h = some p; count = suc f.count }, nothing, rearmed f)
unfolding wake process_pipe
wake-process_pipe f p w a e =
    let v : w ≡ p + 1 = omega (arith, ok-injective e, bit_or-one p (omega (arith, a.aligned))) in
    rw v (rw (receive-wake f p a) refl)

-- Where a task is posted, and the pipe's frame has then read the whole word, the completion of the
-- read adopts the very task that was posted, and starts the next read under one more reference.
-- The task's address is a 64-bit word with clear low bits.
post-process_pipe :
    (f : PipeFrame) (p w : ℕ)
    → IsAddress p
    → post none p ≡ ok w
    → process_pipe (reading f w) whole
      ≡ ok (record f { buffer = w; count = suc f.count }, adopts p, rearmed f)
unfolding post process_pipe
post-process_pipe f p w a e =
    let v : w ≡ p + 2 = omega (arith, ok-injective e, bit_or-two p a.aligned) in
    rw v (rw (receive-post f p a) refl)
