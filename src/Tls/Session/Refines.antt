-- ===== src/Tls/Session/Refines.antt =====
-- `async_recv_impl` of src/tls/tls.cpp is a receiver of plaintext: the buffers do not show in what it
-- comes to.
use fiona.Base.{◌≤◌, ◌≡◌, ◌⊎◌, true, ok, err, Option, some, List, length, All}
use fiona.Tls.{Buffer, TlsCallbacks}
use fiona.Tls.Fill.{Fits}
use fiona.Tls.Session.{Thrown, Session, Answer}
use fiona.Tls.Session.Recv.{Reader, reader}

-- The buffers of the input hold their bytes, and those that are kept can hold some. Whether there is
-- a buffer at all is not asked.
pub record IsKept (cb : TlsCallbacks) : Type 0 where
  pub input : All Fits cb.input_sequence
  pub output : All (λ b. 1 ≤ b.capacity) cb.output_sequence

-- A buffer from the ring: it holds no more than its capacity.
abbrev pub Bounded : Buffer → Type 0
Bounded b = length b.bytes ≤ b.capacity

abbrev pub AnswerBounded : Answer → Type 0
AnswerBounded (err e) = Unit
AnswerBounded (ok bufs) = All Bounded bufs

module _ {Chan : Type 0} where
  -- A step that keeps room, or one that ends the receipt.
  abbrev Stepped : Option Thrown × Reader Chan → Option (Option Thrown × Session Chan) → Type 0
  Stepped spec o =
      (q : Option Thrown × Session Chan) × (o ≡ some q)
      × ((q.0, reader q.1) ≡ spec)
      × ((q.1.callbacks.received_record ≡ true) ⊎ IsKept q.1.callbacks)
