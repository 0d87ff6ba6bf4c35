-- ===== src/Buffers/Provided/Tests.antt =====
-- A ring of two buffers of 16 bytes.
use fiona.Base.{◌≡◌, refl, ok, none, some, List, [], ◌∷◌, arith}
use fiona.Buffers.Provided.{
  RecvBuffer, recv_buffer, BufRing, add, advance, buf_ring, recycle_buffer, take_buffer,
}
use fiona.Buffers.Provided.Slots.{empties}
use fiona.Buffers.Provided.Stack.{Inv}
use fiona.Buffers.Provided.Reach.{Sound, here, next, completes, recycles, Reach-Sound}

abbrev pub two : BufRing
two = record {
  bufs = recv_buffer 16 ∷ recv_buffer 16 ∷ [];
  buf_ids = 0 ∷ 0 ∷ [];
  buf_id_pos = 0;
  buf_size = 16;
  bgid = 5;
}

-- The same ring after a completion into slot 1.
abbrev pub one_taken : BufRing
one_taken = record {
  bufs = recv_buffer 16 ∷ recv_buffer 0 ∷ [];
  buf_ids = 1 ∷ 0 ∷ [];
  buf_id_pos = 1;
  buf_size = 16;
  bgid = 5;
}

abbrev received : List RecvBuffer
received = record { size = 3; capacity = 16 } ∷ []

registered : buf_ring none 2 16 5 ≡ ok (two, add 16 0 2 0 ∷ add 16 1 2 1 ∷ advance 2 ∷ [])
unfolding buf_ring
registered = refl

taken_from : take_buffer two 1 3 ≡ some (one_taken, record { size = 3; capacity = 16 })
unfolding take_buffer
taken_from = refl

recycled : (recycle_buffer one_taken (recv_buffer 32)).1 ≡ add 32 1 2 0 ∷ advance 1 ∷ []
unfolding recycle_buffer
recycled = refl

pub two-Inv : Inv two
unfolding empties
two-Inv = record { same = refl; count = refl; free = tt; apart = tt }

one_taken-Inv : Inv one_taken
unfolding empties
one_taken-Inv = record { same = refl; count = refl; free = (refl, tt); apart = (refl, tt) }

Reach-Sound_example : Sound 2 (recycle_buffer one_taken (recv_buffer 32)).0
Reach-Sound_example = Reach-Sound 2 16 5 registered (omega arith) (
    next (next here (completes 1 15 3 _ refl taken_from))
      (recycles (recv_buffer 32) (omega arith) refl))
