-- ===== src/Executor/Groups/Tests.antt =====
-- Groups 3 and 5; group 5 has a free slot.
use fiona.Errno.{eexist, einval}
use fiona.Base.{pos, ◌≡◌, refl, ok, err, none, [], ◌∷◌}
use fiona.Buffers.Provided.{recv_buffer, BufRing, add, advance, buf_ring, recycle_buffer}
use fiona.Executor.Groups.{Groups, register_buf_ring, recycle}

abbrev empty : Groups
empty = record { buf_rings = []; fixed = none }

abbrev one_free : BufRing
one_free = record {
  bufs = recv_buffer 0 ∷ [];
  buf_ids = 0 ∷ [];
  buf_id_pos = 1;
  buf_size = 16;
  bgid = 5;
}

abbrev one_filled : BufRing
one_filled = record one_free { bufs = recv_buffer 32 ∷ []; buf_id_pos = 0 }

abbrev groups : Groups
groups = record { buf_rings = (5, one_free) ∷ []; fixed = none }

abbrev new_ring : BufRing
new_ring = record {
  bufs = recv_buffer 8 ∷ [];
  buf_ids = 0 ∷ [];
  buf_id_pos = 0;
  buf_size = 8;
  bgid = 3;
}

-- An id can be registered once.
taken : register_buf_ring none 1 8 5 groups ≡ err (pos eexist)
unfolding register_buf_ring
taken = refl

unknown : recycle (recv_buffer 32) 4 groups ≡ err (pos einval)
unfolding recycle
unknown = refl

recycled :
    recycle (recv_buffer 32) 5 groups
    ≡ ok (record groups { buf_rings = (5, one_filled) ∷ [] }, add 32 0 1 0 ∷ advance 1 ∷ [])
unfolding recycle recycle_buffer
recycled = refl

registered :
    register_buf_ring none 1 8 3 groups
    ≡ ok (
      record groups { buf_rings = (3, new_ring) ∷ (5, one_free) ∷ [] },
      add 8 0 1 0 ∷ advance 1 ∷ [],
    )
unfolding register_buf_ring buf_ring
registered = refl
