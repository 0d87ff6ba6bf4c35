-- ===== src/Stream/Tests.antt =====
-- A stream on slot 7, as it is made, while it sends, while it receives, and while it closes.
use fiona.Stream.Timeout.Laws.{tick_twice, Quiet}
use fiona.Stream.Timeout.{complete_timeout, process_timeout, should_cancel}
use fiona.Stream.Recv.Laws.{deliver, Fills, nil, cons, sizes, deliver_all}
use fiona.Base.{
  suc, ◌+◌, ◌<◌, ◌≡◌, refl, ℤ, pos, negsuc, Bool, true, false, none, some, [], ◌∷◌, ◌++◌, arith,
}
use fiona.Ring.Entries.{Cqe}
use fiona.Ring.{exec}
use fiona.Ring.Tests.{four, four-Documented, four-Accepts}
use fiona.Buffers.Provided.{BufRing, take_buffer}
use fiona.Buffers.Provided.Stack.{Inv}
use fiona.Buffers.Provided.Tests.{two, two-Inv, one_taken}
use fiona.Stream.Frames.{idle}
use fiona.Stream.{
  StreamImpl, stream_impl, hold, let_go, frame_refs, destroy_stream, cancel_timer, cancel_recv,
}
use fiona.Stream.Recv
use fiona.Stream.Send.{async_send}
use fiona.Stream.Refs.{Balanced}
use fiona.Stream.Refs.Life
use fiona.Stream.Refs.Life.{Life, born, sets, makes, asks, ends, Life-Balanced, Life-destroy_stream}
use fiona.Stream.Calls.{closes, calls, calls_total}

abbrev made : StreamImpl
made = record {
  cancel = idle;
  close = idle;
  shutdown = record { op = idle; how = 0 };
  send = record { op = idle; last_send = 5 };
  recv = record {
    buffers = [];
    ec = none;
    h = none;
    last_recv = 5;
    buffer_group_id = negsuc 0;
    initiated = false;
  };
  timeout = record { initiated = true; cancelled = false };
  timeout_cancel = record { res = pos 0; initiated = false };
  ts = record { sec = pos 3; nsec = 0 };
  fd = pos 7;
  connected = false;
  stream_cancelled = false;
  count = 2;
}

abbrev sending : StreamImpl
sending = record made {
  send = record {
    op = record { h = some 64; res = pos 0; initiated = true; done = false };
    last_send = 9;
  };
  count = 3;
}

abbrev receiving : StreamImpl
receiving = record made {
  recv = record {
    buffers = [];
    ec = none;
    h = some 80;
    last_recv = 9;
    buffer_group_id = pos 5;
    initiated = true;
  };
  count = 3;
}

-- A receiver found nothing for 20 seconds, and a cancellation is already in flight.
abbrev cancelling : StreamImpl
cancelling = record receiving {
  timeout_cancel = record { res = pos 0; initiated = true };
  count = 4;
}

abbrev cqe : ℤ → Bool → Cqe
cqe r m = record { res = r; more = m; buffer_id = 1 }

made_so : (stream_impl 5 (pos 7)).0 ≡ made
unfolding stream_impl
made_so = refl

sends_so : (async_send 9 100 made 64).0 ≡ sending
unfolding async_send
sends_so = refl

-- 20 seconds after the last bytes the stream is cancelled; a second after, it is not.
cancelled_so :
    (process_timeout 20_000_000_000 receiving (cqe (negsuc 61) true)).0.timeout_cancel.initiated
    ≡ true
unfolding process_timeout should_cancel
cancelled_so = refl

spared_so :
    (process_timeout 1_000_000_000 receiving (cqe (negsuc 61) true)).0.timeout_cancel.initiated
    ≡ false
unfolding process_timeout should_cancel
spared_so = refl

-- A stream with one owner and a buffer group, whose receive is suspended on.
suspended : Life made 1 1 (record receiving { count = 4 })
unfolding hold Recv.set_buffer_group Recv.await_suspend
suspended =
    asks (makes (sets (born refl refl) (Life.group 5 (some two) refl)) refl) (Life.recvs 9 80 refl)

Life-Balanced_example : Balanced 2 (record receiving { count = 4 })
unfolding stream_impl
Life-Balanced_example = Life-Balanced 5 (pos 7) suspended

-- The awaitable ends, with the receive in flight: the owner is then the last.
Life-destroy_stream_example :
    (frame_refs receiving < 3)
    × ((destroy_stream receiving).1
        ≡ (cancel_timer receiving).1 ++ cancel_recv (cancel_timer receiving).0)
unfolding stream_impl let_go
Life-destroy_stream_example = Life-destroy_stream 5 (pos 7) (ends suspended refl)

calls_total_example : (r' : four.Ring) × (exec four (calls (closes 64) made) (1, []) ≡ some r')
calls_total_example =
    calls_total four 4 four-Documented (omega arith) (closes 64) made (1, [])
      (four-Accepts (calls (closes 64) made) (1, []))

not-Quiet : ¬ Quiet 1_000_000_000 receiving
not-Quiet (Quiet.recv i h) = absurd (omega arith)
not-Quiet (Quiet.send i d h) = cc

three_bytes : Fills two (cqe (pos 3) true ∷ [])
unfolding take_buffer
three_bytes =
    cons 2 15 one_taken (record { size = 3; capacity = 16 }) (cqe (pos 3) true) [] refl refl refl
      refl (nil refl)

deliver_all_example :
    (s' : StreamImpl) × (ring' : BufRing) × (deliver 12 receiving two (cqe (pos 3) true ∷ [])
      ≡ some (s', ring'))
    × (sizes s'.recv.buffers ≡ 3 ∷ [])
    × (s'.recv.ec ≡ none)
    × Inv ring'
deliver_all_example = deliver_all 12 receiving two (cqe (pos 3) true ∷ []) two-Inv three_bytes

tick_twice_example :
    let t = (complete_timeout 20_000_000_000 cancelling (cqe (negsuc 61) true)).0 in
    t.count ≡ suc (1 + frame_refs t)
unfolding frame_refs
tick_twice_example =
    tick_twice 20_000_000_000 1 cancelling (cqe (negsuc 61) true) refl refl
      (Quiet.recv refl (omega arith)) refl refl
