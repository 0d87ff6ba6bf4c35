-- ===== src/Stream/Refs.antt =====
-- The references to a stream: those of its owners and of its awaitables, and one for
-- each frame in flight. This is the
-- count on which `stream::~stream` relies.
pub mod Steps
pub mod Ticks
pub mod Life
use fiona.Base.{
  ℕ, suc, ◌+◌, ◌-◌, ◌≡◌, refl, ℤ, Bool, true, false, not, ◌&&◌, Result, ok, err, Option, none, some,
  List, [], ◌∷◌, arith, to_int, if◌then◌else◌, ◌==◌,
}
use fiona.Ring.{Call}
use fiona.Stream.Frames.{OpFrame, idle, active}
use fiona.Stream.{StreamImpl, stream_impl, frame_refs, destroy_stream}

-- A frame that is done was initiated.
abbrev pub IsOrdered : OpFrame → Type 0
IsOrdered f = f.initiated ≡ false → f.done ≡ false

pub record Balanced (owners : ℕ) (s : StreamImpl) : Type 0 where
  pub refs : s.count ≡ owners + frame_refs s
  pub cancel : IsOrdered s.cancel
  pub close : IsOrdered s.close
  pub shutdown : IsOrdered s.shutdown.op
  pub send : IsOrdered s.send.op

-- A new stream has one owner and no awaitable.
pub stream_impl-Balanced : (now : ℕ) (fd : ℤ) → Balanced 1 (stream_impl now fd).0
unfolding stream_impl frame_refs
stream_impl-Balanced now fd = ground arith
