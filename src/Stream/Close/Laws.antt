-- ===== src/Stream/Close/Laws.antt =====
-- What a close comes to.
use fiona.Base.{
  ℕ, ◌≡◌, pos, negsuc, neg, is_zero, true, false, ok, err, some, List, [], has, arith,
  if◌then◌else◌,
}
use fiona.Ring.Entries.{Cqe}
use fiona.Stream.Frames.{idle}
use fiona.Stream.{StreamImpl, destroy_impl}
use fiona.Stream.Close.{await_suspend, complete_close, await_resume}

-- A close, where none is under way, gives the slot of an open stream back once, whatever the
-- kernel says of it: on completion the closer is resumed, the slot is free, the stream has none,
-- and the end of the object gives nothing back a second time and makes no call. The caller gets
-- success for 0 and else the error.
close_once :
    (s : StreamImpl) (h fd : ℕ) (fds : List ℕ) (cqe : Cqe)
    → s.close ≡ idle
    → s.fd ≡ pos fd
    → let started = await_suspend s h in
      let completed = complete_close started.0 fds cqe in
      let resumed = await_resume completed.1 in
      (completed.0 ≡ some h)
      × (has fd completed.2 ≡ true)
      × (resumed.0.fd ≡ negsuc 0)
      × (resumed.0.connected ≡ false)
      × (resumed.1 ≡ (if is_zero cqe.res then ok tt else err (neg cqe.res)))
      × (destroy_impl resumed.0 completed.2 ≡ (resumed.0, completed.2, []))
unfolding await_suspend complete_close await_resume destroy_impl
close_once s h fd fds cqe e f = ground arith
