-- ===== src/File/Transfer.antt =====
-- What a write or a read comes to, on its frame.
use fiona.Errno.{ebusy}
use fiona.Base.{
  ℕ, ◌%◌, ◌≡◌, refl, ℤ, pos, neg, is_neg, true, ok, err, none, some, List, [], ◌∷◌, if◌then◌else◌,
}
use fiona.Ring.Entries.{Cqe, Op, fixed_file, skip_success, cancel}
use fiona.Ring.{Call, reserves, prepares, gets, submits}
use fiona.File.{
  TransferFrame, Direction, no_transfer, async_transfer, async_transfer_fixed, transfer_suspend,
  complete_transfer, transfer_resume, destroy_transfer,
}

abbrev pub transferring : Direction → Op → List Call
transferring d op =
    reserves 1 ∷ gets (record { op = op; user_data = some d.frame; flags = fixed_file ∷ [] }) ∷ []

-- A transfer on an idle frame queues an entry for its buffer. A second one meanwhile is refused with EBUSY,
-- and the end of the refused awaitable cancels the first. The completion resumes the first caller, with
-- the bytes transferred or the error, and leaves the frame idle.
pub transfer_lem :
    (d : Direction) (fd : ℤ) (size other h k : ℕ) (finished : Cqe)
    → (t : TransferFrame) × (transfer_suspend d fd (async_transfer no_transfer size) h
        ≡ ok (t, transferring d (d.plain fd (size % 0x1_0000_0000))))
      × (transfer_suspend d fd (async_transfer t other) k ≡ err (pos ebusy))
      × (destroy_transfer d (async_transfer t other)
          ≡ reserves 1
            ∷ prepares (record { op = cancel d.frame; user_data = none; flags = skip_success ∷ [] })
            ∷ submits
            ∷ [])
      × ((complete_transfer t finished).0 ≡ some h)
      × (transfer_resume (complete_transfer t finished).1
          ≡ (no_transfer, if is_neg finished.res then err (neg finished.res) else ok finished.res))
unfolding transfer_suspend async_transfer complete_transfer transfer_resume destroy_transfer
transfer_lem d fd size other h k finished =
    (record no_transfer { size = size; initiated = true; h = some h }, refl, refl, refl, refl, refl)

-- The index of a registered buffer outlives a transfer that was never awaited: the next transfer on the
-- frame, with a buffer that is not registered, queues the entry for that index.
stale_index :
    (d : Direction) (fd : ℤ) (size other index h : ℕ)
    → (t : TransferFrame) × (transfer_suspend d fd
          (async_transfer (async_transfer_fixed no_transfer other index) size)
          h
        ≡ ok (t, transferring d (d.fixed fd (size % 0x1_0000_0000) (pos index))))
unfolding transfer_suspend async_transfer async_transfer_fixed
stale_index d fd size other index h =
    (record no_transfer { size = size; buf_index = pos index; initiated = true; h = some h }, refl)
