-- ===== src/File/Open.antt =====
-- What the opening of a file comes to.
use fiona.Base.{
  ℕ, suc, ◌-◌, ◌≡◌, refl, ℤ, pos, negsuc, neg, is_neg, is_zero, true, false, ok, err, none, some,
  List, [], ◌∷◌, has, arith, if◌then◌else◌,
}
use fiona.Ring.Entries.{Cqe, opens, open_direct}
use fiona.Ring.{Call, reserves, prepares}
use fiona.File.{
  FileImpl, no_open, async_open, open_suspend, complete_open, open_resume, destroy_impl,
}

abbrev pub opening : (pathname : List ℕ) → (flags file_index : ℤ) → List Call
opening pathname flags file_index =
    reserves 1
    ∷ prepares
        (record { op = open_direct pathname flags file_index; user_data = some opens; flags = [] })
    ∷ []

-- The file on which an opening has completed.
abbrev completed : FileImpl → List ℕ → (flags : ℤ) → (fd : ℤ) → Cqe → FileImpl
completed f pathname flags fd finished = record f {
  open_frame = record {
    h = none;
    temp_fd = negsuc 0;
    pathname = pathname;
    flags = flags;
    res = finished.res;
    initiated = true;
    done = true;
  };
  fd = if is_neg finished.res then f.fd else fd;
}

-- A new file takes a free slot and queues its opening there. The completion resumes the caller with
-- success or the error and drops the reference that was taken; the slot is the file's where the opening
-- did not fail and is free again where it did, and in both cases the end of the file leaves it free.
pub open_lem :
    (pathname : List ℕ) (flags : ℤ) (h fd : ℕ) (rest : List ℕ) (f : FileImpl) (finished : Cqe)
    → f.open_frame ≡ no_open
    → f.fd ≡ negsuc 0
    → has fd rest ≡ false
    → let started = open_suspend (async_open f pathname flags) h (fd ∷ rest) in
      let slots = if is_neg finished.res then fd ∷ rest else rest in
      (started.2 ≡ opening pathname flags (pos fd))
      × (d : FileImpl) × (complete_open started.0 started.1 finished ≡ some (some h, d, slots))
      × (d.fd ≡ (if is_neg finished.res then negsuc 0 else pos fd))
      × (d.count ≡ f.count)
      × ((open_resume d).1 ≡ (if is_zero finished.res then ok tt else err (neg finished.res)))
      × ((open_resume d).0.open_frame ≡ no_open)
      × ((destroy_impl d slots).1 ≡ fd ∷ rest)
unfolding async_open open_suspend complete_open open_resume destroy_impl
open_lem pathname flags h fd rest f finished i e o = (
  refl,
  completed f pathname flags (pos fd) finished,
  ground (arith, o),
  ground (arith, e),
  refl,
  refl,
  refl,
  ground (arith, o, e),
)

-- With no free slot a new file queues its opening all the same, at slot -1, which lets the kernel choose
-- one. A completion without an error resumes the caller and leaves a file that holds no slot; one with an
-- error fails an assertion.
open_full :
    (pathname : List ℕ) (flags : ℤ) (h : ℕ) (f : FileImpl) (finished : Cqe)
    → f.open_frame ≡ no_open
    → f.fd ≡ negsuc 0
    → let started = open_suspend (async_open f pathname flags) h [] in
      (started.2 ≡ opening pathname flags (negsuc 0))
      × (d : FileImpl) × (complete_open started.0 started.1 finished
          ≡ (if is_neg finished.res then none else some (some h, d, [])))
      × (d.fd ≡ negsuc 0)
unfolding async_open open_suspend complete_open open_resume
open_full pathname flags h f finished i e =
    (refl, completed f pathname flags (negsuc 0) finished, ground arith, ground (arith, e))

-- A second opening while the first is in flight is not refused. The first completion without an error
-- resumes the second caller and gives the file the second slot; the second completion without an
-- error resumes no one and leaves a file that holds no slot, while neither slot is free.
pub open_twice :
    (h k fd fd' : ℕ) (rest : List ℕ) (f : FileImpl) (first second : Cqe)
    → is_neg first.res ≡ false
    → is_neg second.res ≡ false
    → let started = open_suspend f h (fd ∷ fd' ∷ rest) in
      let again = open_suspend started.0 k started.1 in
      (d d' : FileImpl) × (complete_open again.0 again.1 first ≡ some (some k, d, rest))
      × (d.fd ≡ pos fd')
      × (complete_open d rest second ≡ some (none, d', rest))
      × (d'.fd ≡ negsuc 0)
unfolding open_suspend complete_open
open_twice h k fd fd' rest f first second m n =
    let frame = record (f.open_frame) {
      h = none;
      temp_fd = negsuc 0;
      initiated = true;
      done = true;
    } in
    let d = record f {
      open_frame = record frame { res = first.res };
      fd = pos fd';
      count = suc (suc f.count) - 1;
    } in
    let d' = record f {
      open_frame = record frame { res = second.res };
      fd = negsuc 0;
      count = suc (suc f.count) - 1 - 1;
    } in
    (d, d', rw (m, complete_open) refl, refl, rw (n, complete_open) refl, refl)
