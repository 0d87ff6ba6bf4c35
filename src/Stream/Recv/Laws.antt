-- ===== src/Stream/Recv/Laws.antt =====
-- What a receiver gets: every buffer that the kernel filled, in order, and errors behind the data.
use mathlib.Core.List.{append_assoc, append-nil, map-append}
use mathlib.Core.Option.{some-injective}
use mathlib.Core.Path.{subst}
use fiona.Errno.{ecanceled, etimedout}
use fiona.Base.{
  ℕ, suc, ◌-◌, ◌≡◌, refl, sym, ap, ◌∙◌, ℤ, pos, neg, pos_part, is_errno, false, not, ◌&&◌, Option,
  none, some, List, [], ◌∷◌, ◌++◌, map, arith, if◌then◌else◌,
}
use fiona.Ring.Entries.{Cqe}
use fiona.Buffers.Provided.{RecvBuffer, BufRing, take_buffer}
use fiona.Buffers.Provided.Slots.{capacity_at}
use fiona.Buffers.Provided.Stack.{Inv, take_buffer_total}
use fiona.Stream.{StreamImpl}
use fiona.Stream.Recv.{asserts_fail, taken_in, complete_recv}

-- The completions of a multishot receive, handled one after the other.
unfoldable pub deliver : ℕ → StreamImpl → BufRing → List Cqe → Option (StreamImpl × BufRing)
deliver now s ring [] = some (s, ring)
deliver now s ring (c ∷ cs) = elim (complete_recv now s ring c) [
  | none ↦ none
  | some (h, s', ring') ↦ deliver now s' ring' cs
]

-- Each completion brings bytes in a slot that then holds a buffer.
pub data Fills : BufRing → List Cqe → Type 0 where
  nil : {ring : BufRing} {cs : List Cqe} → cs ≡ [] → Fills ring cs
  cons :
      {ring : BufRing} {ds : List Cqe} (n k : ℕ) (ring' : BufRing) (b : RecvBuffer) (c : Cqe)
      (cs : List Cqe)
      → ds ≡ c ∷ cs
      → c.res ≡ pos (suc n)
      → capacity_at ring.bufs c.buffer_id ≡ some (suc k)
      → take_buffer ring c.buffer_id (suc n) ≡ some (ring', b)
      → Fills ring' cs
      → Fills ring ds

abbrev pub sizes : List RecvBuffer → List ℕ
sizes = map (λ b. b.size)

abbrev pub lengths : List Cqe → List ℕ
lengths = map (λ c. pos_part c.res)

bytes_asserted :
    (ec : Option ℤ) (ring : BufRing) (c : Cqe) (n k : ℕ)
    → c.res ≡ pos (suc n)
    → capacity_at ring.bufs c.buffer_id ≡ some (suc k)
    → asserts_fail ec ring c ≡ false
unfolding asserts_fail
bytes_asserted ec ring c n k e f = ground arith

-- One completion with bytes.
complete_recv-bytes :
    (now : ℕ) (s : StreamImpl) (ring ring' : BufRing) (b : RecvBuffer) (c : Cqe) (n : ℕ)
    → c.res ≡ pos (suc n)
    → take_buffer ring c.buffer_id (suc n) ≡ some (ring', b)
    → asserts_fail s.recv.ec ring c ≡ false
    → (s' : StreamImpl) × (complete_recv now s ring c ≡ some (s.recv.h, s', ring'))
      × (s'.recv.buffers ≡ s.recv.buffers ++ b ∷ [])
      × (s'.recv.ec ≡ s.recv.ec)
unfolding complete_recv taken_in
complete_recv-bytes now s ring ring' b c n e t a = (
  record s {
    recv = record (s.recv) {
      buffers = s.recv.buffers ++ b ∷ [];
      last_recv = now;
      h = none;
      initiated = c.more;
    };
    count = (if c.more then suc s.count else s.count) - 1;
  },
  ground arith,
  refl,
  refl,
)

deliver-cons :
    (now : ℕ) (s s' : StreamImpl) (ring ring' : BufRing) (h : Option ℕ) (c : Cqe) (cs : List Cqe)
    → complete_recv now s ring c ≡ some (h, s', ring')
    → deliver now s ring (c ∷ cs) ≡ deliver now s' ring' cs
unfolding deliver
deliver-cons now s s' ring ring' h c cs e = rw (e, deliver) refl

-- The sizes once one more buffer has arrived.
grown :
    (s s' : StreamImpl) (b : RecvBuffer) (c : Cqe) (cs : List Cqe)
    → s'.recv.buffers ≡ s.recv.buffers ++ b ∷ []
    → b.size ≡ pos_part c.res
    → sizes s'.recv.buffers ++ lengths cs ≡ sizes s.recv.buffers ++ (pos_part c.res ∷ lengths cs)
grown s s' b c cs e z =
    rw (e, map-append (λ (b : RecvBuffer). b.size) s.recv.buffers (b ∷ []))
      (rw z (append_assoc (sizes s.recv.buffers) (pos_part c.res ∷ []) (lengths cs)))

-- On a well-formed ring of buffers, completions that bring bytes into slots that hold buffers are
-- all taken: the stream's buffers are those that it had, and behind them one of the reported
-- length for each completion, in the order of arrival; the ring stays well formed, and no error is
-- lost or made up.
pub deliver_all :
    (now : ℕ) (s : StreamImpl) (ring : BufRing) (cs : List Cqe)
    → Inv ring
    → Fills ring cs
    → (s' : StreamImpl) × (ring' : BufRing) × (deliver now s ring cs ≡ some (s', ring'))
      × (sizes s'.recv.buffers ≡ sizes s.recv.buffers ++ lengths cs)
      × (s'.recv.ec ≡ s.recv.ec)
      × Inv ring'
unfolding deliver
deliver_all now s ring cs v (nil e) =
    rw e (s, ring, refl, sym (append-nil (sizes s.recv.buffers)), refl, v)
deliver_all now s ring ds v (cons n k ring' b c cs e r full t f) =
    let (r₁, t₁, v₁, _) = take_buffer_total ring v c.buffer_id k (suc n) full in
    let same = some-injective _ _ (sym t₁ ∙ t) in
    let (s₁, run, bufs, ec) =
      complete_recv-bytes now s ring ring' b c n r t (bytes_asserted s.recv.ec ring c n k r full) in
    let (s₂, r₂, all, got, ec₂, v₂) =
      deliver_all now s₁ ring' cs (subst Inv (ap (λ o. o.0) same) v₁) f in
    rw e (
      s₂,
      r₂,
      deliver-cons now s s₁ ring ring' s.recv.h c cs run ∙ all,
      got ∙ grown s s₁ b c cs bufs (sym (ap (λ o. o.1.size) same) ∙ sym (ap pos_part r)),
      ec₂ ∙ ec,
      v₂,
    )

-- The error of a failed receive: of a cancellation that the stream did not ask for, the timer's.
abbrev pub recv_error : StreamImpl → Cqe → ℤ
recv_error s c =
    if is_errno c.res ecanceled && not s.stream_cancelled then pos etimedout else neg c.res
