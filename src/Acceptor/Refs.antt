-- ===== src/Acceptor/Refs.antt =====
-- The references to an acceptor: those of its owners and of its awaitables, and one for each
-- submission in flight.
use mathlib.Core.Path.{subst}
use fiona.Base.{
  ℕ, suc, ◌+◌, ◌≡◌, refl, sym, is_neg, Bool, true, false, not, ◌&&◌, none, ok, List, ◌∷◌, arith,
  to_int,
}
use fiona.Ring.Entries.{Cqe}
use fiona.Ring.{Call}
use fiona.Stream.Frames.{OpFrame, active}
use fiona.Acceptor.{
  AcceptorImpl, hold, let_go, await_suspend, complete_accept, await_resume, cancel_suspend,
  complete_cancel, cancel_resume, close_suspend, complete_close, close_resume, acceptor_impl,
}

abbrev pub accepting : AcceptorImpl → Bool
accepting a = a.accept.initiated && not a.accept.done

abbrev pub Ordered : OpFrame → Type 0
Ordered f = f.initiated ≡ false → f.done ≡ false

-- The references held by `holders` copies of the acceptor and awaitables and by the ring; an accept in flight has a
-- slot, which is what `accept_frame::await_process_cqe` asserts.
pub record Held (holders : ℕ) (a : AcceptorImpl) : Type 0 where
  pub refs : a.count ≡ holders + to_int (accepting a) + active a.cancel + active a.close
  pub accept_done : a.accept.initiated ≡ false → a.accept.done ≡ false
  pub cancel_done : Ordered a.cancel
  pub close_done : Ordered a.close
  pub peer : accepting a ≡ true → is_neg a.accept.peer_fd ≡ false

-- What an awaitable of an acceptor does, and what the kernel completes, at any state of the free slots; a completion arrives for what is in
-- flight, and cancellations and closes are asked for once at a time.
pub data Step (a b : AcceptorImpl) : Type 0 where
  accepts :
      (h : ℕ) (fds rest : List ℕ) (cs : List Call)
      → await_suspend a h fds ≡ (ok (b, cs), rest)
      → Step a b
  accept_completes :
      (fds : List ℕ) (cqe : Cqe) → accepting a ≡ true → b ≡ (complete_accept a fds cqe).1 → Step a b
  accept_resumes : (now : ℕ) → a.accept.done ≡ true → b ≡ (await_resume now a).0 → Step a b
  cancels : (h : ℕ) → a.cancel.initiated ≡ false → b ≡ (cancel_suspend a h).0 → Step a b
  cancel_completes :
      (cqe : Cqe)
      → (a.cancel.initiated && not a.cancel.done) ≡ true
      → b ≡ (complete_cancel a cqe).1
      → Step a b
  cancel_resumes : a.cancel.done ≡ true → b ≡ (cancel_resume a).0 → Step a b
  closes :
      (h : ℕ) (cs : List Call)
      → a.close.initiated ≡ false
      → close_suspend a h ≡ ok (b, cs)
      → Step a b
  close_completes :
      (fds : List ℕ) (cqe : Cqe)
      → (a.close.initiated && not a.close.done) ≡ true
      → b ≡ (complete_close a fds cqe).1
      → Step a b
  close_resumes : a.close.done ≡ true → b ≡ (close_resume a).0 → Step a b

-- The states of the acceptor `a`, with the number of its owners and of its awaitables: an owner is
-- copied and destroyed and makes awaitables, and an awaitable ends, also while its operation is in
-- flight.
pub data Reach (a : AcceptorImpl) : ℕ → ℕ → AcceptorImpl → Type 0 where
  here : {n k : ℕ} → n ≡ 1 → k ≡ 0 → Reach a n k a
  next : {n k : ℕ} {b c : AcceptorImpl} → Reach a n k b → Step b c → Reach a n k c
  makes :
      {n k : ℕ} {b c : AcceptorImpl} → Reach a (suc n) k b → c ≡ hold b → Reach a (suc n) (suc k) c
  ends : {n k : ℕ} {b c : AcceptorImpl} → Reach a n (suc k) b → c ≡ let_go b → Reach a n k c
  copies :
      {n k : ℕ} {b c : AcceptorImpl} → Reach a (suc n) k b → c ≡ hold b → Reach a (suc (suc n)) k c
  destroys : {n k : ℕ} {b c : AcceptorImpl} → Reach a (suc n) k b → c ≡ let_go b → Reach a n k c

module _ (owners : ℕ) (a : AcceptorImpl) (i : Held owners a) where
  accepts-Held :
      (b : AcceptorImpl) (h : ℕ) (fds rest : List ℕ) (cs : List Call)
      → await_suspend a h fds ≡ (ok (b, cs), rest)
      → Held owners b
  unfolding await_suspend
  accepts-Held b h fds rest cs e = ground arith

  accept_completes-Held :
      (fds : List ℕ) (cqe : Cqe) → accepting a ≡ true → Held owners (complete_accept a fds cqe).1
  unfolding complete_accept
  accept_completes-Held fds cqe h = ground arith

  accept_resumes-Held : (now : ℕ) → a.accept.done ≡ true → Held owners (await_resume now a).0
  unfolding await_resume
  accept_resumes-Held now h = ground arith

  cancels-Held : (h : ℕ) → a.cancel.initiated ≡ false → Held owners (cancel_suspend a h).0
  unfolding cancel_suspend active
  cancels-Held h e = ground arith

  cancel_completes-Held :
      (cqe : Cqe)
      → (a.cancel.initiated && not a.cancel.done) ≡ true
      → Held owners (complete_cancel a cqe).1
  unfolding complete_cancel active
  cancel_completes-Held cqe h = ground arith

  cancel_resumes-Held : a.cancel.done ≡ true → Held owners (cancel_resume a).0
  unfolding cancel_resume active
  cancel_resumes-Held h = ground arith

  closes-Held :
      (b : AcceptorImpl) (h : ℕ) (cs : List Call)
      → a.close.initiated ≡ false
      → close_suspend a h ≡ ok (b, cs)
      → Held owners b
  unfolding close_suspend active
  closes-Held b h cs n e = ground arith

  close_completes-Held :
      (fds : List ℕ) (cqe : Cqe)
      → (a.close.initiated && not a.close.done) ≡ true
      → Held owners (complete_close a fds cqe).1
  unfolding complete_close active
  close_completes-Held fds cqe h = ground arith

  close_resumes-Held : a.close.done ≡ true → Held owners (close_resume a).0
  unfolding close_resume active
  close_resumes-Held h = ground arith

Step-Held : {owners : ℕ} {a b : AcceptorImpl} → Step a b → Held owners a → Held owners b
Step-Held {owners} {a} {b} (accepts h fds rest cs e) i = accepts-Held owners a i b h fds rest cs e
Step-Held {owners} {a} (accept_completes fds cqe h e) i =
    subst (Held owners) (sym e) (accept_completes-Held owners a i fds cqe h)
Step-Held {owners} {a} (accept_resumes now h e) i =
    subst (Held owners) (sym e) (accept_resumes-Held owners a i now h)
Step-Held {owners} {a} (cancels h n e) i = subst (Held owners) (sym e) (cancels-Held owners a i h n)
Step-Held {owners} {a} (cancel_completes cqe h e) i =
    subst (Held owners) (sym e) (cancel_completes-Held owners a i cqe h)
Step-Held {owners} {a} (cancel_resumes h e) i =
    subst (Held owners) (sym e) (cancel_resumes-Held owners a i h)
Step-Held {owners} {a} {b} (closes h cs n e) i = closes-Held owners a i b h cs n e
Step-Held {owners} {a} (close_completes fds cqe h e) i =
    subst (Held owners) (sym e) (close_completes-Held owners a i fds cqe h)
Step-Held {owners} {a} (close_resumes h e) i =
    subst (Held owners) (sym e) (close_resumes-Held owners a i h)

start-Held :
    (v : Bool) (fd : ℕ) (rest fds : List ℕ) (a : AcceptorImpl)
    → acceptor_impl v none none none none none (fd ∷ rest) ≡ (ok a, fds)
    → Held 1 a
unfolding acceptor_impl active
start-Held v fd rest fds a e = ground arith

hold-Held : (n : ℕ) (a : AcceptorImpl) → Held n a → Held (suc n) (hold a)
unfolding hold
hold-Held n a i = ground arith

let_go-Held : (n : ℕ) (a : AcceptorImpl) → Held (suc n) a → Held n (let_go a)
unfolding let_go
let_go-Held n a i = ground arith

cast : {m n : ℕ} {a b : AcceptorImpl} → Held m a → m ≡ n → b ≡ a → Held n b
cast {a = a} i e f = rw f (subst (λ k. Held k a) e i)

-- From its construction on, whatever is accepted, cancelled, closed, completed or resumed, and however
-- its awaitables and copies are made and destroyed, the count of an acceptor is one for each owner,
-- one for each awaitable and one for each submission in flight, and an accept in flight has a slot.
-- Cancellations and closes are asked for once at a time.
pub Reach-Held :
    (v : Bool) (fd : ℕ) (rest fds : List ℕ) {a : AcceptorImpl} {n k : ℕ} {b : AcceptorImpl}
    → acceptor_impl v none none none none none (fd ∷ rest) ≡ (ok a, fds)
    → Reach a n k b
    → Held (n + k) b
Reach-Held v fd rest fds {a = a} e (here p q) = rw (p, q) (start-Held v fd rest fds a e)
Reach-Held v fd rest fds e (next r s) = Step-Held s (Reach-Held v fd rest fds e r)
Reach-Held v fd rest fds e (makes {n} {k} {b} r p) =
    cast (hold-Held (suc n + k) b (Reach-Held v fd rest fds e r)) (omega arith) p
Reach-Held v fd rest fds e (ends {n} {k} {b} r p) =
    rw p (let_go-Held (n + k) b (cast (Reach-Held v fd rest fds e r) (omega arith) refl))
Reach-Held v fd rest fds e (copies {n} {k} {b} r p) =
    cast (hold-Held (suc n + k) b (Reach-Held v fd rest fds e r)) (omega arith) p
Reach-Held v fd rest fds e (destroys {n} {k} {b} r p) =
    rw p (let_go-Held (n + k) b (cast (Reach-Held v fd rest fds e r) (omega arith) refl))
