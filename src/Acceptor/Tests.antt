-- ===== src/Acceptor/Tests.antt =====
-- An acceptor on slot 4, with slots 5 and 6 free.
use fiona.Base.{◌≡◌, refl, ℤ, pos, true, false, ok, none, some, [], ◌∷◌}
use fiona.Ring.Entries.{Cqe}
use fiona.Stream.Frames.{idle}
use fiona.Acceptor.{AcceptorImpl, no_accept, acceptor_impl, hold, await_suspend}
use fiona.Acceptor.Refs
use fiona.Acceptor.Refs.{Held, here, next, makes, Reach-Held}

abbrev listening : AcceptorImpl
listening = record {
  accept = no_accept;
  cancel = idle;
  close = idle;
  fd = pos 4;
  is_ipv4 = true;
  count = 1;
}

abbrev accepting : AcceptorImpl
accepting = record {
  accept = record { h = some 32; peer_fd = pos 5; initiated = true; done = false };
  cancel = idle;
  close = idle;
  fd = pos 4;
  is_ipv4 = true;
  count = 2;
}

abbrev cqe : ℤ → Cqe
cqe res = record { res = res; more = false; buffer_id = 0 }

listens : acceptor_impl true none none none none none (4 ∷ 5 ∷ 6 ∷ []) ≡ (ok listening, 5 ∷ 6 ∷ [])
unfolding acceptor_impl
listens = refl

-- An acceptor whose accept is suspended on: one owner, the awaitable and the submission.
Reach-Held_example : Held 2 (record accepting { count = 3 })
unfolding hold await_suspend
Reach-Held_example =
    Reach-Held true 4 (5 ∷ 6 ∷ []) (5 ∷ 6 ∷ []) listens
      (next (makes (here refl refl) refl) (Refs.accepts 32 (5 ∷ 6 ∷ []) (6 ∷ []) _ refl))
