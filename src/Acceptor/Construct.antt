-- ===== src/Acceptor/Construct.antt =====
-- The constructor of `acceptor_impl` and the slot that it takes.
use fiona.Base.{ℕ, ◌≡◌, ◌⊎◌, ℤ, pos, Result, ok, err, Option, some, List, ◌∷◌}
use fiona.Acceptor.{AcceptorImpl}

-- What the constructor leaves, as `out`, of the free slots `fds`: all of them, with an exception; or
-- all but the one that the acceptor has; or all but one that nobody has, with the exception of the
-- refused registration.
abbrev pub Outcome : (update : Option ℕ) (fds : List ℕ) → Result ℤ AcceptorImpl × List ℕ → Type 0
Outcome update fds out =
    ((out.1 ≡ fds) × ((e : ℤ) × (out.0 ≡ err e)))
    ⊎ ((fd : ℕ) × (fds ≡ fd ∷ out.1)
        × (((a : AcceptorImpl) × (out.0 ≡ ok a) × (a.fd ≡ pos fd))
            ⊎ ((e : ℕ) × (update ≡ some e) × (out.0 ≡ err (pos e)))))
