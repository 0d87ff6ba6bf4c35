-- ===== src/Executor/Files/Ownership.antt =====
-- Every registered slot is free or has one owner.
use mathlib.Core.Path.{subst}
use fiona.Base.{
  ℕ, zero, suc, ◌+◌, ◌<◌, ◌≡◌, sym, ap, inl, inr, leb, ltb, ◌&&◌, pos, true, false, ◌||◌, List, [],
  ◌∷◌, arith, has, Distinct, if◌then◌else◌, Bool-cases, without, has-without_self, has-without_ne,
  Distinct-without,
}
use fiona.Executor.Files.{fill, get_available_fd, release_fd}

-- The free slots, and the slots that streams, acceptors and accepts in flight own.
pub record Slots : Type 0 where
  pub fds : List ℕ
  pub owned : List ℕ

pub record Partition (n : ℕ) (s : Slots) : Type 0 where
  pub free_apart : Distinct s.fds
  pub owned_apart : Distinct s.owned
  pub disjoint : (a : ℕ) → has a s.owned ≡ true → has a s.fds ≡ false
  pub complete : (a : ℕ) → a < n → (has a s.fds || has a s.owned) ≡ true
  pub bounded : (a : ℕ) → (has a s.fds || has a s.owned) ≡ true → a < n

-- A slot is taken by a new owner, or an owner gives back its slot.
pub data Step (s t : Slots) : Type 0 where
  takes :
      (fd : ℕ) (rest : List ℕ)
      → get_available_fd s.fds ≡ (pos fd, rest)
      → t ≡ record { fds = rest; owned = fd ∷ s.owned }
      → Step s t
  gives :
      (fd : ℕ)
      → has fd s.owned ≡ true
      → t ≡ record { fds = release_fd (pos fd) s.fds; owned = without fd s.owned }
      → Step s t

pub data Reach (s : Slots) : Slots → Type 0 where
  here : Reach s s
  next : {t u : Slots} → Reach s t → Step t u → Reach s u

get_available_fd-cons :
    (fd : ℕ) (rest fds : List ℕ) → get_available_fd fds ≡ (pos fd, rest) → fds ≡ fd ∷ rest
unfolding get_available_fd
get_available_fd-cons fd rest [] e = cc
get_available_fd-cons fd rest (x ∷ xs) e = cc

takes-Partition :
    (n fd : ℕ) (rest owned : List ℕ)
    → Partition n (record { fds = fd ∷ rest; owned = owned })
    → Partition n (record { fds = rest; owned = fd ∷ owned })
takes-Partition n fd rest owned p = record {
  free_apart = p.free_apart.1;
  owned_apart = (ground (arith, p.disjoint fd), p.owned_apart);
  disjoint = λ a h. ground (arith, p.disjoint a);
  complete = λ a h. ground (arith, p.complete a h);
  bounded = λ a h. ground (arith, p.bounded a);
}

gives-Partition :
    (n fd : ℕ) (fds owned : List ℕ)
    → has fd owned ≡ true
    → Partition n (record { fds = fds; owned = owned })
    → Partition n (record { fds = release_fd (pos fd) fds; owned = without fd owned })
unfolding release_fd
gives-Partition n fd fds owned h p = rw (p.disjoint fd h) (record {
  free_apart = (p.disjoint fd h, p.free_apart);
  owned_apart = Distinct-without fd owned p.owned_apart;
  disjoint = λ a k.
      ground
        (arith, has-without_self fd owned p.owned_apart, has-without_ne fd a owned, p.disjoint a);
  complete = λ a k.
      ground
        (arith, has-without_self fd owned p.owned_apart, has-without_ne fd a owned, p.complete a k);
  bounded = λ a k. ground (
    arith,
    has-without_self fd owned p.owned_apart,
    has-without_ne fd a owned,
    p.bounded a,
    p.bounded fd,
  );
})

Step-Partition : {n : ℕ} {s t : Slots} → Step s t → Partition n s → Partition n t
Step-Partition {n} {s} (takes fd rest e u) p =
    let q : s ≡ record { fds = fd ∷ rest; owned = s.owned } =
      ap (λ (l : List ℕ). let r : Slots = record { fds = l; owned = s.owned } in r)
        (get_available_fd-cons fd rest s.fds e) in
    subst (Partition n) (sym u) (takes-Partition n fd rest s.owned (subst (Partition n) q p))
Step-Partition {n} {s} (gives fd h u) p =
    subst (Partition n) (sym u) (gives-Partition n fd s.fds s.owned h p)

-- The constructor frees the slots below the number of files, and no other.
has-fill :
    (i n a : ℕ) (fds : List ℕ) → has a (fill i n fds) ≡ (has a fds || (leb i a && ltb a (i + n)))
unfolding fill
has-fill i zero a fds = ground arith
has-fill i (suc n) a fds = ground (arith, has-fill (suc i) n a (if has i fds then fds else i ∷ fds))

Distinct-fill : (i n : ℕ) (fds : List ℕ) → Distinct fds → Distinct (fill i n fds)
unfolding fill
Distinct-fill i zero fds d = d
Distinct-fill i (suc n) fds d =
    Distinct-fill (suc i) n _
      (elim (Bool-cases (has i fds)) [ inl e ↦ rw e d | inr e ↦ rw e (e, d) ])

start-Partition : (n : ℕ) → Partition n (record { fds = fill 0 n []; owned = [] })
start-Partition n = record {
  free_apart = Distinct-fill 0 n [] tt;
  owned_apart = tt;
  disjoint = λ a h. cc;
  complete = λ a h. ground (arith, has-fill 0 n a []);
  bounded = λ a h. ground (arith, has-fill 0 n a []);
}

-- Through any run in which slots are taken when free and given back by their owners, every slot below
-- `num_files` is free or owned, never both, and none is free or owned twice.
pub Reach-Partition :
    (n : ℕ) {s : Slots} → Reach (record { fds = fill 0 n []; owned = [] }) s → Partition n s
Reach-Partition n here = start-Partition n
Reach-Partition n (next r st) = Step-Partition st (Reach-Partition n r)
