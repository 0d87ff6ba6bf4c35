-- ===== src/Dns/Entries.antt =====
-- `dns_entry_list` of src/dns.cpp, the owner of a list of `getaddrinfo`. An object is known by a number, and
-- holds the address of its list, or null.
use mathlib.Core.Path.{subst}
use fiona.Base.{
  ◌>>=◌, ℕ, ◌<◌, ◌≡◌, refl, sym, ap, ◌∙◌, ◌==◌, Bool, true, false, Option, none, some,
  if◌then◌else◌, arith,
}
use fiona.Buffers.Linked.{at}
use fiona.Buffers.Owned.Owners.{held, Owned}

-- The lists that are allocated, and the objects.
pub record EntryLists : Type 0 where
  pub live : ℕ → Bool
  pub heads : ℕ → Option ℕ

-- The move constructor.
unfoldable pub move_construct : (i rhs : ℕ) → EntryLists → Option EntryLists
move_construct i rhs st =
    st.heads rhs >>= λ q. some (record st { heads = at (at st.heads i (some q)) rhs (some 0) })

-- The move assignment.
unfoldable pub move_assign : (i rhs : ℕ) → EntryLists → Option EntryLists
move_assign i rhs st =
    if i == rhs
    then some st
    else (st.heads rhs >>= λ q.
        some (record st { heads = at (at st.heads i (some q)) rhs (some 0) }))

-- The destructor; `none` is a list that is freed twice.
unfoldable pub destroy : ℕ → EntryLists → Option EntryLists
destroy i st = st.heads i >>= λ p.
    if p == 0
    then some (record st { heads = at st.heads i none })
    else if st.live p
    then some (record { live = at st.live p false; heads = at st.heads i none })
    else none

-- Where each list has one owner, a move assignment to another object that holds one loses it: the list
-- still lives, and no object holds it any more.
assign_leaks :
    (i rhs p q : ℕ) (st : EntryLists)
    → Owned st.live (λ a. held (st.heads a))
    → (i == rhs) ≡ false
    → st.heads i ≡ some p
    → 0 < p
    → st.heads rhs ≡ some q
    → (st' : EntryLists) × (move_assign i rhs st ≡ some st')
      × (st'.live p ≡ true)
      × ((a : ℕ) → ¬ (held (st'.heads a) ≡ p))
unfolding move_assign
assign_leaks i rhs p q st o n e pos f = (
  record st { heads = at (at st.heads i (some q)) rhs (some 0) },
  rw (n, f) refl,
  subst (λ x. st.live x ≡ true) (ap held e) (o.lives i (omega (arith, pos, ap held e))),
  λ a. go a (a == rhs) refl (a == i) refl,
)
  where
    go :
        (a : ℕ) (b : Bool)
        → (a == rhs) ≡ b
        → (c : Bool) → (a == i) ≡ c
        → ¬ (held (at (at st.heads i (some q)) rhs (some 0) a) ≡ p)
    go a true r c s h =
        let v : held (at (at st.heads i (some q)) rhs (some 0) a) ≡ 0 = rw (r) refl in
        omega (arith, v, h, pos)
    go a false r true s h =
        let v : held (at (at st.heads i (some q)) rhs (some 0) a) ≡ q = rw (r, s) refl in
        let same =
          o.once i rhs (omega (arith, pos, ap held e)) (ap held e ∙ sym h ∙ v ∙ sym (ap held f)) in
        ground (arith, same, n)
    go a false r false s h =
        let v : held (at (at st.heads i (some q)) rhs (some 0) a) ≡ held (st.heads a) =
          rw (r, s) refl in
        let same = o.once i a (omega (arith, pos, ap held e)) (ap held e ∙ sym h ∙ v) in
        ground (arith, same, s)
