-- ===== src/Dns/Tests.antt =====
-- Two names, of which the second one is not known.
use fiona.Base.{
  ℕ, ℤ, pos, negsuc, ◌+◌, ◌≡◌, refl, ◌==◌, true, false, ok, err, none, some, List, [], ◌∷◌,
  if◌then◌else◌, arith, Bool-cases, inl, inr,
}
use fiona.Buffers.Linked.{at}
use fiona.Buffers.Owned.Owners.{held, Owned}
use fiona.Dns.{no_thread, started, DnsFrame, dns_resolver, await_suspend}
use fiona.Dns.Queries.{resolve_all, answers, resolve_all-answers}
use fiona.Dns.Entries.{EntryLists, move_construct, destroy}

abbrev lookup : ℕ → ℕ → ℕ → ℤ × ℕ
lookup node service hints = if node == 7 then (pos 0, 100 + service) else (negsuc 1, 0)

abbrev names : List (ℕ × ℕ)
names = (7, 1) ∷ (8, 1) ∷ []

both : answers lookup 0 names ≡ ok 101 ∷ err (negsuc 1) ∷ []
both = refl

resolve_all-answers_example :
    (g : DnsFrame) × (resolve_all lookup names dns_resolver ≡ some (answers lookup 0 names, g))
    × (g.thread ≡ no_thread)
    × (g.hints ≡ 0)
    × (g.wakes ≡ 2 + 0)
resolve_all-answers_example = resolve_all-answers lookup names dns_resolver refl

abbrev busy : DnsFrame
busy = record dns_resolver { thread = started }

suspends : await_suspend dns_resolver ≡ some busy
unfolding await_suspend
suspends = refl

-- Two lists, at 100 and 200.
abbrev two : EntryLists
two = record {
  live = at (at (λ a. false) 200 true) 100 true;
  heads = at (at (λ a. none) 1 (some 200)) 0 (some 100);
}

holds_two : (i : ℕ) → held (two.heads i) ≡ at (at (λ a. 0) 1 200) 0 100 i
holds_two i = elim (Bool-cases (i == 0)) [
  | inl e ↦ rw (e) refl
  | inr e ↦ elim (Bool-cases (i == 1)) [ inl f ↦ rw (e, f) refl | inr f ↦ rw (e, f) refl ]
]

two-Owned : Owned two.live (λ a. held (two.heads a))
two-Owned = record {
  lives = λ i l. ground (arith, holds_two i, l);
  once = λ i j l e. ground (arith, holds_two i, holds_two j, l, e);
  kept = λ p l. elim (Bool-cases (p == 100)) [
    | inl e ↦ (0, ground (arith, e))
    | inr e ↦ (1, ground (arith, l, e))
  ];
  default = refl;
}

moved :
    (move_construct 2 0 two)
    ≡ some (record two { heads = at (at two.heads 2 (some 100)) 0 (some 0) })
unfolding move_construct
moved = refl

freed :
    (destroy 0 two) ≡ some (record { live = at two.live 100 false; heads = at two.heads 0 none })
unfolding destroy
freed = refl
