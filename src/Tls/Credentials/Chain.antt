-- ===== src/Tls/Credentials/Chain.antt =====
-- What `find_cert_chain` finds.
use mathlib.Core.Option.{some-injective}
use mathlib.Core.Path.{subst}
use fiona.Base.{
  ℕ, zero, suc, ◌≡◌, refl, sym, ◌∙◌, ◌&&◌, arith, inl, inr, ◌==◌, Bool, true, false, ◌||◌, Option,
  none, some, List, [], ◌∷◌, has, All, if◌then◌else◌, get_elem?, Bool-cases,
}
use fiona.Tls.Credentials.{
  Pki, Purpose, tls_server, tls_client, another, CertKeyPair, private_key_for, serves, find_server,
  find_issued, find_client, find_cert_chain,
}

or_true : (a : Bool) {b : Bool} → b ≡ true → (a || b) ≡ true
or_true false e = e
or_true true e = refl

true_or : {a : Bool} (b : Bool) → a ≡ true → (a || b) ≡ true
true_or b e = rw (e) refl

or_first : {a : Bool} (b : Bool) → a ≡ false → (a || b) ≡ b
or_first b e = rw (e) refl

-- A number stands somewhere in a list.
abbrev pub Elem : ℕ → List ℕ → Type 0
Elem x xs = (i : ℕ) × (get_elem? xs i ≡ some x)

has-Elem : (x : ℕ) (xs : List ℕ) → has x xs ≡ true → Elem x xs
has-Elem x [] e = absurd (cc)
has-Elem x (y ∷ ys) e = elim (Bool-cases (x == y)) [
  | inl c ↦ (zero, ground (arith, c))
  | inr c ↦ (let (i, f) = has-Elem x ys (sym (or_first (has x ys) c) ∙ e) in (suc i, f))
]

Elem-has : (x : ℕ) (xs : List ℕ) → Elem x xs → has x xs ≡ true
Elem-has x [] (i, e) = absurd (cc)
Elem-has x (y ∷ ys) (zero, e) = true_or (has x ys) (ground (arith, some-injective _ _ e))
Elem-has x (y ∷ ys) (suc i, e) = or_true (x == y) (Elem-has x ys (i, e))

not_both : {b : Bool} → b ≡ false → b ≡ true → ⊥
not_both e f = cc

both : (a : Bool) {b : Bool} → (a && b) ≡ true → (a ≡ true) × (b ≡ true)
both true e = (refl, e)
both false e = absurd (cc)

and_nothing : (a : Bool) → (a && false) ≡ true → ⊥
and_nothing true e = cc
and_nothing false e = cc

module _ (P : Pki) where
  open P use {Cert, Key}

  abbrev Pair : Type 0
  Pair = CertKeyPair P

  -- No pair passes a test, or the chain is the certificate of one that does.
  pub data Picked (test : Pair → Bool) (pairs : List Pair) : List Cert → Type 0 where
    nothing : All (λ p. test p ≡ false) pairs → Picked test pairs []
    picked :
        (i : ℕ) (p : Pair)
        → get_elem? pairs i ≡ some p
        → test p ≡ true
        → Picked test pairs (p.cert ∷ [])

  -- Another pair, in front, that does not pass.
  behind :
      (test : Pair → Bool) (p : Pair) (ps : List Pair) (chain : List Cert)
      → test p ≡ false
      → Picked test ps chain
      → Picked test (p ∷ ps) chain
  behind test p ps chain e (nothing a) = nothing (e, a)
  behind test p ps chain e (picked i q g f) = picked (suc i) q g f

  server-Picked :
      (algos hostname : List ℕ) (pairs : List Pair)
      → Picked (serves P algos hostname) pairs (find_server P algos hostname pairs)
  unfolding find_server
  server-Picked algos hostname [] = nothing tt
  server-Picked algos hostname (p ∷ ps) =
      go (serves P algos hostname p) refl (server-Picked algos hostname ps)
    where
      go :
          (b : Bool)
          → serves P algos hostname p ≡ b
          → Picked (serves P algos hostname) ps (find_server P algos hostname ps)
          → Picked
              (serves P algos hostname)
              (p ∷ ps)
              (if b then p.cert ∷ [] else find_server P algos hostname ps)
      go true e tail = picked zero p refl e
      go false e tail =
          behind (serves P algos hostname) p ps (find_server P algos hostname ps) e tail

  -- The pairs of an issuer
  abbrev Issued : ℕ → List Pair → Option Cert → Type 0
  Issued dn pairs none = All (λ p. (P.issuer_dn p.cert == dn) ≡ false) pairs
  Issued dn pairs (some c) =
      (i : ℕ) × (p : Pair) × (get_elem? pairs i ≡ some p)
      × ((P.issuer_dn p.cert == dn) ≡ true)
      × (c ≡ p.cert)

  find_issued-Issued : (dn : ℕ) (pairs : List Pair) → Issued dn pairs (find_issued P dn pairs)
  unfolding find_issued
  find_issued-Issued dn [] = tt
  find_issued-Issued dn (p ∷ ps) =
      go (P.issuer_dn p.cert == dn) refl (find_issued P dn ps) (find_issued-Issued dn ps)
    where
      go :
          (b : Bool)
          → (P.issuer_dn p.cert == dn) ≡ b
          → (o : Option Cert) → Issued dn ps o
          → Issued dn (p ∷ ps) (if b then some p.cert else o)
      go true e o h = (zero, p, refl, e, refl)
      go false e none h = (e, h)
      go false e (some c) (i, q, g, f, s) = (suc i, q, g, f, s)

  -- Whether a pair is from one of the authorities
  abbrev pub issued : (acceptable_cas : List ℕ) → Pair → Bool
  issued cas p = has (P.issuer_dn p.cert) cas

  none_issued : (pairs : List Pair) → All (λ p. issued [] p ≡ false) pairs
  none_issued [] = tt
  none_issued (p ∷ ps) = (refl, none_issued ps)

  or_false : (a b : Bool) → a ≡ false → b ≡ false → (a || b) ≡ false
  or_false a b e f = rw (e) f

  both_false :
      (dn : ℕ) (dns : List ℕ) (pairs : List Pair)
      → Issued dn pairs none
      → All (λ p. issued dns p ≡ false) pairs
      → All (λ p. issued (dn ∷ dns) p ≡ false) pairs
  both_false dn dns [] a b = tt
  both_false dn dns (p ∷ ps) a b =
      (or_false (P.issuer_dn p.cert == dn) (issued dns p) a.0 b.0, both_false dn dns ps a.1 b.1)

  client-Picked :
      (cas : List ℕ) (pairs : List Pair) → Picked (issued cas) pairs (find_client P cas pairs)
  unfolding find_client
  client-Picked [] pairs = nothing (none_issued pairs)
  client-Picked (dn ∷ dns) pairs =
      go (find_issued P dn pairs) (find_issued-Issued dn pairs) (find_client P dns pairs)
        (client-Picked dns pairs)
    where
      go :
          (o : Option Cert)
          → Issued dn pairs o
          → (chain : List Cert) → Picked (issued dns) pairs chain
          → Picked (issued (dn ∷ dns)) pairs (elim o [ none ↦ chain | some c ↦ c ∷ [] ])
      go none h chain (nothing a) = nothing (both_false dn dns pairs h a)
      go none h chain (picked i p g f) = picked i p g (or_true (P.issuer_dn p.cert == dn) f)
      go (some c) (i, p, g, f, s) chain k =
          subst (λ x. Picked (issued (dn ∷ dns)) pairs (x ∷ [])) (sym s)
            (picked i p g (true_or (issued dns p) f))

  -- No pair suits, or the chain is the certificate of one that does, for which a key is found.
  pub data Chosen (Suit : Pair → Type 0) (pairs : List Pair) : List Cert → Type 0 where
    unserved : All (λ p. ¬ Suit p) pairs → Chosen Suit pairs []
    chosen :
        (i : ℕ) (p : Pair) (k : Key)
        → get_elem? pairs i ≡ some p
        → Suit p
        → private_key_for P p.cert pairs ≡ some k
        → Chosen Suit pairs (p.cert ∷ [])

  -- What a pair is to satisfy for a purpose: for a server, its key is of one of the algorithms, and its
  -- certificate is for the host, which has a name; for a client, its certificate is from one of the
  -- authorities.
  abbrev pub Suits : (algos acceptable_cas : List ℕ) → Purpose → (hostname : List ℕ) → Pair → Type 0
  Suits algos cas tls_server hostname p =
      Elem (P.algo_name p.key) algos
      × (¬ (hostname ≡ []))
      × (P.matches_dns_name p.cert hostname ≡ true)
  Suits algos cas tls_client hostname p = Elem (P.issuer_dn p.cert) cas
  Suits algos cas another hostname p = ⊥

  serves-Suits :
      (algos cas hostname : List ℕ) (p : Pair)
      → serves P algos hostname p ≡ true
      → Suits algos cas tls_server hostname p
  serves-Suits algos cas [] p e = absurd (and_nothing (has (P.algo_name p.key) algos) e)
  serves-Suits algos cas (x ∷ xs) p e =
      let (f, g) = both (has (P.algo_name p.key) algos) e in
      (has-Elem (P.algo_name p.key) algos f, (λ n. cc), g)

  not_serves :
      (algos cas hostname : List ℕ) (p : Pair)
      → serves P algos hostname p ≡ false
      → ¬ Suits algos cas tls_server hostname p
  not_serves algos cas [] p e (i, n, m) = n refl
  not_serves algos cas (x ∷ xs) p e (i, n, m) =
      let h : has (P.algo_name p.key) algos ≡ true = Elem-has (P.algo_name p.key) algos i in cc

  module _ (reflexive : (c : Cert) → P.cert_eq c c ≡ true) where
    key_of :
        (pairs : List Pair) (i : ℕ) (p : Pair)
        → get_elem? pairs i ≡ some p
        → (k : Key) × (private_key_for P p.cert pairs ≡ some k)
    unfolding private_key_for
    key_of [] i p e = absurd (cc)
    key_of (x ∷ xs) zero p e = (
      x.key,
      rw (subst (λ q. P.cert_eq q.cert x.cert ≡ true) (some-injective _ _ e) (reflexive x.cert))
          refl,
    )
    key_of (x ∷ xs) (suc i) p e = elim (Bool-cases (P.cert_eq p.cert x.cert)) [
      | inl c ↦ (x.key, rw (c) refl)
      | inr c ↦ (let (k, f) = key_of xs i p e in (k, rw (c) f))
    ]

    module _ (test : Pair → Bool) (Suit : Pair → Type 0)
        (passes : (p : Pair) → test p ≡ true → Suit p)
        (fails : (p : Pair) → test p ≡ false → ¬ Suit p) where
      none_suit : (pairs : List Pair) → All (λ p. test p ≡ false) pairs → All (λ p. ¬ Suit p) pairs
      none_suit [] a = tt
      none_suit (p ∷ ps) a = (fails p a.0, none_suit ps a.1)

      with_key :
          (pairs : List Pair) (chain : List Cert)
          → Picked test pairs chain
          → Chosen Suit pairs chain
      with_key pairs chain (nothing a) = unserved (none_suit pairs a)
      with_key pairs chain (picked i p e f) =
          let (k, g) = key_of pairs i p e in chosen i p k e (passes p f) g

    for_no_one : (pairs : List Pair) → All (λ p. ¬ ⊥) pairs
    for_no_one [] = tt
    for_no_one (p ∷ ps) = ((λ x. x), for_no_one ps)

    -- Where a certificate equals itself, the chain that is found for a purpose is empty only if no pair
    -- suits: for a server, a key of one of the algorithms with a certificate for the host's name, which
    -- is not empty; for a client, a certificate from one of the authorities. Otherwise it is the
    -- certificate of a pair that suits, and a private key is found for it.
    pub find_cert_chain-Chosen :
        (algos cas : List ℕ) (purpose : Purpose) (hostname : List ℕ) (pairs : List Pair)
        → Chosen
            (Suits algos cas purpose hostname)
            pairs
            (find_cert_chain P algos cas purpose hostname pairs)
    unfolding find_cert_chain
    find_cert_chain-Chosen algos cas tls_server hostname pairs =
        with_key (serves P algos hostname) (Suits algos cas tls_server hostname)
          (serves-Suits algos cas hostname) (not_serves algos cas hostname) pairs
          (find_server P algos hostname pairs) (server-Picked algos hostname pairs)
    find_cert_chain-Chosen algos cas tls_client hostname pairs =
        with_key (issued cas) (Suits algos cas tls_client hostname)
          (λ p e. has-Elem (P.issuer_dn p.cert) cas e)
          (λ p e i. not_both e (Elem-has (P.issuer_dn p.cert) cas i)) pairs
          (find_client P cas pairs) (client-Picked cas pairs)
    find_cert_chain-Chosen algos cas another hostname pairs = unserved (for_no_one pairs)
