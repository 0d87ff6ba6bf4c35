-- ===== src/Tls/Credentials.antt =====
-- `tls_credentials_manager` and `tls_verify_cert_chain` of src/tls/tls.cpp. Certificates and keys are Botan's,
-- the record `Pki`; the names of algorithms and of issuers are numbers, and a host's name is text.
pub mod Chain
pub mod Tests
use fiona.Base.{
  ◌>>=◌, ℕ, Bool, true, false, not, ◌&&◌, Option, none, some, List, [], ◌∷◌, ◌++◌, has, ◌==◌,
  if◌then◌else◌,
}
use fiona.Tls.Session.{Thrown, other}

-- `Botan::X509_Certificate` and `Botan::Private_Key`
pub record Pki : Type 1 where
  pub Cert : Type 0
  pub Key : Type 0
  pub cert_eq : Cert → Cert → Bool
  pub matches_dns_name : Cert → List ℕ → Bool
  pub issuer_dn : Cert → ℕ
  pub algo_name : Key → ℕ

-- The `type` of a request
pub data Purpose : Type 0 where
  tls_server tls_client another : Purpose

-- `tls_verify_cert_chain`, on whether the path was validated: what is thrown.
unfoldable pub tls_verify_cert_chain : (successful_validation : Bool) → Option Thrown
tls_verify_cert_chain ok = if not ok then some other else none

-- `hostname.empty()`
abbrev pub is_empty : List ℕ → Bool
is_empty [] = true
is_empty (c ∷ cs) = false

module _ (P : Pki) where
  open P use {Cert, Key}

  pub record CertKeyPair : Type 0 where
    pub cert : Cert
    pub key : Key

  -- `tls_context::add_certificate_key_pair`, once both files are read.
  unfoldable pub add_certificate_key_pair : Cert → Key → List CertKeyPair → List CertKeyPair
  add_certificate_key_pair c k pairs = pairs ++ record { cert = c; key = k } ∷ []

  unfoldable pub private_key_for : Cert → List CertKeyPair → Option Key
  private_key_for c [] = none
  private_key_for c (p ∷ ps) =
      let rest = private_key_for c ps in if P.cert_eq c p.cert then some p.key else rest

  -- The conditions of the loop for a server
  abbrev pub serves : (algos hostname : List ℕ) → CertKeyPair → Bool
  serves algos hostname p =
      has (P.algo_name p.key) algos
      && (not (is_empty hostname) && P.matches_dns_name p.cert hostname)

  unfoldable pub find_server : (algos hostname : List ℕ) → List CertKeyPair → List Cert
  find_server algos hostname [] = []
  find_server algos hostname (p ∷ ps) =
      let rest = find_server algos hostname ps in
      if serves algos hostname p then p.cert ∷ [] else rest

  -- The inner loop for a client, over the pairs
  unfoldable pub find_issued : (dn : ℕ) → List CertKeyPair → Option Cert
  find_issued dn [] = none
  find_issued dn (p ∷ ps) =
      let rest = find_issued dn ps in if P.issuer_dn p.cert == dn then some p.cert else rest

  -- The outer loop, over the authorities
  unfoldable pub find_client : (acceptable_cas : List ℕ) → List CertKeyPair → List Cert
  unfolding find_issued
  find_client [] pairs = []
  find_client (dn ∷ dns) pairs =
      let rest = find_client dns pairs in
      elim (find_issued dn pairs) [ none ↦ rest | some c ↦ c ∷ [] ]

  unfoldable pub find_cert_chain :
      (algos acceptable_cas : List ℕ) → Purpose → (hostname : List ℕ) → List CertKeyPair → List Cert
  unfolding find_server find_client
  find_cert_chain algos cas tls_server hostname pairs = find_server algos hostname pairs
  find_cert_chain algos cas tls_client hostname pairs = find_client cas pairs
  find_cert_chain algos cas another hostname pairs = []
