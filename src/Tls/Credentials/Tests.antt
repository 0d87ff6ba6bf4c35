-- ===== src/Tls/Credentials/Tests.antt =====
-- Certificates and keys that are numbers: a certificate is for the host that it is equal to, and its issuer
-- is 50; a key is of the algorithm that it is equal to.
use fiona.Base.{◌≡◌, refl, ◌==◌, ℕ, Bool, true, false, some, List, [], ◌∷◌, arith}
use fiona.Tls.Session.{other}
use fiona.Tls.Credentials.{
  Pki, tls_server, tls_client, CertKeyPair, private_key_for, find_cert_chain,
  add_certificate_key_pair, tls_verify_cert_chain,
}
use fiona.Tls.Credentials.Chain.{Chosen, Suits, find_cert_chain-Chosen}

abbrev is_host : ℕ → List ℕ → Bool
is_host c [] = true
is_host c (x ∷ xs) = x == c

abbrev numbers : Pki
numbers = record {
  Cert = ℕ;
  Key = ℕ;
  cert_eq = λ c d. c == d;
  matches_dns_name = is_host;
  issuer_dn = λ c. 50;
  algo_name = λ k. k;
}

abbrev two : List (CertKeyPair numbers)
two = record { cert = 7; key = 1 } ∷ record { cert = 8; key = 2 } ∷ []

added : add_certificate_key_pair numbers 9 3 [] ≡ record { cert = 9; key = 3 } ∷ []
unfolding add_certificate_key_pair
added = refl

second : find_cert_chain numbers (1 ∷ 2 ∷ []) [] tls_server (8 ∷ []) two ≡ 8 ∷ []
unfolding find_cert_chain
second = refl

-- Without a host's name a server has no certificate.
nameless : find_cert_chain numbers (1 ∷ 2 ∷ []) [] tls_server [] two ≡ []
unfolding find_cert_chain
nameless = refl

key : private_key_for numbers 8 two ≡ some 2
unfolding private_key_for
key = refl

invalid : tls_verify_cert_chain false ≡ some other
unfolding tls_verify_cert_chain
invalid = refl

same : (c : ℕ) → (c == c) ≡ true
same c = ground arith

find_cert_chain-Chosen_example :
    Chosen numbers
      (Suits numbers (1 ∷ []) (50 ∷ []) tls_client [])
      two
      (find_cert_chain numbers (1 ∷ []) (50 ∷ []) tls_client [] two)
find_cert_chain-Chosen_example =
    find_cert_chain-Chosen numbers same (1 ∷ []) (50 ∷ []) tls_client [] two
