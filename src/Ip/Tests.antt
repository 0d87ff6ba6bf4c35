-- ===== src/Ip/Tests.antt =====
-- An `inet_pton` that knows the text 5, and its inverse.
use fiona.Base.{ℕ, pos, negsuc, ◌≡◌, refl, ◌==◌, Result, ok, err, List, [], ◌∷◌, if◌then◌else◌}
use fiona.Ip.{htons, Parsed, invalid, errno, out_of_range, make_sockaddr, to_string}

abbrev parse : List ℕ → Parsed ℕ
parse [] = record { ret = negsuc 0; addr = 0; errno = 97 }
parse (c ∷ cs) = record { ret = if c == 5 then pos 1 else pos 0; addr = c; errno = 0 }

abbrev print : ℕ → ℕ → Result ℕ (List ℕ)
print n size = ok (n ∷ 0 ∷ [])

swapped : htons 8080 ≡ 36895
unfolding htons
swapped = refl

refused : make_sockaddr 2 parse (6 ∷ []) 80 ≡ err invalid
unfolding make_sockaddr
refused = refl

unsupported : make_sockaddr 2 parse [] 80 ≡ err (errno 97)
unfolding make_sockaddr
unsupported = refl

-- Without a closing zero there is none in the string.
unterminated :
    to_string {Address = ℕ}
      (λ a size. ok (1 ∷ 1 ∷ 1 ∷ 1 ∷ 1 ∷ 1 ∷ 1 ∷ 1 ∷ 1 ∷ 1 ∷ 1 ∷ 1 ∷ 1 ∷ 1 ∷ 1 ∷ 1 ∷ []))
      (record { family = 2; port = 0; addr = 0 })
    ≡ err out_of_range
unfolding to_string
unterminated = refl

printed : to_string print (record { family = 2; port = 0; addr = 5 }) ≡ ok (5 ∷ [])
unfolding to_string
printed = refl
