-- ===== src/Ip.antt =====
-- The addresses of src/ip.cpp. Text and memory are lists of bytes, and the kernel's words are as a
-- little-endian machine has them. `inet_pton` and `inet_ntop` are parameters.
pub mod Tests
use fiona.Base.{
  ◌>>=◌, ℕ, zero, suc, ◌+◌, ◌*◌, ℤ, pos, negsuc, Bool, true, false, Result, ok, err, Option, none,
  some, List, [], ◌∷◌, ◌++◌, ◌==◌, length, drop, if◌then◌else◌, is_pos,
}
use Prim.Native.Nat.{◌/◌, ◌%◌}

-- `htons`, which swaps the two bytes of a word.
unfoldable pub htons : ℕ → ℕ
htons port = 256 * (port % 256) + port / 256 % 256

-- `sockaddr_in`, or `sockaddr_in6`.
pub record SockAddr (Address : Type 0) : Type 0 where
  pub family : ℕ
  pub port : ℕ
  pub addr : Address

-- What is thrown: the text of an address that is not one, an errno, or an exception of the library.
pub data Thrown : Type 0 where
  invalid : Thrown
  errno : ℕ → Thrown
  out_of_range : Thrown

-- A call of `inet_pton`: its result, the address that it stores and the errno that it sets.
pub record Parsed (Address : Type 0) : Type 0 where
  pub ret : ℤ
  pub addr : Address
  pub errno : ℕ

module _ {Address : Type 0} where
  -- `make_sockaddr_ipv4` and `make_sockaddr_ipv6`, which differ in the family.
  unfoldable pub make_sockaddr :
      (family : ℕ)
      → (inet_pton : List ℕ → Parsed Address) → (text : List ℕ) → (port : ℕ)
      → Result Thrown (SockAddr Address)
  unfolding htons
  make_sockaddr family inet_pton text port =
      let call = inet_pton text in
      if is_pos call.ret 0
      then err invalid
      else if is_pos call.ret 1
      then ok (record { family = family; port = htons port; addr = call.addr })
      else err (errno call.errno)

-- `find_first_of( '\0' )` and the `erase` from there; without one `erase` throws.
unfoldable pub cut : List ℕ → Option (List ℕ)
cut [] = none
cut (c ∷ cs) = let rest = cut cs in if c == 0 then some [] else (rest >>= λ s. some (c ∷ s))

abbrev pub zeros : ℕ → List ℕ
zeros zero = []
zeros (suc n) = 0 ∷ zeros n

-- The string that `inet_ntop` writes into.
abbrev pub overwritten : (written string : List ℕ) → List ℕ
overwritten written string = written ++ drop (length written) string

abbrev pub inet_addrstrlen : ℕ
inet_addrstrlen = 16

-- `to_string`, of an IPv4 address: `inet_ntop` is given the size of the string, and answers with the
-- bytes that it writes, its closing zero included, or with the errno of its failure.
unfoldable pub to_string :
    {Address : Type 0}
    → (inet_ntop : Address → (size : ℕ) → Result ℕ (List ℕ)) → (sockaddr_in : SockAddr Address)
    → Result Thrown (List ℕ)
unfolding cut
to_string inet_ntop a = elim (inet_ntop a.addr inet_addrstrlen) [
  | err e ↦ err (errno e)
  | ok written ↦ elim (cut (overwritten written (zeros inet_addrstrlen))) [
    | none ↦ err out_of_range
    | some s ↦ ok s
  ]
]
