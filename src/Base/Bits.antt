-- ===== src/Base/Bits.antt =====
-- Laws of `bit_and` and `bit_or` at variables, digit by digit.
use Prim.Native.Nat.{
  ℕ, zero, suc, ◌+◌, ◌*◌, ◌/◌, ◌%◌, ◌≤◌, ◌<◌, min, max, bit_and, bit_or, digits, bit_and-bitwise,
  bit_or-bitwise,
}
use mathlib.Core.Path.{◌≡◌, refl, ap}
use native.Mathlib.Omega.{arith}

digits_fuel :
    (z : ℕ → ℕ) (f : ℕ → ℕ → ℕ) (k l x y : ℕ) → x ≤ k → x ≤ l → digits z f k x y ≡ digits z f l x y
digits_fuel z f zero l (suc x) y p q = absurd (omega arith)
digits_fuel z f (suc k) zero (suc x) y p q = absurd (omega arith)
digits_fuel z f zero zero zero y p q = refl
digits_fuel z f zero (suc l) zero y p q = refl
digits_fuel z f (suc k) zero zero y p q = refl
digits_fuel z f (suc k) (suc l) zero y p q = refl
digits_fuel z f (suc k) (suc l) (suc x) y p q =
    ap (λ (d : ℕ). d * 2 + f (suc x % 2) (y % 2))
      (digits_fuel z f k l (suc x / 2) (y / 2) (omega arith) (omega arith))

zero-bit_and : (y : ℕ) → bit_and 0 y ≡ 0
zero-bit_and y = bit_and-bitwise 0 y

zero-bit_or : (y : ℕ) → bit_or 0 y ≡ y
zero-bit_or y = bit_or-bitwise 0 y

bit_and_halves : (x y : ℕ) → bit_and x y ≡ min (x % 2) (y % 2) + bit_and (x / 2) (y / 2) * 2
bit_and_halves zero y = omega (zero-bit_and (y / 2), zero-bit_and y, arith)
bit_and_halves (suc x) y =
    let d = digits_fuel (λ b. zero) min x (suc x / 2) (suc x / 2) (y / 2) in
    omega (
      d (omega arith) (omega arith),
      bit_and-bitwise (suc x / 2) (y / 2),
      bit_and-bitwise (suc x) y,
      arith,
    )

bit_or_halves : (x y : ℕ) → bit_or x y ≡ max (x % 2) (y % 2) + bit_or (x / 2) (y / 2) * 2
bit_or_halves zero y = omega (zero-bit_or (y / 2), zero-bit_or y, arith)
bit_or_halves (suc x) y =
    let d = digits_fuel (λ b. b) max x (suc x / 2) (suc x / 2) (y / 2) in
    omega (
      d (omega arith) (omega arith),
      bit_or-bitwise (suc x / 2) (y / 2),
      bit_or-bitwise (suc x) y,
      arith,
    )

-- Induction by halves.
halves_fuel {ℓ} :
    (P : ℕ → Type ℓ) → P 0 → ((x : ℕ) → P (suc x / 2) → P (suc x)) → (k x : ℕ) → x ≤ k → P x
halves_fuel P base step k zero le = base
halves_fuel P base step zero (suc x) le = absurd (omega arith)
halves_fuel P base step (suc k) (suc x) le =
    step x (halves_fuel P base step k (suc x / 2) (omega arith))

by_halves {ℓ} : (P : ℕ → Type ℓ) → P 0 → ((x : ℕ) → P (suc x / 2) → P (suc x)) → (x : ℕ) → P x
by_halves P base step x = halves_fuel P base step x x (omega arith)

bit_and-zero : (x : ℕ) → bit_and x 0 ≡ 0
bit_and-zero =
    by_halves (λ x. bit_and x 0 ≡ 0) (zero-bit_and 0)
      (λ x ih. omega (arith, bit_and_halves (suc x) 0, ih))

bit_or-zero : (x : ℕ) → bit_or x 0 ≡ x
bit_or-zero =
    by_halves (λ x. bit_or x 0 ≡ x) (zero-bit_or 0)
      (λ x ih. omega (arith, bit_or_halves (suc x) 0, ih))

-- The two low bits, read and set.
pub bit_and-one : (x : ℕ) → bit_and x 1 ≡ x % 2
bit_and-one x = omega (arith, bit_and-zero (x / 2), bit_and_halves x 1)

pub bit_and-two : (a : ℕ) → bit_and a 2 ≡ a / 2 % 2 * 2
bit_and-two a = omega (arith, bit_and_halves a 2, bit_and-one (a / 2))

pub bit_or-one : (a : ℕ) → a % 2 ≡ 0 → bit_or a 1 ≡ a + 1
bit_or-one a h = omega (arith, bit_or_halves a 1, bit_or-zero (a / 2))

pub bit_or-two : (a : ℕ) → a % 4 ≡ 0 → bit_or a 2 ≡ a + 2
bit_or-two a h = omega (arith, bit_or_halves a 2, bit_or-one (a / 2) (omega arith))

-- k ones, and the numbers below 2 ^ k.
ones : ℕ → ℕ
ones zero = 0
ones (suc k) = ones k * 2 + 1

bit_and-ones : (k a : ℕ) → a ≤ ones k → bit_and a (ones k) ≡ a
unfolding ones
bit_and-ones zero zero h = zero-bit_and 0
bit_and-ones zero (suc a) h = absurd (omega arith)
bit_and-ones (suc k) a h =
    omega (arith, bit_and_halves a (ones k * 2 + 1), half, bit_and-ones k (a / 2) (omega arith))
  where
    half : bit_and (a / 2) ((ones k * 2 + 1) / 2) ≡ bit_and (a / 2) (ones k)
    half = ap (bit_and (a / 2)) (omega arith)

-- A 64-bit word under the mask of all but its two low bits.
pub bit_and-clear_low :
    (a : ℕ) → a < 0x1_0000_0000_0000_0000 → bit_and a 0xffff_ffff_ffff_fffc ≡ a / 4 * 4
unfolding ones
bit_and-clear_low a h = omega (
  arith,
  bit_and_halves a 0xffff_ffff_ffff_fffc,
  bit_and_halves (a / 2) 0x7fff_ffff_ffff_fffe,
  bit_and-ones 62 (a / 2 / 2) (omega arith),
)
