-- ===== src/Base/Int.antt =====
-- Signed results of the kernel: `negsuc n` is -(n + 1), the number -errno for errno = n + 1.
use Prim.Native.Nat.{ℕ, zero, suc}
use mathlib.Core.Bool.{Bool, true, false}
use fiona.Base.Tests.{◌==◌}

pub data ℤ : Type 0 where
  pos : ℕ → ℤ
  negsuc : ℕ → ℤ

-- `r < 0`
abbrev pub is_neg : ℤ → Bool
is_neg (pos n) = false
is_neg (negsuc n) = true

-- `-r` where r is negative, 0 elsewhere.
abbrev pub neg_part : ℤ → ℕ
neg_part (pos n) = 0
neg_part (negsuc n) = suc n

-- `r` where r is not negative, 0 elsewhere.
abbrev pub pos_part : ℤ → ℕ
pos_part (pos n) = n
pos_part (negsuc n) = 0

-- `r == -e` for an errno e above 0.
abbrev pub is_errno : ℤ → ℕ → Bool
is_errno (pos n) e = false
is_errno (negsuc n) e = suc n == e

-- `r == n`
abbrev pub is_pos : ℤ → ℕ → Bool
is_pos (pos m) n = m == n
is_pos (negsuc m) n = false

-- `r > 0`
abbrev pub is_positive : ℤ → Bool
is_positive (pos n) = elim n [ zero ↦ false | suc m ↦ true ]
is_positive (negsuc n) = false

-- `-r`
abbrev pub neg : ℤ → ℤ
neg (pos n) = elim n [ zero ↦ pos 0 | suc m ↦ negsuc m ]
neg (negsuc n) = pos (suc n)

-- `r == 0`
abbrev pub is_zero : ℤ → Bool
is_zero r = is_pos r 0
