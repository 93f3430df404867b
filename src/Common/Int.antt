-- ===== src/Common/Int.antt =====
-- Signed 64-bit times: integers, of which the program takes differences and compares.
use Prim.Native.Nat.{ℕ, suc, ◌+◌, ◌-◌}
use Prim.Native.String
use Prim.Native.String.{String}
use mathlib.Core.Bool.{Bool, false}
use linuxpracticelab.Common.Tests.{ltb, leb, ◌==◌, if◌then◌else◌}
use linuxpracticelab.Common.Decimal.{decimal}

-- `negsuc n` is -(n + 1).
pub data ℤ : Type 0 where
  pos : ℕ → ℤ
  negsuc : ℕ → ℤ

abbrev pub above_zero : ℤ → ℕ
above_zero (pos n) = n
above_zero (negsuc n) = 0

abbrev pub below_zero : ℤ → ℕ
below_zero (pos n) = 0
below_zero (negsuc n) = suc n

-- i - n.
unfoldable pub minus : ℤ → ℕ → ℤ
minus i n =
    let short = below_zero i + n in
    if leb short (above_zero i)
    then pos (above_zero i - short)
    else negsuc (short - above_zero i - 1)

unfoldable pub earlier : ℤ → ℤ → Bool
earlier i j = ltb (above_zero i + below_zero j) (above_zero j + below_zero i)

abbrev pub same_int : ℤ → ℤ → Bool
same_int (pos m) (pos n) = m == n
same_int (negsuc m) (negsuc n) = m == n
same_int _ _ = false

-- `{}` of a signed integer.
unfoldable pub show_int : ℤ → String
show_int (pos n) = decimal n
show_int (negsuc n) = String.◌++◌ "-" (decimal (suc n))
