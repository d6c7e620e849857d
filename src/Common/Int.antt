-- ===== src/Common/Int.antt =====
-- Signed integers, and the conversions to the 32-bit types of Go.
use Prim.Native.Nat.{ℕ, zero, suc, ◌+◌, ◌-◌, ◌*◌, ◌/◌, ◌%◌, ◌^◌, ◌<◌}
use Prim.Native.String.{String, ◌++◌}
use mathlib.Core.Path.{◌≡◌}
use native.Mathlib.Omega.{arith}
use balticlsc_platform.Common.Tests.{ltb, if◌then◌else◌}
use balticlsc_platform.Common.Decimal.{show_nat}

-- `negsuc n` is -(n + 1).
pub data ℤ : Type 0 where
  pos : ℕ → ℤ
  negsuc : ℕ → ℤ

-- -n
abbrev pub neg : ℕ → ℤ
neg zero = pos 0
neg (suc n) = negsuc n

abbrev pub scale : ℤ → ℕ → ℤ
scale (pos n) k = pos (n * k)
scale (negsuc n) k = neg ((n + 1) * k)

-- Division that rounds towards zero, by a positive number.
abbrev pub quotient : ℤ → ℕ → ℤ
quotient (pos n) k = pos (n / k)
quotient (negsuc n) k = neg ((n + 1) / k)

-- The residue modulo 2 ^ 32.
abbrev pub bits32 : ℤ → ℕ
bits32 (pos n) = n % 2 ^ 32
bits32 (negsuc n) = 2 ^ 32 - 1 - n % 2 ^ 32

-- `int32(x)`
unfoldable pub to_int32 : ℤ → ℤ
to_int32 x = if ltb (bits32 x) (2 ^ 31) then pos (bits32 x) else negsuc (2 ^ 32 - 1 - bits32 x)

-- `uint32(x)`
unfoldable pub to_uint32 : ℤ → ℕ
to_uint32 x = bits32 x

pub to_int32-pos : (n : ℕ) → n < 2 ^ 31 → to_int32 (pos n) ≡ pos n
unfolding to_int32
to_int32-pos n h = ground arith

-- `%d`
unfoldable pub show_int : ℤ → String
show_int (pos n) = show_nat n
show_int (negsuc n) = "-" ++ show_nat (n + 1)
