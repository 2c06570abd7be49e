-- ===== src/Base/Int.antt =====
-- Go's signed integers: `pos n` is n and `negsuc n` is -(n + 1). Conversions wrap.
use Prim.Native.Nat.{ℕ, ◌-◌, ◌%◌, ◌<◌}
use mathlib.Core.Path.{◌≡◌}
use mathlib.Core.Bool.{Bool, true, false}
use native.Mathlib.Omega.{arith}
use rook_host.Base.Tests.{ltb, if◌then◌else◌}

pub data ℤ : Type 0 where
  pos : ℕ → ℤ
  negsuc : ℕ → ℤ

-- `x < 0`
abbrev pub is_negative : ℤ → Bool
is_negative (pos n) = false
is_negative (negsuc n) = true

-- `x > n`, for n not negative
abbrev pub exceeds : ℤ → ℕ → Bool
exceeds (pos m) n = ltb n m
exceeds (negsuc m) n = false

-- The two's complement bit pattern of width 32, read as unsigned: `uint32(x)`.
abbrev pub to_u32 : ℤ → ℕ
to_u32 (pos n) = n % 4294967296
to_u32 (negsuc n) = 4294967295 - n % 4294967296

-- `uint64(x)`
abbrev pub to_u64 : ℤ → ℕ
to_u64 (pos n) = n % 18446744073709551616
to_u64 (negsuc n) = 18446744073709551615 - n % 18446744073709551616

-- A bit pattern of width 32 read as signed.
abbrev pub from_u32 : ℕ → ℤ
from_u32 n = if ltb n 2147483648 then pos n else negsuc (4294967295 - n)

-- `int32(x)`
abbrev pub to_i32 : ℤ → ℤ
to_i32 x = from_u32 (to_u32 x)

-- x is in the range of int32
abbrev pub FitsI32 : ℤ → Type 0
FitsI32 (pos n) = n < 2147483648
FitsI32 (negsuc n) = n < 2147483648

pub to_i32_fits : (x : ℤ) → FitsI32 x → to_i32 x ≡ x
to_i32_fits (pos n) h = ground arith
to_i32_fits (negsuc n) h = ground arith
