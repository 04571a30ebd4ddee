-- ===== src/Prelude/Words.antt =====
-- Unsigned machine words as native numbers, and the two's complement pattern of -1.
use Prim.Native.Nat.{ℕ, ◌+◌, ◌-◌, ◌%◌, ◌^◌}
use mathlib.Core.Bool.{Bool}
use pocol_vm.Prelude.Tests.{ltb, leb, if◌then◌else◌}

-- `(uint64_t)x`
abbrev pub wrap64 : ℕ → ℕ
wrap64 x = x % 2 ^ 64

-- `(uint8_t)x`
abbrev pub wrap8 : ℕ → ℕ
wrap8 x = x % 2 ^ 8

-- `(int)x` as a 32-bit pattern
abbrev pub wrap32 : ℕ → ℕ
wrap32 x = x % 2 ^ 32

-- The 64-bit pattern of the `int` whose 32-bit pattern is `x`: sign extension.
abbrev pub sext64 : ℕ → ℕ
sext64 x = if ltb x (2 ^ 31) then x else x + 2 ^ 64 - 2 ^ 32

-- The patterns of -1 as an `int` and as an `int64_t`.
abbrev pub minus_one32 : ℕ
minus_one32 = 2 ^ 32 - 1

abbrev pub minus_one64 : ℕ
minus_one64 = 2 ^ 64 - 1

-- `x < 0` for an `int`, for an `int64_t`
abbrev pub is_neg32 : ℕ → Bool
is_neg32 x = leb (2 ^ 31) x

abbrev pub is_neg64 : ℕ → Bool
is_neg64 x = leb (2 ^ 63) x
