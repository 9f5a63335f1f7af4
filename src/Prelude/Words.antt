-- ===== src/Prelude/Words.antt =====
-- int32 as a bit pattern below 2 ^ 32: addition and subtraction wrap, comparisons are signed.
use Prim.Native.Nat.{ℕ, ◌+◌, ◌-◌, ◌%◌, ◌^◌}
use mathlib.Core.Path.{◌≡◌}
use mathlib.Core.Bool.{Bool}
use native.Mathlib.Omega.{arith}
use claudie.Prelude.Tests.{ltb}

-- int32(n) of a length.
abbrev pub i32 : ℕ → ℕ
i32 n = n % 2 ^ 32

abbrev pub i32_add : ℕ → ℕ → ℕ
i32_add a b = (a + b) % 2 ^ 32

-- `-` on ℕ stops at 0, so the modulus is added first.
abbrev pub i32_sub : ℕ → ℕ → ℕ
i32_sub a b = (a + (2 ^ 32 - b % 2 ^ 32)) % 2 ^ 32

-- a < b as signed numbers: the patterns shifted by 2 ^ 31 are compared.
abbrev pub i32_lt : ℕ → ℕ → Bool
i32_lt a b = ltb ((a + 2 ^ 31) % 2 ^ 32) ((b + 2 ^ 31) % 2 ^ 32)

pub i32_sub-i32 : (a b c : ℕ) → b + c ≡ a → i32_sub (i32 a) b ≡ i32 c
i32_sub-i32 a b c h = omega arith
