-- ===== src/Base/Int.antt =====
-- The values of C's signed integers, and the conversions of a 32-bit word.
use Prim.Native.Nat.{ℕ, ◌-◌, ◌^◌, ◌<◌}
use mathlib.Core.Path.{◌≡◌}
use native.Mathlib.Omega.{arith}
use asterisk.Base.Logic.{ltb, if◌then◌else◌}

-- `negsuc n` is -(n + 1).
pub data ℤ : Type 0 where
  pos : ℕ → ℤ
  negsuc : ℕ → ℤ

-- `-n`
abbrev pub neg : ℕ → ℤ
neg n = if ltb 0 n then negsuc (n - 1) else pos 0

-- `(int32_t) n` of a `uint32_t`
unfoldable pub to_int32 : ℕ → ℤ
to_int32 n = if ltb n (2 ^ 31) then pos n else negsuc (2 ^ 32 - 1 - n)

pub to_int32-small : (n : ℕ) → n < 2 ^ 31 → to_int32 n ≡ pos n
unfolding to_int32
to_int32-small n h = ground arith
