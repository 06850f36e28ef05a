-- ===== src/Prelude/Words.antt =====
-- Go's `int32`: the integer that the low 32 bits stand for in two's complement.
use Prim.Native.Nat.{ℕ, ◌+◌, ◌-◌, ◌%◌, ◌<◌, ◌≤◌}
use mathlib.Core.Path.{◌≡◌}
use native.Mathlib.Omega.{arith}
use tiflash_autoscale.Prelude.Tests.{ltb, if◌then◌else◌}
use tiflash_autoscale.Prelude.Int.{ℤ, pos, negsuc, pos_part, neg_part}

abbrev pub two31 : ℕ
two31 = 2147483648

abbrev pub two32 : ℕ
two32 = 4294967296

-- The conversion `int32(a)`, and with it the wrap-around of int32 arithmetic.
unfoldable pub int32 : ℤ → ℤ
int32 a =
    let bits = (pos_part a + (two32 - neg_part a % two32)) % two32 in
    if ltb bits two31 then pos bits else negsuc (two32 - bits - 1)

abbrev pub InInt32 : ℤ → Type 0
InInt32 a = (pos_part a < two31) × (neg_part a ≤ two31)

-- A value in range is left as it is.
pub int32-of-InInt32 : (a : ℤ) → InInt32 a → int32 a ≡ a
unfolding int32
int32-of-InInt32 a h = ground arith

-- Whatever wraps lands in range.
pub int32-InInt32 : (a : ℤ) → InInt32 (int32 a)
unfolding int32
int32-InInt32 a = ground arith
