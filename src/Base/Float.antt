-- ===== src/Base/Float.antt =====
-- float32, as its IEEE 754 bit pattern: a number below 2 ^ 32.
use Prim.Native.Nat.{ℕ}
use mathlib.Core.Bool.{Bool, ◌&&◌, ◌||◌, not}
use finance_service.Base.Tests.{ltb, leb, ◌==◌}

abbrev pub Float32 : Type 0
Float32 = ℕ

-- `x > 0`: the sign is clear, and x is neither zero nor NaN.
unfoldable pub is_positive : Float32 → Bool
is_positive x = ltb 0 x && leb x 0x7f80_0000

-- `x != 0`: x is neither of the two zeros (a NaN is unequal to 0).
unfoldable pub is_nonzero : Float32 → Bool
is_nonzero x = not (x == 0 || x == 0x8000_0000)
