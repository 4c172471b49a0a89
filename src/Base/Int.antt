-- ===== src/Base/Int.antt =====
-- Signed integers over the native numbers, and the wrap-around of int32 and int64.
use Prim.Native.Nat.{ℕ, suc, ◌+◌, ◌-◌, ◌/◌, ◌%◌, ◌≤◌}
use mathlib.Core.Path.{◌≡◌}
use mathlib.Core.Bool.{Bool, false}
use native.Mathlib.Omega.{arith}
use finance_service.Base.Tests.{ltb, leb, ◌==◌, if◌then◌else◌}

-- `negsuc n` is -(n + 1).
pub data ℤ : Type 0 where
  pos : ℕ → ℤ
  negsuc : ℕ → ℤ

abbrev pub pos_part : ℤ → ℕ
pos_part (pos n) = n
pos_part (negsuc n) = 0

abbrev pub neg_part : ℤ → ℕ
neg_part (pos n) = 0
neg_part (negsuc n) = suc n

-- a - b, as an integer.
abbrev pub sub_ℕ : ℕ → ℕ → ℤ
sub_ℕ a b = if leb b a then pos (a - b) else negsuc (b - a - 1)

infixl 65 ◌+ℤ◌ ◌-ℤ◌
infix 50 ◌≤ℤ◌ ◌<ℤ◌
unfoldable pub ◌+ℤ◌ : ℤ → ℤ → ℤ
a +ℤ b = sub_ℕ (pos_part a + pos_part b) (neg_part a + neg_part b)

unfoldable pub ◌-ℤ◌ : ℤ → ℤ → ℤ
a -ℤ b = sub_ℕ (pos_part a + neg_part b) (neg_part a + pos_part b)

abbrev pub ◌≤ℤ◌ : ℤ → ℤ → Type 0
a ≤ℤ b = pos_part a + neg_part b ≤ pos_part b + neg_part a

abbrev pub ◌<ℤ◌ : ℤ → ℤ → Type 0
a <ℤ b = suc (pos_part a + neg_part b) ≤ pos_part b + neg_part a

abbrev pub ltb_ℤ : ℤ → ℤ → Bool
ltb_ℤ a b = ltb (pos_part a + neg_part b) (pos_part b + neg_part a)

abbrev pub eqb_ℤ : ℤ → ℤ → Bool
eqb_ℤ (pos a) (pos b) = a == b
eqb_ℤ (negsuc a) (negsuc b) = a == b
eqb_ℤ _ _ = false

-- Two lemmas let the tactics work with the sum and the difference shut.
pub +ℤ_parts :
    (a b : ℤ)
    → pos_part (a +ℤ b) + neg_part a + neg_part b ≡ neg_part (a +ℤ b) + pos_part a + pos_part b
unfolding ◌+ℤ◌
+ℤ_parts a b = ground arith

pub -ℤ_parts :
    (a b : ℤ)
    → pos_part (a -ℤ b) + neg_part a + pos_part b ≡ neg_part (a -ℤ b) + pos_part a + neg_part b
unfolding ◌-ℤ◌
-ℤ_parts a b = ground arith

pub eq_of_parts : (a b : ℤ) → pos_part a + neg_part b ≡ pos_part b + neg_part a → a ≡ b
eq_of_parts a b h = ground arith

-- Go's `/`, which rounds towards zero; a division by zero panics in Go, and is not asked here.
abbrev pub quotient : ℤ → ℤ → ℤ
quotient a b =
    let size = (pos_part a + neg_part a) / (pos_part b + neg_part b) in
    if ltb_ℤ a (pos 0)
    then (if ltb_ℤ b (pos 0) then pos size else pos 0 -ℤ pos size)
    else (if ltb_ℤ b (pos 0) then pos 0 -ℤ pos size else pos size)

-- The value of an integer in two's complement at width w = 2 ^ k, given as w and its half h.
unfoldable pub wrap : ℕ → ℕ → ℤ → ℤ
wrap w h x =
    let bits = (pos_part x + (w - neg_part x % w)) % w in
    if ltb bits h then pos bits else negsuc (w - bits - 1)

-- int32 and int64 arithmetic wraps.
unfoldable pub int32 : ℤ → ℤ
unfolding wrap
int32 = wrap 4_294_967_296 2_147_483_648

unfoldable pub int64 : ℤ → ℤ
unfolding wrap
int64 = wrap 18_446_744_073_709_551_616 9_223_372_036_854_775_808

-- In range nothing wraps.
pub int64_fits :
    (x : ℤ)
    → pos_part x ≤ 9_223_372_036_854_775_807
    → neg_part x ≤ 9_223_372_036_854_775_808
    → int64 x ≡ x
unfolding int64
int64_fits (pos n) p q = ground arith
int64_fits (negsuc n) p q = ground arith

pub int32_fits : (x : ℤ) → pos_part x ≤ 2_147_483_647 → neg_part x ≤ 2_147_483_648 → int32 x ≡ x
unfolding int32
int32_fits (pos n) p q = ground arith
int32_fits (negsuc n) p q = ground arith
