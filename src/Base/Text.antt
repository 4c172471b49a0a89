-- ===== src/Base/Text.antt =====
-- Texts: equality, and the decimal digits of `strconv.Itoa`.
use Prim.Native.Nat.{ℕ, zero, suc, ◌/◌, ◌%◌, ◌^◌, ◌<◌}
use Prim.Native.String.{String, ◌++◌ as str_append}
use mathlib.Core.Path.{◌≡◌}
use native.Mathlib.Nat.{pow-suc}
use native.Mathlib.Omega.{arith}
use finance_service.Base.Tests.{ltb, ◌==◌, if◌then◌else◌}
use finance_service.Base.Int.{ℤ, pos, negsuc}

digit : ℕ → String
digit d =
    if d == 0
    then "0"
    else if d == 1
    then "1"
    else if d == 2
    then "2"
    else if d == 3
    then "3"
    else if d == 4
    then "4"
    else if d == 5
    then "5"
    else if d == 6
    then "6"
    else if d == 7
    then "7"
    else if d == 8
    then "8"
    else "9"

-- The digits of a number, the highest first, at most as many as the fuel.
digits : ℕ → ℕ → String
unfolding digit
digits zero n = ""
digits (suc f) n =
    let higher = str_append (digits f (n / 10)) (digit (n % 10)) in
    if ltb n 10 then digit n else higher

-- `strconv.Itoa` of an int: twenty digits are enough for 64 bits.
unfoldable pub itoa : ℤ → String
unfolding digits
itoa (pos n) = digits 20 n
itoa (negsuc n) = str_append "-" (digits 20 (suc n))

-- With fuel k a number below 10 ^ k has all its digits: more fuel changes nothing.
digits_enough : (k n : ℕ) → n < 10 ^ suc k → digits (suc (suc k)) n ≡ digits (suc k) n
unfolding digits
digits_enough zero n h = ground arith
digits_enough (suc k) n h =
    let fewer : n / 10 < 10 ^ suc k = omega (arith, pow-suc 10 (suc k)) in
    ground (arith, digits_enough k (n / 10) fewer)
