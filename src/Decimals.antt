-- ===== src/Decimals.antt =====
-- What the code uses of github.com/shopspring/decimal, which is not part of the repository.
use finance_service.Base.{◌≡◌, ◌↔◌, Bool, true, String, Option}

-- decimal.Zero, Add, IsZero, NewFromString (`none` is its error) and String.
pub record Decimals (D : Type 0) : Type 0 where
  pub zero : D
  pub add : D → D → D
  pub is_zero : D → Bool
  pub parse : String → Option D
  pub print : D → String

-- The documented arithmetic: addition is exact.
pub record IsExact (D : Type 0) ⦃d : Decimals D⦄ : Type 0 where
  pub zero-add : (x : D) → d.add d.zero x ≡ x
  pub add-zero : (x : D) → d.add x d.zero ≡ x
  pub add_assoc : (x y z : D) → d.add (d.add x y) z ≡ d.add x (d.add y z)
  pub is_zero_iff : (x : D) → (d.is_zero x ≡ true) ↔ (x ≡ d.zero)
