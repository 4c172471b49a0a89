-- ===== src/Calculation.antt =====
-- The calculation view of a finance: domain/model/calculation/sellerFinanceCalc.go.
mod Data
mod Factory
mod Convert
pub use Data.*
unfoldable pub use Factory.*
unfoldable pub use Convert.*
