-- ===== src/Repository/Finances.antt =====
-- Save of domain/model/repository/sellerFinance/sellerFinanceRepositoryImpl.go, over its requests to
-- MongoDB. The orders that Save changes through their pointers are those of the finance it returns.
pub mod Saved
use Prim.Native.String.{◌++◌ as str_append}
use finance_service.Base.{
  ℕ, suc, ◌+◌, ◌%◌, ◌≡◌, String, Option, none, some, List, [], ◌∷◌, if◌then◌else◌,
}
use finance_service.Base.Int.{pos, int64, quotient}
use finance_service.Base.Text.{itoa}
use finance_service.Base.Outcome.{Reply, value, failure, internal_error}
use finance_service.Entities.{Time, ObjectId, SellerOrder, OrderInfo, SellerFinance}
use finance_service.Repository.Triggers.{UpdateResult, update_reply}
use text.Mathlib.Text.{◌==◌ as str_eq}

-- The requests: an insert, and an update with upsert of the finance with this fid and version that is
-- not deleted; `none` is an error. `order_id` is what NewObjectID gives for an order of an order info.
pub record FinanceDatabase (S : Type 0) : Type 0 where
  pub insert_finance : SellerFinance → S → Option ObjectId × S
  pub upsert_finance : String → ℕ → SellerFinance → S → Option UpdateResult × S
  pub order_id : S → ℕ → ℕ → ObjectId

unfoldable pub generate_id : ℕ → Time → String
unfolding int64
generate_id seller_id now =
    str_append (itoa (int64 (pos seller_id))) (itoa (quotient now (pos 1000)))

-- the inner loop, over the orders of an order info from the j-th on
unfoldable pub mark_orders : (ℕ → ObjectId) → String → ℕ → List SellerOrder → List SellerOrder
mark_orders new_id fid j [] = []
mark_orders new_id fid j (o ∷ os) =
    record o { fid = fid; id = new_id j } ∷ mark_orders new_id fid (suc j) os

unfoldable pub mark_infos : (ℕ → ℕ → ObjectId) → String → ℕ → List OrderInfo → List OrderInfo
unfolding mark_orders
mark_infos new_id fid i [] = []
mark_infos new_id fid i (info ∷ infos) =
    record info { orders = mark_orders (new_id i) fid 0 info.orders }
    ∷ mark_infos new_id fid (suc i) infos

-- the finance that the first branch inserts
unfoldable pub new_finance : (ℕ → ℕ → ObjectId) → String → SellerFinance → SellerFinance
unfolding mark_infos
new_finance new_id fid f = record f {
  fid = fid;
  orders_info = mark_infos new_id fid 0 f.orders_info;
  version = 1;
  doc_version = "1.0.1";
}

abbrev pub inserted_reply : SellerFinance → Option ObjectId → Reply SellerFinance
inserted_reply f none = failure internal_error
inserted_reply f (some id) = value (record f { id = id })

-- the document that the second branch writes; the version is a uint64
abbrev pub next_finance : Time → SellerFinance → SellerFinance
next_finance now f = record f {
  updated_at = now;
  version = (f.version + 1) % 18_446_744_073_709_551_616;
}

module _ {S : Type 0} where
  unfoldable pub insert : FinanceDatabase S → Time → SellerFinance → S → Reply SellerFinance × S
  unfolding new_finance generate_id
  insert db now f s =
      let new = new_finance (db.order_id s) (generate_id f.seller_id now) f in
      let (result, s') = db.insert_finance new s in (inserted_reply new result, s')

  unfoldable pub upsert : FinanceDatabase S → Time → SellerFinance → S → Reply SellerFinance × S
  upsert db now f s =
      let (result, s') = db.upsert_finance f.fid f.version (next_finance now f) s in
      (update_reply (next_finance now f) result, s')

  unfoldable pub save : FinanceDatabase S → Time → SellerFinance → S → Reply SellerFinance × S
  unfolding insert upsert
  save db now f s = if str_eq f.fid "" then insert db now f s else upsert db now f s

-- How the database answers an update with upsert. A fid has one document, by the unique index on it:
-- where a document has it, but not with the version that is asked for, the upsert is an error.
pub record HoldsFinances {S : Type 0} (db : FinanceDatabase S)
    (finance_of : String → S → Option SellerFinance) : Type 0 where
  pub matches :
      (version : ℕ) (f : SellerFinance) (s s' : S) (r : UpdateResult)
      → db.upsert_finance f.fid version f s ≡ (some r, s')
      → r.matched_count ≡ 1
      → (old read : SellerFinance) × (finance_of f.fid s ≡ some old)
        × (old.version ≡ version)
        × (finance_of f.fid s' ≡ some read)
        × (read.version ≡ f.version)
