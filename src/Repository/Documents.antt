-- ===== src/Repository/Documents.antt =====
-- The other operations of domain/model/repository/sellerFinance/sellerFinanceRepositoryImpl.go, over
-- their requests to MongoDB.
pub mod Catalogue
pub mod Refined
use text.Mathlib.Text.{◌==◌ as str_eq}
use finance_service.Base.{
  ℕ, ◌+◌, ◌%◌, ◌==◌, Bool, true, false, String, Option, none, some, if◌then◌else◌,
}
use finance_service.Base.Outcome.{
  Outcome, ok, panic, Reply, value, failure, not_found, internal_error,
}
use finance_service.Entities.{Time, ObjectId, FinanceState, SellerFinance}
use finance_service.Repository.Triggers.{
  Found, found, no_document, find_error, UpdateResult, reply_of, update_reply,
}
use finance_service.Repository.Finances.{FinanceDatabase, new_finance, generate_id, inserted_reply}

-- The requests, whose state is S: the finance with a fid that is not deleted, the number of finances
-- that are not deleted, $set of the one with a fid, of the status of the one with a fid and a version
-- (the version, the status and the time that are set), of the deletion time of all, and the removal
-- of documents, deleted or not. `none` and `false` are errors.
pub record DocumentRequests (S : Type 0) : Type 0 where
  pub find_one : String → S → Found SellerFinance
  pub count_live : S → Option ℕ
  pub update_one : String → SellerFinance → S → Option UpdateResult × S
  pub set_status : String → ℕ → ℕ × FinanceState × Time → S → Found (Unit {0}) × S
  pub delete_live : Time → S → Bool × S
  -- the number of documents that were removed
  pub remove_one : String → S → Option ℕ × S
  pub remove_many : S → Bool × S

-- `finance.DeletedAt = &deletedAt`
abbrev pub marked : Time → SellerFinance → SellerFinance
marked now f = record f { deleted_at = some now }

abbrev pub counted_reply : Option ℕ → Reply ℕ
counted_reply none = failure internal_error
counted_reply (some n) = value n

abbrev pub exists_reply : {A : Type 0} → Found A → Reply Bool
exists_reply (found a) = value true
exists_reply no_document = value false
exists_reply find_error = failure internal_error

abbrev pub done_reply : Bool → Reply (Unit {0})
done_reply true = value tt
done_reply false = failure internal_error

abbrev pub removed_reply : Option ℕ → Reply (Unit {0})
removed_reply none = failure internal_error
removed_reply (some n) = if n == 1 then value tt else failure not_found

module _ {S : Type 0} (db : DocumentRequests S) where
  unfoldable pub find_by_id : String → S → Reply SellerFinance
  find_by_id fid s = reply_of (db.find_one fid s)

  unfoldable pub exists_by_id : String → S → Reply Bool
  exists_by_id fid s = exists_reply (db.find_one fid s)

  unfoldable pub count : S → Reply ℕ
  count s = counted_reply (db.count_live s)

  abbrev pub mark : SellerFinance → S → Reply SellerFinance × S
  mark f s = let (result, s') = db.update_one f.fid f s in (update_reply f result, s')

  unfoldable pub delete : Time → SellerFinance → S → Reply SellerFinance × S
  delete now f s = mark (marked now f) s

  abbrev pub delete_found : Time → Reply SellerFinance → S → Reply SellerFinance × S
  delete_found now (failure code) s = (failure code, s)
  delete_found now (value f) s = mark (marked now f) s

  unfoldable pub delete_by_id : Time → String → S → Reply SellerFinance × S
  unfolding find_by_id
  delete_by_id now fid s = delete_found now (find_by_id fid s) s

  unfoldable pub delete_all : Time → S → Reply (Unit {0}) × S
  delete_all now s = let (done, s') = db.delete_live now s in (done_reply done, s')

  unfoldable pub remove_by_id : String → S → Reply (Unit {0}) × S
  remove_by_id fid s = let (result, s') = db.remove_one fid s in (removed_reply result, s')

  unfoldable pub remove : SellerFinance → S → Reply (Unit {0}) × S
  unfolding remove_by_id
  remove f s = remove_by_id f.fid s

  -- Without an error the function returns nil in place of a future, which every caller dereferences
  -- by Get.
  abbrev pub remove_all_reply : Bool → Outcome (Reply (Unit {0}))
  remove_all_reply true = panic
  remove_all_reply false = ok (failure internal_error)

  unfoldable pub remove_all : S → Outcome (Reply (Unit {0})) × S
  remove_all s = let (done, s') = db.remove_many s in (remove_all_reply done, s')

  -- the finance that the caller holds is changed whatever the database answers; the version is a uint64
  abbrev pub status_finance : Time → SellerFinance → SellerFinance
  status_finance now f = record f {
    updated_at = now;
    version = (f.version + 1) % 18_446_744_073_709_551_616;
  }

  unfoldable pub update_status : Time → SellerFinance → S → Reply (Unit {0}) × SellerFinance × S
  update_status now f s =
      let next = status_finance now f in
      let (answer, s') = db.set_status f.fid f.version (next.version, f.status, now) s in
      (reply_of answer, next, s')

-- Insert, over the insertion that Save uses too: a finance with a fid is stored as it is.
unfoldable pub insert_finance :
    {S : Type 0} → FinanceDatabase S → Time → SellerFinance → S → Reply SellerFinance × S
unfolding new_finance generate_id
insert_finance db now f s =
    let stored =
      if str_eq f.fid "" then new_finance (db.order_id s) (generate_id f.seller_id now) f else f in
    let (result, s') = db.insert_finance stored s in (inserted_reply stored result, s')
