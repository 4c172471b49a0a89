-- ===== src/Server/Handlers.antt =====
-- infrastructure/handler/imp/seller: the handlers of a seller's requests, with
-- FindByFilterWithPageAndSort of sellerFinanceRepositoryImpl.go and FindOrderItemsByFilterWithPage of
-- sellerOrderItemRepositoryImp.go.
pub mod Owned
pub mod Authorized
use text.Mathlib.Text.{◌==◌ as str_eq}
use finance_service.Base.{
  ℕ, ◌%◌, ◌==◌, Bool, true, false, not, ◌&&◌, ◌||◌, Option, none, some, List, length, String,
  if◌then◌else◌,
}
use finance_service.Base.Int.{ℤ, pos, negsuc, pos_part, ltb_ℤ, eqb_ℤ}
use finance_service.Base.Outcome.{
  Outcome, ok, ◌>>=◌, deref, Reply, value, failure, bad_request, internal_error,
}
use finance_service.Entities.{Time, SellerFinance}
use finance_service.Repository.Paging.{Query, Pageable, counted, find_by_filter_with_page}
use finance_service.Converter.Listed.{FinanceRow, convert_finance_list}
use finance_service.Converter.Rows.{FinanceOrderItem}
use finance_service.Converter.Rows.Collection.{ItemCollection, convert_order_items}
use finance_service.Server.Mux.{Header, Response, Handler}

-- What the handlers call: the queries of a seller's finances, and of the items of a seller's finance,
-- under a sort, the formatting of times, and whether proto.Marshal succeeds.
pub record Sources : Type 0 where
  pub finances_of : ℕ → Option (String × ℤ) → Query SellerFinance
  pub items_of : String → ℕ → String × ℤ → Query FinanceOrderItem
  pub format : Time → String
  pub marshals_finances : List FinanceRow → Bool
  pub marshals_items : ItemCollection → Bool

-- what a response holds
pub data Listing : Type 0 where
  finances : List FinanceRow → Listing
  items : ItemCollection → Listing

-- Descending is 0, Ascending is 1.
abbrev pub sort_direction : ℕ → ℤ
sort_direction dir = if dir == 0 then negsuc 0 else if dir == 1 then pos 1 else pos 0

module _ {A : Type 0} where
  -- no sort where the name is empty
  unfoldable pub find_by_filter_with_page_and_sort :
      (Option (String × ℤ) → Query A) → String → ℤ → ℤ → ℤ → Reply (Pageable A)
  find_by_filter_with_page_and_sort q name dir page per_page =
      find_by_filter_with_page (q (if str_eq name "" then none else some (name, dir))) page per_page

  unfoldable pub find_order_items_by_filter_with_page :
      (String × ℤ → Query A) → String → ℤ → ℤ → ℤ → Reply (Pageable A)
  find_order_items_by_filter_with_page q name dir page per_page =
      let dir' = if str_eq name "" then pos 0 else dir in
      if ltb_ℤ page (pos 1) || ltb_ℤ per_page (pos 1)
      then failure bad_request
      else if not (str_eq name "") && (not (eqb_ℤ dir (negsuc 0)) && not (eqb_ℤ dir (pos 1)))
      then failure bad_request
      else counted (q (name, dir')) (pos_part page) (pos_part per_page) (q (name, dir')).count

-- the response, unless Marshal fails
abbrev pub respond : Bool → String → ℕ → Header → Listing → Reply (Response Listing)
respond false entity total header listing = failure internal_error
respond true entity total header listing = value (record {
  entity = entity;
  total = total % 4_294_967_296;
  page = header.page;
  per_page = header.per_page;
  data_value = listing;
})

abbrev pub respond_finances :
    Sources → Header → Reply (Pageable SellerFinance) → Outcome (Reply (Response Listing))
respond_finances s header (failure code) = ok (failure code)
respond_finances s header (value r) = do
  rows ← convert_finance_list s.format r.items
  ok (
      respond (s.marshals_finances rows) "SellerFinanceListCollection" (length rows) header
        (finances rows))

-- sellerFinanceListHandler.Handle
unfoldable pub finance_list_handler : Sources → Handler Listing
unfolding find_by_filter_with_page_and_sort
finance_list_handler s req = do
  header ← deref req.header
  sorts ← deref header.sorts
  (if header.uid == 0
      then ok (failure bad_request)
      else respond_finances s header (
          find_by_filter_with_page_and_sort (s.finances_of header.uid) sorts.name
            (sort_direction sorts.dir) (pos header.page) (pos header.per_page)))

abbrev pub respond_items :
    Sources → Header → Reply (Pageable FinanceOrderItem) → Outcome (Reply (Response Listing))
respond_items s header (failure code) = ok (failure code)
respond_items s header (value r) = do
  c ← convert_order_items s.format r.items
  ok (
      respond (s.marshals_items c) "SellerFinanceOrderItemCollection" (length r.items) header
        (items c))

-- sellerFinanceOrderItemListHandler.Handle
unfoldable pub order_item_list_handler : Sources → Handler Listing
unfolding find_order_items_by_filter_with_page
order_item_list_handler s req = do
  header ← deref req.header
  sorts ← deref header.sorts
  (if header.uid == 0 || str_eq header.fid ""
      then ok (failure bad_request)
      else respond_items s header (
          find_order_items_by_filter_with_page (s.items_of header.fid header.uid) sorts.name
            (sort_direction sorts.dir) (pos header.page) (pos header.per_page)))
