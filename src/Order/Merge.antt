-- ===== src/Order/Merge.antt =====
-- createUpdateFinance of domain/scheduler/order/orderTask.go: the orders of a seller go into the
-- seller's open finance, or into a new one.
pub mod Items
pub mod Open
use finance_service.Base.{
  ℕ, suc, Bool, true, false, ◌||◌, Option, none, some, String, List, [], ◌∷◌, ◌++◌, not, replicate,
  ◌==◌, if◌then◌else◌,
}
use finance_service.Base.Int.{ℤ, pos, ◌+ℤ◌, ◌-ℤ◌, ltb_ℤ, int64}
use finance_service.Base.Text.{itoa}
use finance_service.Base.Outcome.{
  ErrorCode, Outcome, ok, Reply, value, failure, ◌>>=◌, deref, foldm,
}
use finance_service.Entities.{
  Time, SellerProfile, SellerItem, SellerOrder, OrderInfo, FinanceState, PaymentMode, SellerFinance,
  TriggerHistory,
}
use finance_service.Order.Results.{FuncType, ErrorType, ProcessResult}
use text.Mathlib.Text.{◌==◌ as str_eq}

-- `itemFindFlag`: does a stored order hold an item of this sid?
abbrev pub has_item : ℕ → List SellerItem → Bool
has_item sid [] = false
has_item sid (i ∷ is) = sid == i.sid || has_item sid is

abbrev pub is_known : ℕ → List SellerOrder → Bool
is_known sid [] = false
is_known sid (o ∷ os) = has_item sid o.items || is_known sid os

-- `collectOrders`: the stored orders of this oid, in order
abbrev pub collect_in : ℕ → List SellerOrder → List SellerOrder
collect_in oid [] = []
collect_in oid (o ∷ os) = let rest = collect_in oid os in if o.oid == oid then o ∷ rest else rest

abbrev pub collect_orders : ℕ → List OrderInfo → List SellerOrder
collect_orders oid [] = []
collect_orders oid (i ∷ is) = collect_in oid i.orders ++ collect_orders oid is

-- The object that newOrder points to, and how often that pointer was appended to
-- newOrderInfo.Orders: a later write to the object shows at every place.
pub record OrderCell : Type 0 where
  pub order : SellerOrder
  pub appended : ℕ

-- One round of the loop over newOrder.Items: diffItems is made in the round, so it holds at most
-- the round's item.
unfoldable pub merge_item : String → List SellerOrder → OrderCell → SellerItem → OrderCell
merge_item fid collected c item = if is_known item.sid collected then c else record {
  order = record c.order { items = item ∷ []; fid = fid };
  appended = suc c.appended;
}

-- The loop ranges over the items that the order had before it.
unfoldable pub merge_items : String → List SellerOrder → OrderCell → List SellerItem → OrderCell
unfolding merge_item
merge_items fid collected c [] = c
merge_items fid collected c (i ∷ is) = merge_items fid collected (merge_item fid collected c i) is

-- What a new order adds to newOrderInfo.Orders.
abbrev pub by_collected : String → SellerOrder → List SellerOrder → List SellerOrder
by_collected fid o [] = record o { fid = fid } ∷ []
by_collected fid o (k ∷ ks) =
    let c = merge_items fid (k ∷ ks) (record { order = o; appended = 0 }) o.items in
    replicate c.appended c.order

unfoldable pub merge_order : String → List OrderInfo → SellerOrder → List SellerOrder
unfolding merge_items
merge_order fid infos o = by_collected fid o (collect_orders o.oid infos)

unfoldable pub merge_orders : String → List OrderInfo → List SellerOrder → List SellerOrder
unfolding merge_order
merge_orders fid infos [] = []
merge_orders fid infos (o ∷ os) = merge_order fid infos o ++ merge_orders fid infos os

-- What the function reads and calls. `found` is the reply of FindByFilter for the seller's finances
-- that collect orders, are not deleted and end at `timestamp` or later; `default_payment_mode` is
-- App.SellerFinanceDefaultPaymentMode after strings.ToUpper.
pub record OrderServices : Type 0 where
  pub timestamp : Time
  pub found : Reply (List SellerFinance)
  pub profile : String → Reply SellerProfile
  pub save : SellerFinance → Reply SellerFinance
  pub trigger_history : TriggerHistory
  pub finance_trigger_interval : ℤ
  pub finance_trigger_duration : ℤ
  pub default_payment_mode : String

-- One round of the search for foundSellerFinance; EndAt is dereferenced with no test.
abbrev pub keep_first : Option SellerFinance → SellerFinance → Bool → Option SellerFinance
keep_first none f true = some f
keep_first old f _ = old

unfoldable pub find_open :
    Time → Option SellerFinance → SellerFinance → Outcome (Option SellerFinance)
find_open now old f = do end ← deref f.end_at; ok (keep_first old f (not (ltb_ℤ end now)))

-- `OrdersInfo[0].Orders`
abbrev pub first_orders : List OrderInfo → Outcome (List SellerOrder)
first_orders [] = deref none
first_orders (i ∷ is) = ok i.orders

unfoldable pub new_order_info : OrderServices → List SellerOrder → OrderInfo
new_order_info s os = record {
  trigger_name = s.trigger_history.trigger_name;
  trigger_history_id = some s.trigger_history.id;
  orders = os;
}

-- the result, and the finances passed to Save
pub record Merged : Type 0 where
  pub outcome : ProcessResult
  pub saves : List SellerFinance

abbrev pub result_of : Option SellerFinance → ErrorType → Bool → ProcessResult
result_of f e r = record {
  function = FuncType.create_update_finance_fn;
  seller_finance = f;
  err_type = e;
  result = r;
}

-- The open finance is saved with the new order info.
abbrev pub after_update : SellerFinance → Reply SellerFinance → Merged
after_update f (failure e) = record {
  outcome = result_of (some f) ErrorType.database_error false;
  saves = f ∷ [];
}
after_update f (value g) = record {
  outcome = result_of (some f) ErrorType.no_error true;
  saves = f ∷ [];
}

abbrev pub add_orders : OrderServices → SellerFinance → List SellerOrder → Merged
add_orders s f [] = record { outcome = result_of none ErrorType.data_error false; saves = [] }
add_orders s f (o ∷ os) =
    let g = record f { orders_info = f.orders_info ++ (new_order_info s (o ∷ os) ∷ []) } in
    after_update g (s.save g)

unfoldable pub update_finance : OrderServices → SellerFinance → List SellerOrder → Merged
unfolding merge_orders new_order_info
update_finance s f os = add_orders s f (merge_orders f.fid f.orders_info os)

abbrev profile_or_none : Reply SellerProfile → Option SellerProfile
profile_or_none (value p) = some p
profile_or_none (failure e) = none

abbrev pub after_create : SellerFinance → Reply SellerFinance → Merged
after_create f (failure e) = record {
  outcome = result_of (some f) ErrorType.database_error false;
  saves = f ∷ [];
}
after_create f (value g) = record {
  outcome = result_of (some g) ErrorType.no_error true;
  saves = f ∷ [];
}

-- `newSellerFinance`; the zero values of the fields that the literal leaves out are written out
unfoldable pub new_seller_finance : OrderServices → Time → ℕ → List SellerOrder → SellerFinance
unfolding new_order_info
new_seller_finance s triggered_at seller_id os =
    let start = triggered_at -ℤ s.finance_trigger_interval in
    record {
      id = 0;
      fid = "";
      seller_id = seller_id;
      version = 0;
      doc_version = "";
      seller_info = profile_or_none (s.profile (itoa (int64 (pos seller_id))));
      invoice = none;
      orders_info = new_order_info s os ∷ [];
      payment = none;
      payment_mode =
          if str_eq s.default_payment_mode "AUTOMATIC"
          then PaymentMode.automatic
          else PaymentMode.manual;
      payment_history = [];
      status = FinanceState.order_collection;
      start_at = some start;
      end_at = some (start +ℤ s.finance_trigger_duration);
      created_at = s.timestamp;
      updated_at = s.timestamp;
      deleted_at = none;
    }

unfoldable pub create_finance : OrderServices → ℕ → List SellerOrder → Outcome Merged
unfolding new_seller_finance
create_finance s seller_id os = do
  at ← deref s.trigger_history.triggered_at
  let f = new_seller_finance s at seller_id os
  ok (after_create f (s.save f))

abbrev pub update_or_create :
    OrderServices → ℕ → List SellerOrder → Option SellerFinance → Outcome Merged
update_or_create s seller_id os (some f) = ok (update_finance s f os)
update_or_create s seller_id os none = create_finance s seller_id os

-- createUpdateFinance for the finance that reduceOrders made
abbrev pub by_found : OrderServices → SellerFinance → Reply (List SellerFinance) → Outcome Merged
by_found s f (failure ErrorCode.not_found) = do
  os ← first_orders f.orders_info
  create_finance s f.seller_id os
by_found s f (failure e) =
    ok (record { outcome = result_of (some f) ErrorType.database_error false; saves = [] })
by_found s f (value fs) = do
  open_finance ← foldm (find_open s.timestamp) none fs
  os ← first_orders f.orders_info
  update_or_create s f.seller_id os open_finance

unfoldable pub create_update_finance : OrderServices → SellerFinance → Outcome Merged
create_update_finance s f = by_found s f s.found
