-- ===== src/Order/Reduce.antt =====
-- reduceOrders of domain/scheduler/order/orderTask.go: the orders of one seller are checked and
-- collected. `CountWithFilter` of the two repositories is a parameter.
pub mod Checked
use finance_service.Base.{
  ℕ, Bool, true, false, ◌||◌, Option, none, some, List, [], ◌∷◌, ◌++◌, ◌⊎◌, inl, inr, ◌==◌,
  if◌then◌else◌,
}
use finance_service.Base.Int.{ℤ, pos, ltb_ℤ}
use finance_service.Base.Outcome.{Reply, value, failure}
use finance_service.Entities.{SellerItem, SellerOrder}
use finance_service.Order.Results.{FuncType, ErrorType, ProcessResult}

-- What the function reads. `count_orders seller oid` counts the seller's finances that hold an order
-- of this oid, `count_items seller oid sid` the stored items of this sid in the seller's orders of
-- this oid; `prevent_duplicates` is App.SellerFinancePreventDuplicateOrderItem.
pub record OrderCounts : Type 0 where
  pub count_orders : ℕ → ℕ → Reply ℤ
  pub count_items : ℕ → ℕ → ℕ → Reply ℤ
  pub prevent_duplicates : Bool

-- What the loop has set of the new finance: SellerId, and Orders of its one order info.
pub record Collected : Type 0 where
  pub seller_id : ℕ
  pub orders : List SellerOrder

-- A round goes on, or the function returns an error.
pub data Step : Type 0 where
  next : Collected → Step
  stop : ErrorType → Step

-- The loop over the items of an order: `none` if a count failed, else validItems.
abbrev pub keep_item : SellerItem → Reply ℤ → Option (List SellerItem) → Option (List SellerItem)
keep_item i (failure e) rest = none
keep_item i (value n) none = none
keep_item i (value n) (some is) = if ltb_ℤ (pos 0) n then some is else some (i ∷ is)

unfoldable pub valid_items : OrderCounts → ℕ → ℕ → List SellerItem → Option (List SellerItem)
valid_items k seller oid [] = some []
valid_items k seller oid (i ∷ is) =
    keep_item i (k.count_items seller oid i.sid) (valid_items k seller oid is)

abbrev pub keep_order : Collected → SellerOrder → Collected
keep_order c o = record c { orders = c.orders ++ (o ∷ []) }

-- An order with no valid item is passed over.
abbrev pub keep_valid : Collected → SellerOrder → Option (List SellerItem) → Step
keep_valid c o none = stop ErrorType.database_error
keep_valid c o (some []) = next c
keep_valid c o (some (i ∷ is)) = next (keep_order c (record o { items = i ∷ is }))

unfoldable pub check_items : OrderCounts → Collected → SellerOrder → Step
unfolding valid_items
check_items k c o =
    if k.prevent_duplicates
    then keep_valid c o (valid_items k o.seller_id o.oid o.items)
    else next (keep_order c o)

abbrev pub after_count : OrderCounts → Collected → SellerOrder → Reply ℤ → Step
after_count k c o (failure e) = stop ErrorType.database_error
after_count k c o (value n) =
    check_items k c (record o { is_already_shipping_payed = ltb_ℤ (pos 0) n })

-- One round; SellerId 0 stands for none so far.
unfoldable pub collect_order : OrderCounts → Collected → SellerOrder → Step
unfolding check_items
collect_order k c o =
    let seller = if c.seller_id == 0 then o.seller_id else c.seller_id in
    if c.seller_id == 0 || c.seller_id == o.seller_id
    then after_count k (record c { seller_id = seller }) o (k.count_orders seller o.oid)
    else stop ErrorType.data_error

-- The loop. With each order stands whether ctx.Done() was ready in its round.
unfoldable pub collect_all : OrderCounts → Collected → List (Bool × SellerOrder) → Step
unfolding collect_order
collect_all k c [] = next c
collect_all k c ((true, o) ∷ os) = stop ErrorType.ctx_error
collect_all k c ((false, o) ∷ os) = elim (collect_order k c o) [
  | next c' ↦ collect_all k c' os
  | stop e ↦ stop e
]

abbrev pub dropped : ErrorType → ProcessResult
dropped e = record {
  function = FuncType.reduce_order_fn;
  seller_finance = none;
  err_type = e;
  result = false;
}

-- the new finance's two fields, or the result that ends the pipeline
abbrev pub finish_reduce : Step → Collected ⊎ ProcessResult
finish_reduce (stop e) = inr (dropped e)
finish_reduce (next c) = elim c.orders [ [] ↦ inr (dropped ErrorType.data_error) | _ ∷ _ ↦ inl c ]

unfoldable pub reduce_orders : OrderCounts → List (Bool × SellerOrder) → Collected ⊎ ProcessResult
unfolding collect_all
reduce_orders k os = finish_reduce (collect_all k (record { seller_id = 0; orders = [] }) os)
