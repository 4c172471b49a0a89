-- ===== src/Converter/Rows/Collection.antt =====
-- The loop over the items, and the collection that it fills: the rest of
-- convertSellerOrderItemsToSellerFinanceOrderItemCollection of infrastructure/converter/converterImp.go.
use finance_service.Base.{
  ℕ, Bool, true, false, ◌||◌, ◌==◌, Option, none, some, List, [], ◌∷◌, ◌++◌, String,
}
use finance_service.Base.Outcome.{Outcome, ok, ◌>>=◌, deref}
use finance_service.Entities.{
  Time, Invoice, SellerProfile, GeneralSellerInfo, SellerFinanceData, SellerItem, FinanceState,
}
use finance_service.Server.Messages.{MoneyMessage, FinanceInfoMessage}
use finance_service.Server.Convert.Items.{convert_optional_money}
use finance_service.Converter.{PaymentStatus, unset, resolve_finance_state}
use finance_service.Converter.Rows.{
  SellerOrderItem, FinanceOrderItem, ItemRow, uncalculated_row, shipment_row, purchase_row,
}

-- `fi.OrderInfo.Order` and `fi.OrderInfo.Order.Item`
unfoldable pub order_and_item : FinanceOrderItem → Outcome (SellerOrderItem × SellerItem)
order_and_item f = do
  info ← deref f.order_info
  order ← deref info.order
  item ← deref order.item
  ok (order, item)

-- Whether the map has the key.
unfoldable pub has_key : ℕ → List ℕ → Bool
has_key k [] = false
has_key k (x ∷ xs) = (x == k) || has_key k xs

-- The parameter is `Format(utils.ISO8601)` of the package time.
module _ (format : Time → String) where
  -- The row for the shipment of an order, unless it is paid or the order has its row: the rows and
  -- `history`.
  unfoldable pub shipment_rows :
      Bool → List ℕ → SellerOrderItem → SellerItem → Outcome (List ItemRow × List ℕ)
  unfolding shipment_row
  shipment_rows true history o i = ok ([], history)
  shipment_rows false history o i = do row ← shipment_row format o i; ok (row ∷ [], o.oid ∷ history)

  unfoldable pub calculated_rows :
      List ℕ → SellerOrderItem → SellerItem → Outcome (List ItemRow × List ℕ)
  unfolding has_key shipment_rows purchase_row
  calculated_rows history o i = do
    shipped ← shipment_rows (o.is_already_shipping_payed || has_key o.oid history) history o i
    row ← purchase_row format o i
    ok (shipped.0 ++ row ∷ [], shipped.1)

  -- the body of the loop for an order and its item: the rows, and `history` afterwards
  unfoldable pub item_rows :
      FinanceState → List ℕ → SellerOrderItem → SellerItem → Outcome (List ItemRow × List ℕ)
  unfolding uncalculated_row calculated_rows
  item_rows FinanceState.order_collection history o i = do
    row ← uncalculated_row format o i
    ok (row ∷ [], history)
  item_rows _ history o i = calculated_rows history o i

  unfoldable pub all_rows : List ℕ → List FinanceOrderItem → Outcome (List ItemRow)
  unfolding order_and_item item_rows
  all_rows history [] = ok []
  all_rows history (f ∷ fs) = do
    found ← order_and_item f
    rows ← item_rows f.status history found.0 found.1
    rest ← all_rows rows.1 fs
    ok (rows.0 ++ rest)

-- SellerFinanceOrderItemCollectionSellerInfo
pub record SellerInfoRow : Type 0 where
  pub post_code : String
  pub type : String
  pub shop_display_name : String
  pub is_vat_obliged : Bool
  pub finance_data : Option FinanceInfoMessage

-- SellerFinanceOrderItemCollection_SellerFinanceInvoice
pub record InvoiceRow : Type 0 where
  pub commission : Option MoneyMessage
  pub share : Option MoneyMessage
  pub sso : Option MoneyMessage
  pub shipment : Option MoneyMessage
  pub vat : Option MoneyMessage

-- SellerFinanceOrderItemCollection
pub record ItemCollection : Type 0 where
  pub items : List ItemRow
  pub finance_invoice : InvoiceRow
  pub seller_inf : SellerInfoRow
  pub payment_status : PaymentStatus

abbrev pub empty_info : SellerInfoRow
empty_info = record {
  post_code = "";
  type = "";
  shop_display_name = "";
  is_vat_obliged = false;
  finance_data = none;
}

abbrev with_general : Option GeneralSellerInfo → SellerInfoRow → SellerInfoRow
with_general none r = r
with_general (some g) r = record r {
  post_code = g.postal_code;
  type = g.type;
  shop_display_name = g.shop_display_name;
  is_vat_obliged = g.is_vat_obliged;
}

abbrev with_finance_data : Option SellerFinanceData → SellerInfoRow → SellerInfoRow
with_finance_data none r = r
with_finance_data (some d) r = record r {
  finance_data = some (record {
    iban = d.iban;
    account_holder_first_name = d.account_holder_first_name;
    account_holder_family_name = d.account_holder_family_name;
  });
}

unfoldable pub seller_info_row : Option SellerProfile → SellerInfoRow
seller_info_row none = empty_info
seller_info_row (some s) = with_finance_data s.finance_data (with_general s.general_info empty_info)

abbrev pub no_invoice : InvoiceRow
no_invoice = record { commission = none; share = none; sso = none; shipment = none; vat = none }

unfoldable pub invoice_row : FinanceState → Option Invoice → InvoiceRow
invoice_row FinanceState.order_collection i = no_invoice
invoice_row _ none = no_invoice
invoice_row _ (some i) = record {
  commission = convert_optional_money i.commission_roundup_total;
  share = convert_optional_money i.share_roundup_total;
  sso = convert_optional_money i.sso_roundup_total;
  shipment = convert_optional_money i.shipment_roundup_total;
  vat = convert_optional_money i.vat_roundup_total;
}

-- what the first item says of its finance
abbrev pub head_status : List FinanceOrderItem → Outcome PaymentStatus
head_status [] = ok unset
head_status (f ∷ fs) = resolve_finance_state f.status f.payment

abbrev head_info : List FinanceOrderItem → SellerInfoRow
head_info [] = empty_info
head_info (f ∷ fs) = seller_info_row f.seller_info

abbrev head_invoice : List FinanceOrderItem → InvoiceRow
head_invoice [] = no_invoice
head_invoice (f ∷ fs) = invoice_row f.status f.invoice

unfoldable pub convert_order_items :
    (Time → String) → List FinanceOrderItem → Outcome ItemCollection
unfolding all_rows
convert_order_items format fs = do
  status ← head_status fs
  rows ← all_rows format [] fs
  ok (record {
    items = rows;
    finance_invoice = head_invoice fs;
    seller_inf = head_info fs;
    payment_status = status;
  })
