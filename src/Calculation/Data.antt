-- ===== src/Calculation/Data.antt =====
-- The calculation view of a finance, over a type D of decimals:
-- domain/model/calculation/sellerFinanceCalc.go. `ItemInvoiceCalc` is a pointer that is never nil.
use finance_service.Base.{ℕ, Bool, Option, none, String, List}
use finance_service.Base.Int.{ℤ}
use finance_service.Base.Float.{Float32}
use finance_service.Entities.{ObjectId}

pub record InvoiceCalc (D : Type 0) : Type 0 where
  pub sso_raw_total : Option D
  pub sso_roundup_total : Option D
  pub vat_raw_total : Option D
  pub vat_roundup_total : Option D
  pub commission_raw_total : Option D
  pub commission_roundup_total : Option D
  pub share_raw_total : Option D
  pub share_roundup_total : Option D
  pub shipment_raw_total : Option D
  pub shipment_roundup_total : Option D

-- `&InvoiceCalc{SSORawTotal: nil, …}`.
abbrev pub empty_invoice_calc : {D : Type 0} → InvoiceCalc D
empty_invoice_calc = record {
  sso_raw_total = none;
  sso_roundup_total = none;
  vat_raw_total = none;
  vat_roundup_total = none;
  commission_raw_total = none;
  commission_roundup_total = none;
  share_raw_total = none;
  share_roundup_total = none;
  shipment_raw_total = none;
  shipment_roundup_total = none;
}

pub record ItemShareCalc (D : Type 0) : Type 0 where
  pub raw_item_net : Option D
  pub roundup_item_net : Option D
  pub raw_total_net : Option D
  pub roundup_total_net : Option D
  pub raw_unit_seller_share : Option D
  pub roundup_unit_seller_share : Option D
  pub raw_total_seller_share : Option D
  pub roundup_total_seller_share : Option D

pub record ItemCommissionCalc (D : Type 0) : Type 0 where
  pub item_commission : Float32
  pub raw_unit_price : Option D
  pub roundup_unit_price : Option D
  pub raw_total_price : Option D
  pub roundup_total_price : Option D

pub record ItemSsoCalc (D : Type 0) : Type 0 where
  pub rate : Float32
  pub is_obliged : Bool
  pub raw_unit_price : Option D
  pub roundup_unit_price : Option D
  pub raw_total_price : Option D
  pub roundup_total_price : Option D

pub record ItemVatCalc (D : Type 0) : Type 0 where
  pub rate : Float32
  pub is_obliged : Bool
  pub raw_unit_price : Option D
  pub roundup_unit_price : Option D
  pub raw_total_price : Option D
  pub roundup_total_price : Option D

pub record ItemInvoiceCalc (D : Type 0) : Type 0 where
  pub commission : Option (ItemCommissionCalc D)
  pub share : Option (ItemShareCalc D)
  pub sso : Option (ItemSsoCalc D)
  pub vat : Option (ItemVatCalc D)

pub record SellerItemCalc (D : Type 0) : Type 0 where
  pub sid : ℕ
  pub inventory_id : String
  pub quantity : ℤ
  pub invoice : ItemInvoiceCalc D

pub record SellerOrderCalc (D : Type 0) : Type 0 where
  pub oid : ℕ
  pub seller_id : ℕ
  pub shipment_amount : Option D
  pub raw_shipping_net : Option D
  pub roundup_shipping_net : Option D
  pub is_already_shipping_payed : Bool
  pub items : List (SellerItemCalc D)

pub record OrderInfoCalc (D : Type 0) : Type 0 where
  pub trigger_name : String
  pub trigger_history : ObjectId
  pub orders : List (SellerOrderCalc D)

pub record SellerFinanceCalc (D : Type 0) : Type 0 where
  pub fid : String
  pub seller_id : ℕ
  pub invoice : Option (InvoiceCalc D)
  pub orders_info : List (OrderInfoCalc D)
