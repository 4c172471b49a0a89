-- ===== src/Entities/Order.antt =====
-- The orders of a finance, and their invoices: domain/model/entities/sellerFinance.go.
-- A pointer that may be nil is an `Option`; the elements of a slice of pointers are values.
use finance_service.Base.{ℕ, Bool, Option, String, List}
use finance_service.Base.Int.{ℤ}
use finance_service.Base.Float.{Float32}
use finance_service.Entities.Profile.{Time}

-- primitive.ObjectID: twelve bytes, as a number.
abbrev pub ObjectId : Type 0
ObjectId = ℕ

pub record Money : Type 0 where
  pub amount : String
  pub currency : String

pub record Invoice : Type 0 where
  pub sso_raw_total : Option Money
  pub sso_roundup_total : Option Money
  pub vat_raw_total : Option Money
  pub vat_roundup_total : Option Money
  pub commission_raw_total : Option Money
  pub commission_roundup_total : Option Money
  pub share_raw_total : Option Money
  pub share_roundup_total : Option Money
  pub shipment_raw_total : Option Money
  pub shipment_roundup_total : Option Money

pub record ItemShare : Type 0 where
  pub raw_item_net : Option Money
  pub roundup_item_net : Option Money
  pub raw_total_net : Option Money
  pub roundup_total_net : Option Money
  pub raw_unit_seller_share : Option Money
  pub roundup_unit_seller_share : Option Money
  pub raw_total_seller_share : Option Money
  pub roundup_total_seller_share : Option Money

pub record ItemCommission : Type 0 where
  pub item_commission : Float32
  pub raw_unit_price : Option Money
  pub roundup_unit_price : Option Money
  pub raw_total_price : Option Money
  pub roundup_total_price : Option Money

pub record ItemSso : Type 0 where
  pub rate : Float32
  pub is_obliged : Bool
  pub raw_unit_price : Option Money
  pub roundup_unit_price : Option Money
  pub raw_total_price : Option Money
  pub roundup_total_price : Option Money

pub record ItemVat : Type 0 where
  pub rate : Float32
  pub is_obliged : Bool
  pub raw_unit_price : Option Money
  pub roundup_unit_price : Option Money
  pub raw_total_price : Option Money
  pub roundup_total_price : Option Money

pub record ItemInvoice : Type 0 where
  pub commission : Option ItemCommission
  pub share : Option ItemShare
  pub sso : Option ItemSso
  pub vat : Option ItemVat

pub record Attribute : Type 0 where
  pub key_translate : List (String × String)
  pub value_translate : List (String × String)

pub record SellerItem : Type 0 where
  pub sid : ℕ
  pub sku : String
  pub inventory_id : String
  pub title : String
  pub brand : String
  pub guaranty : String
  pub category : String
  pub image : String
  pub returnable : Bool
  pub quantity : ℤ
  pub attributes : List (String × Attribute)
  pub invoice : Option ItemInvoice

pub record SellerOrder : Type 0 where
  pub id : ObjectId
  pub oid : ℕ
  pub fid : String
  pub seller_id : ℕ
  pub shipment_amount : Option Money
  pub raw_shipping_net : Option Money
  pub roundup_shipping_net : Option Money
  pub is_already_shipping_payed : Bool
  pub items : List SellerItem
  pub order_created_at : Option Time
  pub sub_pkg_created_at : Option Time
  pub sub_pkg_updated_at : Option Time
  pub deleted_at : Option Time

pub record OrderInfo : Type 0 where
  pub trigger_name : String
  pub trigger_history_id : Option ObjectId
  pub orders : List SellerOrder
