-- ===== src/Converter/Rows.antt =====
-- convertSellerOrderItemsToSellerFinanceOrderItemCollection of infrastructure/converter/converterImp.go:
-- the rows that show the items of a finance, an item being the finance unwound to it
-- (entities.SellerFinanceOrderItem).
pub mod Collection
pub mod Shipments
pub mod Owed
use finance_service.Base.{ℕ, Bool, false, Option, none, some, List, [], String, if◌then◌else◌}
use finance_service.Base.Int.{ℤ}
use finance_service.Base.Float.{Float32, is_nonzero}
use finance_service.Base.Outcome.{Outcome, ok, ◌>>=◌, deref}
use finance_service.Entities.{
  Time, Money, Invoice, SellerProfile, SellerItem, Attribute, FinanceState, FinancePayment,
}
use finance_service.Server.Messages.{MoneyMessage}
use finance_service.Server.Convert.Items.{convert_money, convert_pointed_money}

pub record SellerOrderItem : Type 0 where
  pub oid : ℕ
  pub roundup_shipping_net : Option Money
  pub is_already_shipping_payed : Bool
  pub item : Option SellerItem
  pub order_created_at : Option Time

pub record SellerOrderItemInfo : Type 0 where
  pub order : Option SellerOrderItem

pub record FinanceOrderItem : Type 0 where
  pub fid : String
  pub seller_id : ℕ
  pub seller_info : Option SellerProfile
  pub invoice : Option Invoice
  pub order_info : Option SellerOrderItemInfo
  pub payment : Option FinancePayment
  pub status : FinanceState

pub data PaymentType : Type 0 where
  shipment purchase : PaymentType

pub record RatedMoney : Type 0 where
  pub rate : Float32
  pub is_obliged : Bool
  pub roundup_unit : Option MoneyMessage
  pub roundup_total : Option MoneyMessage

pub record SellerShare : Type 0 where
  pub roundup_unit : Option MoneyMessage
  pub roundup_total : Option MoneyMessage

pub record SellerCommission : Type 0 where
  pub rate : Float32
  pub roundup_unit : Option MoneyMessage
  pub roundup_total : Option MoneyMessage

-- SellerFinanceOrderItemList of the protocol
pub record ItemRow : Type 0 where
  pub payment_type : PaymentType
  pub order_id : ℕ
  pub title : String
  pub brand : String
  pub category : String
  pub guaranty : String
  pub attribute : List (String × Attribute)
  pub order_create_at : String
  pub quantity : ℤ
  pub sku : String
  pub share : Option SellerShare
  pub sso : Option RatedMoney
  pub vat : Option RatedMoney
  pub commission : Option SellerCommission
  pub shipping_fee : Option MoneyMessage

abbrev zero_rated : RatedMoney
zero_rated = record { rate = 0; is_obliged = false; roundup_unit = none; roundup_total = none }

abbrev share_row : Option Money → Option Money → SellerShare
share_row (some total) (some unit) = record {
  roundup_unit = some (convert_money unit);
  roundup_total = some (convert_money total);
}
share_row _ _ = record { roundup_unit = none; roundup_total = none }

-- a rate, whether it is obliged, the total and the price of a unit
abbrev rated_money : Float32 → Bool → Option Money → Option Money → RatedMoney
unfolding is_nonzero
rated_money rate is_obliged (some total) (some unit) =
    if is_nonzero rate
    then record {
      rate = rate;
      is_obliged = is_obliged;
      roundup_unit = some (convert_money unit);
      roundup_total = some (convert_money total);
    }
    else zero_rated
rated_money rate is_obliged _ _ = zero_rated

abbrev commission_row : Float32 → Option Money → Option Money → SellerCommission
unfolding is_nonzero
commission_row rate (some total) (some unit) =
    if is_nonzero rate
    then record {
      rate = rate;
      roundup_unit = some (convert_money unit);
      roundup_total = some (convert_money total);
    }
    else record { rate = 0; roundup_unit = none; roundup_total = none }
commission_row rate _ _ = record { rate = 0; roundup_unit = none; roundup_total = none }

-- The parameter is `Format(utils.ISO8601)` of the package time.
module _ (format : Time → String) where
  -- the row of an item whose finance still collects orders
  unfoldable pub uncalculated_row : SellerOrderItem → SellerItem → Outcome ItemRow
  uncalculated_row o i = do
    created ← deref o.order_created_at
    ok (record {
      payment_type = PaymentType.purchase;
      order_id = o.oid;
      title = i.title;
      brand = i.brand;
      category = i.category;
      guaranty = i.guaranty;
      attribute = i.attributes;
      order_create_at = format created;
      quantity = i.quantity;
      sku = i.sku;
      share = none;
      sso = none;
      vat = none;
      commission = none;
      shipping_fee = none;
    })

  unfoldable pub shipment_row : SellerOrderItem → SellerItem → Outcome ItemRow
  shipment_row o i = do
    created ← deref o.order_created_at
    fee ← convert_pointed_money o.roundup_shipping_net
    ok (record {
      payment_type = PaymentType.shipment;
      order_id = o.oid;
      title = "";
      brand = "";
      category = "";
      guaranty = "";
      attribute = [];
      order_create_at = format created;
      quantity = i.quantity;
      sku = i.sku;
      share = none;
      sso = some zero_rated;
      vat = none;
      commission = none;
      shipping_fee = some fee;
    })

  unfoldable pub purchase_row : SellerOrderItem → SellerItem → Outcome ItemRow
  unfolding rated_money commission_row
  purchase_row o i = do
    invoice ← deref i.invoice
    share ← deref invoice.share
    sso ← deref invoice.sso
    vat ← deref invoice.vat
    commission ← deref invoice.commission
    created ← deref o.order_created_at
    ok (record {
      payment_type = PaymentType.purchase;
      order_id = o.oid;
      title = i.title;
      brand = i.brand;
      category = i.category;
      guaranty = i.guaranty;
      attribute = i.attributes;
      order_create_at = format created;
      quantity = i.quantity;
      sku = i.sku;
      share = some (share_row share.roundup_total_seller_share share.roundup_unit_seller_share);
      sso =
          some (rated_money sso.rate sso.is_obliged sso.roundup_total_price sso.roundup_unit_price);
      vat =
          some (rated_money vat.rate vat.is_obliged vat.roundup_total_price vat.roundup_unit_price);
      commission = some (
          commission_row commission.item_commission commission.roundup_total_price
            commission.roundup_unit_price);
      shipping_fee = none;
    })
