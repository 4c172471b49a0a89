-- ===== src/Server/Convert/Read.antt =====
-- Reading a message that convertFinanceToRPC made: what of the finance a client gets back.
pub mod Items
pub mod Payments
pub mod Views
pub mod Finance
use finance_service.Base.{◌≡◌, refl, sym, ap, subst, Option, none, some, map, String}
use finance_service.Base.Outcome.{ok, >>=-eq-ok, ok-injective}
use finance_service.Entities.{
  Money, ItemShare, ItemCommission, ItemSso, ItemVat, ItemInvoice, Attribute, SellerItem,
}
use finance_service.Server.Messages.{
  MoneyMessage, ShareMessage, CommissionMessage, SsoMessage, VatMessage, ItemInvoiceMessage,
  AttributeMessage, ItemMessage,
}
use finance_service.Server.Convert.Items.{
  convert_optional_money, convert_pointed_money, convert_share, convert_optional_commission,
  convert_optional_sso, convert_optional_vat,
}

abbrev pub decode_money : MoneyMessage → Money
decode_money m = record { amount = m.amount; currency = m.currency }

abbrev pub decode_optional {ℓ κ} : {A : Type ℓ} {B : Type κ} → (A → B) → Option A → Option B
decode_optional f none = none
decode_optional f (some a) = some (f a)

abbrev pub decode_share : ShareMessage → ItemShare
decode_share s = record {
  raw_item_net = some (decode_money s.raw_item_net);
  roundup_item_net = some (decode_money s.roundup_item_net);
  raw_total_net = some (decode_money s.raw_total_net);
  roundup_total_net = some (decode_money s.roundup_total_net);
  raw_unit_seller_share = some (decode_money s.raw_unit_seller_share);
  roundup_unit_seller_share = some (decode_money s.roundup_unit_seller_share);
  raw_total_seller_share = some (decode_money s.raw_total_seller_share);
  roundup_total_seller_share = some (decode_money s.roundup_total_seller_share);
}

abbrev pub decode_commission : CommissionMessage → ItemCommission
decode_commission c = record {
  item_commission = c.item_commission;
  raw_unit_price = decode_optional decode_money c.raw_unit_price;
  roundup_unit_price = decode_optional decode_money c.roundup_unit_price;
  raw_total_price = decode_optional decode_money c.raw_total_price;
  roundup_total_price = decode_optional decode_money c.roundup_total_price;
}

abbrev pub decode_sso : SsoMessage → ItemSso
decode_sso s = record {
  rate = s.rate;
  is_obliged = s.is_obliged;
  raw_unit_price = decode_optional decode_money s.raw_unit_price;
  roundup_unit_price = decode_optional decode_money s.roundup_unit_price;
  raw_total_price = decode_optional decode_money s.raw_total_price;
  roundup_total_price = decode_optional decode_money s.roundup_total_price;
}

abbrev pub decode_vat : VatMessage → ItemVat
decode_vat v = record {
  rate = v.rate;
  is_obliged = v.is_obliged;
  raw_unit_price = decode_optional decode_money v.raw_unit_price;
  roundup_unit_price = decode_optional decode_money v.roundup_unit_price;
  raw_total_price = decode_optional decode_money v.raw_total_price;
  roundup_total_price = decode_optional decode_money v.roundup_total_price;
}

abbrev pub decode_item_invoice : ItemInvoiceMessage → ItemInvoice
decode_item_invoice i = record {
  commission = decode_optional decode_commission i.commission;
  share = decode_optional decode_share i.share;
  sso = decode_optional decode_sso i.sso;
  vat = decode_optional decode_vat i.vat;
}

abbrev pub decode_attribute : String × AttributeMessage → String × Attribute
decode_attribute a =
    (a.0, record { key_translate = a.1.key_translate; value_translate = a.1.value_translate })

unfoldable pub decode_item : ItemMessage → SellerItem
decode_item i = record {
  sid = i.sid;
  sku = i.sku;
  inventory_id = i.inventory_id;
  title = i.title;
  brand = i.brand;
  guaranty = i.guaranty;
  category = i.category;
  image = i.image;
  returnable = i.returnable;
  quantity = i.quantity;
  attributes = map decode_attribute i.attributes;
  invoice = some (decode_item_invoice i.invoice);
}
