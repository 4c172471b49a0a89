-- ===== src/Server/Convert/Read/Views.antt =====
-- What the message of a finance tells, and the same of the finance.
use finance_service.Base.{ℕ, Bool, Option, some, List, [], ◌∷◌, map, String}
use finance_service.Entities.{
  Time, FinanceState, Money, Invoice, SellerItem, SellerOrder, OrderInfo, GeneralSellerInfo,
  SellerFinanceData, SellerProfile, SellerFinance,
}
use finance_service.Server.Messages.{
  GeneralInfoMessage, FinanceInfoMessage, ProfileMessage, InvoiceMessage, OrderMessage,
  FinanceMessage,
}
use finance_service.Server.Convert.Read.Payments.{
  PaymentView, decode_payment, payment_view, finance_state_of,
}
use finance_service.Server.Convert.Read.{decode_money, decode_optional, decode_item}

abbrev pub decode_general : GeneralInfoMessage → GeneralSellerInfo
decode_general g = record {
  shop_display_name = g.shop_display_name;
  type = g.type;
  email = g.email;
  land_phone = g.land_phone;
  mobile_phone = g.mobile_phone;
  website = g.website;
  province = g.province;
  city = g.city;
  neighborhood = g.neighborhood;
  postal_address = g.postal_address;
  postal_code = g.postal_code;
  is_vat_obliged = g.is_vat_obliged;
  vat_certification_image_url = g.vat_certification_image_url;
}

abbrev pub decode_finance_info : FinanceInfoMessage → SellerFinanceData
decode_finance_info d = record {
  iban = d.iban;
  account_holder_first_name = d.account_holder_first_name;
  account_holder_family_name = d.account_holder_family_name;
}

abbrev pub decode_profile : ProfileMessage → Option GeneralSellerInfo × Option SellerFinanceData
decode_profile p = (some (decode_general p.general_info), some (decode_finance_info p.finance_info))

abbrev pub profile_view : SellerProfile → Option GeneralSellerInfo × Option SellerFinanceData
profile_view s = (s.general_info, s.finance_data)

abbrev pub decode_invoice : InvoiceMessage → Invoice
decode_invoice i = record {
  sso_raw_total = decode_optional decode_money i.sso_raw_total;
  sso_roundup_total = decode_optional decode_money i.sso_roundup_total;
  vat_raw_total = decode_optional decode_money i.vat_raw_total;
  vat_roundup_total = decode_optional decode_money i.vat_roundup_total;
  commission_raw_total = decode_optional decode_money i.commission_raw_total;
  commission_roundup_total = decode_optional decode_money i.commission_roundup_total;
  share_raw_total = decode_optional decode_money i.share_raw_total;
  share_roundup_total = decode_optional decode_money i.share_roundup_total;
  shipment_raw_total = decode_optional decode_money i.shipment_raw_total;
  shipment_roundup_total = decode_optional decode_money i.shipment_roundup_total;
}

-- What an order's message tells of the order.
pub record OrderView : Type 0 where
  pub oid : ℕ
  pub shipment_amount : Option Money
  pub raw_shipping_net : Option Money
  pub roundup_shipping_net : Option Money
  pub is_already_shipping_payed : Bool
  pub items : List SellerItem
  pub order_created_at : Option String
  pub sub_pkg_created_at : Option String
  pub sub_pkg_updated_at : Option String

abbrev pub decode_order : OrderMessage → OrderView
decode_order o = record {
  oid = o.oid;
  shipment_amount = some (decode_money o.shipment_amount);
  raw_shipping_net = some (decode_money o.raw_shipping_net);
  roundup_shipping_net = some (decode_money o.roundup_shipping_net);
  is_already_shipping_payed = o.is_already_shipping_payed;
  items = map decode_item o.items;
  order_created_at = some o.order_created_at;
  sub_pkg_created_at = some o.sub_pkg_created_at;
  sub_pkg_updated_at = some o.sub_pkg_updated_at;
}

abbrev pub order_view : (Time → String) → SellerOrder → OrderView
order_view format o = record {
  oid = o.oid;
  shipment_amount = o.shipment_amount;
  raw_shipping_net = o.raw_shipping_net;
  roundup_shipping_net = o.roundup_shipping_net;
  is_already_shipping_payed = o.is_already_shipping_payed;
  items = o.items;
  order_created_at = decode_optional format o.order_created_at;
  sub_pkg_created_at = decode_optional format o.sub_pkg_created_at;
  sub_pkg_updated_at = decode_optional format o.sub_pkg_updated_at;
}

-- What a finance's message tells of the finance: of the orders, those of the first order info.
pub record FinanceView : Type 0 where
  pub fid : String
  pub seller_id : ℕ
  pub seller_info : Option (Option GeneralSellerInfo × Option SellerFinanceData)
  pub invoice : Option Invoice
  pub orders : List OrderView
  pub payment : Option PaymentView
  pub status : Option FinanceState
  pub start_at : Option String
  pub end_at : Option String
  pub created_at : String
  pub updated_at : String

unfoldable pub decode_finance : FinanceMessage → FinanceView
decode_finance m = record {
  fid = m.fid;
  seller_id = m.seller_id;
  seller_info =
      decode_optional
        (λ (p : ProfileMessage).
          (some (decode_general p.general_info), some (decode_finance_info p.finance_info)))
        m.seller_info;
  invoice = decode_optional decode_invoice m.invoice;
  orders = map decode_order m.orders;
  payment = decode_optional decode_payment m.payment;
  status = finance_state_of m.status;
  start_at = some m.start_at;
  end_at = some m.end_at;
  created_at = m.created_at;
  updated_at = m.updated_at;
}

abbrev pub first_orders : List OrderInfo → List SellerOrder
first_orders [] = []
first_orders (info ∷ infos) = info.orders

unfoldable pub finance_view : (Time → String) → SellerFinance → FinanceView
finance_view format f = record {
  fid = f.fid;
  seller_id = f.seller_id;
  seller_info =
      decode_optional (λ (s : SellerProfile). (s.general_info, s.finance_data)) f.seller_info;
  invoice = f.invoice;
  orders = map (order_view format) (first_orders f.orders_info);
  payment = decode_optional (payment_view format) f.payment;
  status = some f.status;
  start_at = decode_optional format f.start_at;
  end_at = decode_optional format f.end_at;
  created_at = format f.created_at;
  updated_at = format f.updated_at;
}
