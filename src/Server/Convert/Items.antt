-- ===== src/Server/Convert/Items.antt =====
-- convertFinanceToRPC of server/grpc/grpc.go: an item of an order.
use finance_service.Base.{Option, none, some, map, String}
use finance_service.Base.Outcome.{Outcome, ok, ◌>>=◌, deref, optional}
use finance_service.Entities.{
  Money, ItemShare, ItemCommission, ItemSso, ItemVat, ItemInvoice, Attribute, SellerItem,
}
use finance_service.Server.Messages.{
  MoneyMessage, ShareMessage, CommissionMessage, SsoMessage, VatMessage, ItemInvoiceMessage,
  AttributeMessage, ItemMessage,
}

abbrev pub convert_money : Money → MoneyMessage
convert_money m = record { amount = m.amount; currency = m.currency }

-- `if m != nil { … = &finance_proto.Money{…} }`
abbrev pub convert_optional_money : Option Money → Option MoneyMessage
convert_optional_money none = none
convert_optional_money (some m) = some (convert_money m)

-- `&finance_proto.Money{…}` of a pointer that is not asked whether it is nil
abbrev pub convert_pointed_money : Option Money → Outcome MoneyMessage
convert_pointed_money p = do m ← deref p; ok (convert_money m)

unfoldable pub convert_share : ItemShare → Outcome ShareMessage
convert_share s = do
  raw_item_net ← convert_pointed_money s.raw_item_net
  roundup_item_net ← convert_pointed_money s.roundup_item_net
  raw_total_net ← convert_pointed_money s.raw_total_net
  roundup_total_net ← convert_pointed_money s.roundup_total_net
  raw_unit_seller_share ← convert_pointed_money s.raw_unit_seller_share
  roundup_unit_seller_share ← convert_pointed_money s.roundup_unit_seller_share
  raw_total_seller_share ← convert_pointed_money s.raw_total_seller_share
  roundup_total_seller_share ← convert_pointed_money s.roundup_total_seller_share
  ok (record {
    raw_item_net = raw_item_net;
    roundup_item_net = roundup_item_net;
    raw_total_net = raw_total_net;
    roundup_total_net = roundup_total_net;
    raw_unit_seller_share = raw_unit_seller_share;
    roundup_unit_seller_share = roundup_unit_seller_share;
    raw_total_seller_share = raw_total_seller_share;
    roundup_total_seller_share = roundup_total_seller_share;
  })

abbrev pub convert_commission : ItemCommission → CommissionMessage
convert_commission c = record {
  item_commission = c.item_commission;
  raw_unit_price = convert_optional_money c.raw_unit_price;
  roundup_unit_price = convert_optional_money c.roundup_unit_price;
  raw_total_price = convert_optional_money c.raw_total_price;
  roundup_total_price = convert_optional_money c.roundup_total_price;
}

abbrev pub convert_sso : ItemSso → SsoMessage
convert_sso s = record {
  rate = s.rate;
  is_obliged = s.is_obliged;
  raw_unit_price = convert_optional_money s.raw_unit_price;
  roundup_unit_price = convert_optional_money s.roundup_unit_price;
  raw_total_price = convert_optional_money s.raw_total_price;
  roundup_total_price = convert_optional_money s.roundup_total_price;
}

abbrev pub convert_vat : ItemVat → VatMessage
convert_vat v = record {
  rate = v.rate;
  is_obliged = v.is_obliged;
  raw_unit_price = convert_optional_money v.raw_unit_price;
  roundup_unit_price = convert_optional_money v.roundup_unit_price;
  raw_total_price = convert_optional_money v.raw_total_price;
  roundup_total_price = convert_optional_money v.roundup_total_price;
}

abbrev pub convert_optional_commission : Option ItemCommission → Option CommissionMessage
convert_optional_commission none = none
convert_optional_commission (some c) = some (convert_commission c)

abbrev pub convert_optional_sso : Option ItemSso → Option SsoMessage
convert_optional_sso none = none
convert_optional_sso (some s) = some (convert_sso s)

abbrev pub convert_optional_vat : Option ItemVat → Option VatMessage
convert_optional_vat none = none
convert_optional_vat (some v) = some (convert_vat v)

unfoldable pub convert_item_invoice : ItemInvoice → Outcome ItemInvoiceMessage
unfolding convert_share
convert_item_invoice i = do
  share ← optional convert_share i.share
  ok (record {
    commission = convert_optional_commission i.commission;
    share = share;
    sso = convert_optional_sso i.sso;
    vat = convert_optional_vat i.vat;
  })

abbrev pub convert_attribute : String × Attribute → String × AttributeMessage
convert_attribute a =
    (a.0, record { key_translate = a.1.key_translate; value_translate = a.1.value_translate })

unfoldable pub convert_item : SellerItem → Outcome ItemMessage
unfolding convert_item_invoice
convert_item i = do
  item_invoice ← deref i.invoice
  invoice ← convert_item_invoice item_invoice
  ok (record {
    sid = i.sid;
    sku = i.sku;
    inventory_id = i.inventory_id;
    title = i.title;
    brand = i.brand;
    guaranty = i.guaranty;
    category = i.category;
    image = i.image;
    returnable = i.returnable;
    quantity = i.quantity;
    attributes = map convert_attribute i.attributes;
    invoice = invoice;
  })
