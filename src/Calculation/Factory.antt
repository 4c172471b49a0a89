-- ===== src/Calculation/Factory.antt =====
-- FinanceCalcFactory of domain/model/calculation/sellerFinanceCalc.go: every amount of a finance is
-- parsed, block by block in the order of the source; the first amount that is refused ends it.
use finance_service.Base.{Option, none, some}
use finance_service.Base.Outcome.{
  Outcome, ok, err, invalid_decimal, ◌>>=◌, deref, traverse, optional,
}
use finance_service.Entities.{
  Money, Invoice, ItemShare, ItemCommission, ItemSso, ItemVat, SellerItem, SellerOrder, OrderInfo,
  SellerFinance,
}
use finance_service.Decimals.{Decimals}
use finance_service.Calculation.Data.{
  InvoiceCalc, ItemShareCalc, ItemCommissionCalc, ItemSsoCalc, ItemVatCalc, SellerItemCalc,
  SellerOrderCalc, OrderInfoCalc, SellerFinanceCalc,
}

module _ {D : Type 0} ⦃d : Decimals D⦄ where
  -- `decimal.NewFromString(m.Amount)`
  unfoldable pub read_money : Money → Outcome D
  read_money m = elim (d.parse m.amount) [ none ↦ err (invalid_decimal m.amount) | some x ↦ ok x ]

  -- `if p != nil { x, err := decimal.NewFromString(p.Amount); … }`
  unfoldable pub read : Option Money → Outcome (Option D)
  unfolding read_money
  read = optional read_money

  -- the commission of an item
  unfoldable pub read_commission : ItemCommission → Outcome (ItemCommissionCalc D)
  unfolding read
  read_commission c = do
    raw_unit ← read c.raw_unit_price
    raw_total ← read c.raw_total_price
    roundup_unit ← read c.roundup_unit_price
    roundup_total ← read c.roundup_total_price
    ok (record {
      item_commission = c.item_commission;
      raw_unit_price = raw_unit;
      roundup_unit_price = roundup_unit;
      raw_total_price = raw_total;
      roundup_total_price = roundup_total;
    })

  -- the seller's share of an item
  unfoldable pub read_share : ItemShare → Outcome (ItemShareCalc D)
  unfolding read
  read_share s = do
    raw_item ← read s.raw_item_net
    raw_total ← read s.raw_total_net
    roundup_item ← read s.roundup_item_net
    roundup_total ← read s.roundup_total_net
    raw_unit_share ← read s.raw_unit_seller_share
    roundup_unit_share ← read s.roundup_unit_seller_share
    raw_total_share ← read s.raw_total_seller_share
    roundup_total_share ← read s.roundup_total_seller_share
    ok (record {
      raw_item_net = raw_item;
      roundup_item_net = roundup_item;
      raw_total_net = raw_total;
      roundup_total_net = roundup_total;
      raw_unit_seller_share = raw_unit_share;
      roundup_unit_seller_share = roundup_unit_share;
      raw_total_seller_share = raw_total_share;
      roundup_total_seller_share = roundup_total_share;
    })

  -- the social security of an item
  unfoldable pub read_sso : ItemSso → Outcome (ItemSsoCalc D)
  unfolding read
  read_sso s = do
    raw_unit ← read s.raw_unit_price
    raw_total ← read s.raw_total_price
    roundup_unit ← read s.roundup_unit_price
    roundup_total ← read s.roundup_total_price
    ok (record {
      rate = s.rate;
      is_obliged = s.is_obliged;
      raw_unit_price = raw_unit;
      roundup_unit_price = roundup_unit;
      raw_total_price = raw_total;
      roundup_total_price = roundup_total;
    })

  -- the value added tax of an item
  unfoldable pub read_vat : ItemVat → Outcome (ItemVatCalc D)
  unfolding read
  read_vat v = do
    raw_unit ← read v.raw_unit_price
    raw_total ← read v.raw_total_price
    roundup_unit ← read v.roundup_unit_price
    roundup_total ← read v.roundup_total_price
    ok (record {
      rate = v.rate;
      is_obliged = v.is_obliged;
      raw_unit_price = raw_unit;
      roundup_unit_price = roundup_unit;
      raw_total_price = raw_total;
      roundup_total_price = roundup_total;
    })

  -- an item; its `Invoice` is dereferenced with no test
  unfoldable pub read_item : SellerItem → Outcome (SellerItemCalc D)
  unfolding read_commission read_share read_sso read_vat
  read_item i = do
    invoice ← deref i.invoice
    commission ← optional read_commission invoice.commission
    share ← optional read_share invoice.share
    sso ← optional read_sso invoice.sso
    vat ← optional read_vat invoice.vat
    ok (record {
      sid = i.sid;
      inventory_id = i.inventory_id;
      quantity = i.quantity;
      invoice = record { commission = commission; share = share; sso = sso; vat = vat };
    })

  unfoldable pub read_order : SellerOrder → Outcome (SellerOrderCalc D)
  unfolding read read_item traverse
  read_order o = do
    shipment ← read o.shipment_amount
    raw_shipping ← read o.raw_shipping_net
    roundup_shipping ← read o.roundup_shipping_net
    items ← traverse read_item o.items
    ok (record {
      oid = o.oid;
      seller_id = o.seller_id;
      shipment_amount = shipment;
      raw_shipping_net = raw_shipping;
      roundup_shipping_net = roundup_shipping;
      is_already_shipping_payed = o.is_already_shipping_payed;
      items = items;
    })

  -- an order info; `*orderInfo.TriggerHistoryId` has no nil test
  unfoldable pub read_order_info : OrderInfo → Outcome (OrderInfoCalc D)
  unfolding read_order traverse
  read_order_info i = do
    history ← deref i.trigger_history_id
    orders ← traverse read_order i.orders
    ok (record { trigger_name = i.trigger_name; trigger_history = history; orders = orders })

  -- the totals of an invoice
  read_totals : Invoice → Outcome (InvoiceCalc D)
  unfolding read
  read_totals i = do
    sso_raw ← read i.sso_raw_total
    sso_roundup ← read i.sso_roundup_total
    vat_raw ← read i.vat_raw_total
    vat_roundup ← read i.vat_roundup_total
    commission_raw ← read i.commission_raw_total
    commission_roundup ← read i.commission_roundup_total
    share_raw ← read i.share_raw_total
    share_roundup ← read i.share_roundup_total
    shipment_raw ← read i.shipment_raw_total
    shipment_roundup ← read i.shipment_roundup_total
    ok (record {
      sso_raw_total = sso_raw;
      sso_roundup_total = sso_roundup;
      vat_raw_total = vat_raw;
      vat_roundup_total = vat_roundup;
      commission_raw_total = commission_raw;
      commission_roundup_total = commission_roundup;
      share_raw_total = share_raw;
      share_roundup_total = share_roundup;
      shipment_raw_total = shipment_raw;
      shipment_roundup_total = shipment_roundup;
    })

  -- `if financeCalc.Invoice != nil { … }`: the test is on the new value's own field
  read_invoice : Option (InvoiceCalc D) → SellerFinance → Outcome (Option (InvoiceCalc D))
  unfolding read_totals
  read_invoice none f = ok none
  read_invoice (some _) f = do
    invoice ← deref f.invoice
    totals ← read_totals invoice
    ok (some totals)

  -- FinanceCalcFactory, which sets `Invoice: nil` before the test above
  unfoldable pub finance_calc_factory : SellerFinance → Outcome (SellerFinanceCalc D)
  unfolding read_invoice read_order_info traverse
  finance_calc_factory f = do
    invoice ← read_invoice none f
    infos ← traverse read_order_info f.orders_info
    ok (record { fid = f.fid; seller_id = f.seller_id; invoice = invoice; orders_info = infos })
