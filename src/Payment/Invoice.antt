-- ===== src/Payment/Invoice.antt =====
-- financeInvoiceCalculation of domain/scheduler/payment/paymentProcessTask.go: the totals of a
-- finance's invoice from the amounts of its items and orders.
pub mod Sums
pub mod Due
pub mod Loops
pub mod Rounds
pub mod Result
pub mod Recorded
use finance_service.Base.{Option, none, some, not, if◌then◌else◌}
use finance_service.Base.Float.{is_positive}
use finance_service.Base.Outcome.{Outcome, ok, ◌>>=◌, deref, foldm}
use finance_service.Entities.{SellerFinance}
use finance_service.Decimals.{Decimals}
use finance_service.Calculation.{
  InvoiceCalc, empty_invoice_calc, ItemCommissionCalc, ItemSsoCalc, ItemVatCalc, ItemShareCalc,
  SellerItemCalc, SellerOrderCalc, OrderInfoCalc, SellerFinanceCalc, finance_calc_factory,
  convert_to_seller_finance,
}

-- the ten accumulators of the function
pub record Totals (D : Type 0) : Type 0 where
  pub sso_raw : D
  pub sso_roundup : D
  pub vat_raw : D
  pub vat_roundup : D
  pub commission_raw : D
  pub commission_roundup : D
  pub share_raw : D
  pub share_roundup : D
  pub shipment_raw : D
  pub shipment_roundup : D

module _ {D : Type 0} ⦃d : Decimals D⦄ where
  open d use {zero, add, is_zero}

  pub zero_totals : Totals D
  zero_totals = record {
    sso_raw = zero;
    sso_roundup = zero;
    vat_raw = zero;
    vat_roundup = zero;
    commission_raw = zero;
    commission_roundup = zero;
    share_raw = zero;
    share_roundup = zero;
    shipment_raw = zero;
    shipment_roundup = zero;
  }

  -- `if x != nil { total = total.Add(*x) }`
  abbrev pub add_some : D → Option D → D
  add_some total none = total
  add_some total (some x) = add total x

  add_share : Totals D → ItemShareCalc D → Outcome (Totals D)
  add_share t s = do
    raw ← deref s.raw_total_seller_share
    roundup ← deref s.roundup_total_seller_share
    ok (record t { share_raw = add t.share_raw raw; share_roundup = add t.share_roundup roundup })

  add_commission : Totals D → ItemCommissionCalc D → Totals D
  add_commission t c =
      if is_positive c.item_commission
      then record t {
        commission_raw = add_some t.commission_raw c.raw_total_price;
        commission_roundup = add_some t.commission_roundup c.roundup_total_price;
      }
      else t

  add_sso : Totals D → ItemSsoCalc D → Totals D
  add_sso t s =
      if s.is_obliged
      then record t {
        sso_raw = add_some t.sso_raw s.raw_total_price;
        sso_roundup = add_some t.sso_roundup s.roundup_total_price;
      }
      else t

  add_vat : Totals D → ItemVatCalc D → Totals D
  add_vat t v =
      if v.is_obliged
      then record t {
        vat_raw = add_some t.vat_raw v.raw_total_price;
        vat_roundup = add_some t.vat_roundup v.roundup_total_price;
      }
      else t

  -- the body of the loop over the items; the four parts of an item are dereferenced with no test
  pub add_item : Totals D → SellerItemCalc D → Outcome (Totals D)
  unfolding add_share add_commission add_sso add_vat
  add_item t i = do
    share ← deref i.invoice.share
    shared ← add_share t share
    commission ← deref i.invoice.commission
    sso ← deref i.invoice.sso
    vat ← deref i.invoice.vat
    ok (add_vat (add_sso (add_commission shared commission) sso) vat)

  pub add_shipping : Totals D → SellerOrderCalc D → Totals D
  add_shipping t o =
      if not o.is_already_shipping_payed
      then record t {
        shipment_raw = add_some t.shipment_raw o.raw_shipping_net;
        shipment_roundup = add_some t.shipment_roundup o.roundup_shipping_net;
      }
      else t

  pub add_order : Totals D → SellerOrderCalc D → Outcome (Totals D)
  unfolding add_item add_shipping foldm
  add_order t o = do t' ← foldm add_item t o.items; ok (add_shipping t' o)

  pub add_order_info : Totals D → OrderInfoCalc D → Outcome (Totals D)
  unfolding add_order foldm
  add_order_info t i = foldm add_order t i.orders

  -- the shipping fees belong to the seller's share
  pub add_shipment_to_share : Totals D → Totals D
  add_shipment_to_share t = record t {
    share_raw = add t.share_raw t.shipment_raw;
    share_roundup = add t.share_roundup t.shipment_roundup;
  }

  -- `if !total.IsZero() { invoice.Total = &total }`
  abbrev pub set_total : D → Option D → Option D
  set_total total old = if not (is_zero total) then some total else old

  unfoldable pub set_totals : Totals D → InvoiceCalc D → InvoiceCalc D
  set_totals t i = record {
    sso_raw_total = set_total t.sso_raw i.sso_raw_total;
    sso_roundup_total = set_total t.sso_roundup i.sso_roundup_total;
    vat_raw_total = set_total t.vat_raw i.vat_raw_total;
    vat_roundup_total = set_total t.vat_roundup i.vat_roundup_total;
    commission_raw_total = set_total t.commission_raw i.commission_raw_total;
    commission_roundup_total = set_total t.commission_roundup i.commission_roundup_total;
    share_raw_total = set_total t.share_raw i.share_raw_total;
    share_roundup_total = set_total t.share_roundup i.share_roundup_total;
    shipment_raw_total = set_total t.shipment_raw i.shipment_raw_total;
    shipment_roundup_total = set_total t.shipment_roundup i.shipment_roundup_total;
  }

  -- the loops over the orders, and the shipping fees added to the share
  unfoldable pub calculate_totals : SellerFinanceCalc D → Outcome (Totals D)
  unfolding zero_totals add_order_info add_shipment_to_share foldm
  calculate_totals c = do
    t ← foldm add_order_info zero_totals c.orders_info
    ok (add_shipment_to_share t)

  -- `if financeCalc.Invoice == nil { financeCalc.Invoice = &InvoiceCalc{} }`
  abbrev pub invoice_calc_of : SellerFinanceCalc D → InvoiceCalc D
  invoice_calc_of c = elim c.invoice [ none ↦ empty_invoice_calc | some i ↦ i ]

module _ (D : Type 0) ⦃d : Decimals D⦄ where
  unfoldable pub finance_invoice_calculation : SellerFinance → Outcome SellerFinance
  finance_invoice_calculation f = do
    c ← finance_calc_factory {D = D} f
    t ← calculate_totals c
    convert_to_seller_finance (record c { invoice = some (set_totals t (invoice_calc_of c)) }) f
