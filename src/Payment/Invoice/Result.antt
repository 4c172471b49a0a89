-- ===== src/Payment/Invoice/Result.antt =====
-- The totals of financeInvoiceCalculation are the sums over all items and orders.
use finance_service.Base.{◌≡◌, ◌∙◌, List}
use finance_service.Base.Outcome.{ok, foldm, >>=-eq-ok}
use finance_service.Decimals.{Decimals, IsExact}
use finance_service.Calculation.{OrderInfoCalc, SellerFinanceCalc}
use finance_service.Payment.Invoice.{
  Totals, zero_totals, add_order_info, add_shipment_to_share, calculate_totals,
}
use finance_service.Payment.Invoice.Sums.{
  orders_of, items_of, sum, share_of, commission_of, sso_of, vat_of, shipment_of, expected_totals,
}
use finance_service.Payment.Invoice.Loops.{item_total, order_total}
use finance_service.Payment.Invoice.Rounds.{
  sso_raw_grows, sso_roundup_grows, vat_raw_grows, vat_roundup_grows, commission_raw_grows,
  commission_roundup_grows, share_raw_grows, share_roundup_grows, shipment_raw_kept,
  shipment_roundup_kept, add_shipping_keeps, shipment_raw_grows, shipment_roundup_grows,
}

-- Each total at the end of the loops.
module _ {D : Type 0} ⦃d : Decimals D⦄ (exact : IsExact D) (infos : List (OrderInfoCalc D))
    (t : Totals D) (looped : foldm add_order_info zero_totals infos ≡ ok t) where
  open exact use {zero-add}

  sso_raw_eq : t.sso_raw ≡ sum (λ i. (sso_of i).0) (items_of (orders_of infos))
  unfolding zero_totals
  sso_raw_eq =
      item_total exact (λ s. s.sso_raw) (λ i. (sso_of i).0) (sso_raw_grows exact)
        (λ s o. (add_shipping_keeps s o).0) infos zero_totals t looped
      ∙ zero-add _

  sso_roundup_eq : t.sso_roundup ≡ sum (λ i. (sso_of i).1) (items_of (orders_of infos))
  unfolding zero_totals
  sso_roundup_eq =
      item_total exact (λ s. s.sso_roundup) (λ i. (sso_of i).1) (sso_roundup_grows exact)
        (λ s o. (add_shipping_keeps s o).1) infos zero_totals t looped
      ∙ zero-add _

  vat_raw_eq : t.vat_raw ≡ sum (λ i. (vat_of i).0) (items_of (orders_of infos))
  unfolding zero_totals
  vat_raw_eq =
      item_total exact (λ s. s.vat_raw) (λ i. (vat_of i).0) (vat_raw_grows exact)
        (λ s o. (add_shipping_keeps s o).2) infos zero_totals t looped
      ∙ zero-add _

  vat_roundup_eq : t.vat_roundup ≡ sum (λ i. (vat_of i).1) (items_of (orders_of infos))
  unfolding zero_totals
  vat_roundup_eq =
      item_total exact (λ s. s.vat_roundup) (λ i. (vat_of i).1) (vat_roundup_grows exact)
        (λ s o. (add_shipping_keeps s o).3) infos zero_totals t looped
      ∙ zero-add _

  commission_raw_eq : t.commission_raw ≡ sum (λ i. (commission_of i).0) (items_of (orders_of infos))
  unfolding zero_totals
  commission_raw_eq =
      item_total exact (λ s. s.commission_raw) (λ i. (commission_of i).0)
        (commission_raw_grows exact) (λ s o. (add_shipping_keeps s o).4) infos zero_totals t looped
      ∙ zero-add _

  commission_roundup_eq :
      t.commission_roundup ≡ sum (λ i. (commission_of i).1) (items_of (orders_of infos))
  unfolding zero_totals
  commission_roundup_eq =
      item_total exact (λ s. s.commission_roundup) (λ i. (commission_of i).1)
        (commission_roundup_grows exact) (λ s o. (add_shipping_keeps s o).5) infos zero_totals t
        looped
      ∙ zero-add _

  share_raw_eq : t.share_raw ≡ sum (λ i. (share_of i).0) (items_of (orders_of infos))
  unfolding zero_totals
  share_raw_eq =
      item_total exact (λ s. s.share_raw) (λ i. (share_of i).0) (share_raw_grows exact)
        (λ s o. (add_shipping_keeps s o).6) infos zero_totals t looped
      ∙ zero-add _

  share_roundup_eq : t.share_roundup ≡ sum (λ i. (share_of i).1) (items_of (orders_of infos))
  unfolding zero_totals
  share_roundup_eq =
      item_total exact (λ s. s.share_roundup) (λ i. (share_of i).1) (share_roundup_grows exact)
        (λ s o. (add_shipping_keeps s o).7) infos zero_totals t looped
      ∙ zero-add _

  shipment_raw_eq : t.shipment_raw ≡ sum (λ o. (shipment_of o).0) (orders_of infos)
  unfolding zero_totals
  shipment_raw_eq =
      order_total exact (λ s. s.shipment_raw) (λ o. (shipment_of o).0) shipment_raw_kept
        (λ s o. shipment_raw_grows s o exact) infos zero_totals t looped
      ∙ zero-add _

  shipment_roundup_eq : t.shipment_roundup ≡ sum (λ o. (shipment_of o).1) (orders_of infos)
  unfolding zero_totals
  shipment_roundup_eq =
      order_total exact (λ s. s.shipment_roundup) (λ o. (shipment_of o).1) shipment_roundup_kept
        (λ s o. shipment_roundup_grows s o exact) infos zero_totals t looped
      ∙ zero-add _

  pub totals_eq : add_shipment_to_share t ≡ expected_totals infos
  unfolding add_shipment_to_share
  totals_eq = λ i. record {
    sso_raw = sso_raw_eq i;
    sso_roundup = sso_roundup_eq i;
    vat_raw = vat_raw_eq i;
    vat_roundup = vat_roundup_eq i;
    commission_raw = commission_raw_eq i;
    commission_roundup = commission_roundup_eq i;
    share_raw = d.add (share_raw_eq i) (shipment_raw_eq i);
    share_roundup = d.add (share_roundup_eq i) (shipment_roundup_eq i);
    shipment_raw = shipment_raw_eq i;
    shipment_roundup = shipment_roundup_eq i;
  }

module _ {D : Type 0} ⦃d : Decimals D⦄ (exact : IsExact D) where
  -- Where the loops over order infos, orders and items end without a panic, each of the ten totals is
  -- the sum of its amounts over all items, or over all orders for the shipping fees; the totals of the
  -- seller's share are increased by the shipping fees.
  pub calculate_totals-eq-expected :
      (c : SellerFinanceCalc D) (t : Totals D)
      → calculate_totals c ≡ ok t
      → t ≡ expected_totals c.orders_info
  unfolding calculate_totals
  calculate_totals-eq-expected c t h =
      let (m, looped, last) = >>=-eq-ok (foldm add_order_info zero_totals c.orders_info) _ h in
      let same : t ≡ add_shipment_to_share m = cc in same ∙ totals_eq exact c.orders_info m looped
