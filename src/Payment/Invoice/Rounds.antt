-- ===== src/Payment/Invoice/Rounds.antt =====
-- One round of the loops of financeInvoiceCalculation, for each of the totals.
use finance_service.Base.{◌≡◌, arith}
use finance_service.Base.Outcome.{ok}
use finance_service.Decimals.{Decimals, IsExact}
use finance_service.Calculation.{SellerItemCalc, SellerOrderCalc}
use finance_service.Payment.Invoice.{Totals, add_item, add_shipping}
use finance_service.Payment.Invoice.Sums.{share_of, commission_of, sso_of, vat_of, shipment_of}

-- Over an item, each of the eight totals of the items grows by the item's amount.
module _ {D : Type 0} ⦃d : Decimals D⦄ (exact : IsExact D) (t t' : Totals D) (i : SellerItemCalc D)
    (round : add_item t i ≡ ok t') where
  open d use {add}
  open exact use {add-zero}

  pub sso_raw_grows : t'.sso_raw ≡ add t.sso_raw (sso_of i).0
  unfolding add_item
  sso_raw_grows = ground (arith, add-zero t.sso_raw)

  pub sso_roundup_grows : t'.sso_roundup ≡ add t.sso_roundup (sso_of i).1
  unfolding add_item
  sso_roundup_grows = ground (arith, add-zero t.sso_roundup)

  pub vat_raw_grows : t'.vat_raw ≡ add t.vat_raw (vat_of i).0
  unfolding add_item
  vat_raw_grows = ground (arith, add-zero t.vat_raw)

  pub vat_roundup_grows : t'.vat_roundup ≡ add t.vat_roundup (vat_of i).1
  unfolding add_item
  vat_roundup_grows = ground (arith, add-zero t.vat_roundup)

  pub commission_raw_grows : t'.commission_raw ≡ add t.commission_raw (commission_of i).0
  unfolding add_item
  commission_raw_grows = ground (arith, add-zero t.commission_raw)

  pub commission_roundup_grows :
      t'.commission_roundup ≡ add t.commission_roundup (commission_of i).1
  unfolding add_item
  commission_roundup_grows = ground (arith, add-zero t.commission_roundup)

  pub share_raw_grows : t'.share_raw ≡ add t.share_raw (share_of i).0
  unfolding add_item
  share_raw_grows = ground arith

  pub share_roundup_grows : t'.share_roundup ≡ add t.share_roundup (share_of i).1
  unfolding add_item
  share_roundup_grows = ground arith

-- An item leaves the totals of the shipping fees alone.
module _ {D : Type 0} ⦃d : Decimals D⦄ (t t' : Totals D) (i : SellerItemCalc D)
    (round : add_item t i ≡ ok t') where
  pub shipment_raw_kept : t'.shipment_raw ≡ t.shipment_raw
  unfolding add_item
  shipment_raw_kept = ground arith

  pub shipment_roundup_kept : t'.shipment_roundup ≡ t.shipment_roundup
  unfolding add_item
  shipment_roundup_kept = ground arith

-- At the end of an order, only the totals of the shipping fees grow.
module _ {D : Type 0} ⦃d : Decimals D⦄ (t : Totals D) (o : SellerOrderCalc D) where
  open d use {add}

  pub add_shipping_keeps :
      let t' = add_shipping t o in
      (t'.sso_raw ≡ t.sso_raw)
      × (t'.sso_roundup ≡ t.sso_roundup)
      × (t'.vat_raw ≡ t.vat_raw)
      × (t'.vat_roundup ≡ t.vat_roundup)
      × (t'.commission_raw ≡ t.commission_raw)
      × (t'.commission_roundup ≡ t.commission_roundup)
      × (t'.share_raw ≡ t.share_raw)
      × (t'.share_roundup ≡ t.share_roundup)
  unfolding add_shipping
  add_shipping_keeps = ground arith

  pub shipment_raw_grows :
      IsExact D → (add_shipping t o).shipment_raw ≡ add t.shipment_raw (shipment_of o).0
  unfolding add_shipping
  shipment_raw_grows exact = ground (arith, exact.add-zero t.shipment_raw)

  pub shipment_roundup_grows :
      IsExact D → (add_shipping t o).shipment_roundup ≡ add t.shipment_roundup (shipment_of o).1
  unfolding add_shipping
  shipment_roundup_grows exact = ground (arith, exact.add-zero t.shipment_roundup)
