-- ===== src/Payment/Invoice/Sums.antt =====
-- What the invoice of a finance should say: sums over all its items and all its orders.
use finance_service.Base.{Bool, Option, none, some, List, [], ◌∷◌, ◌++◌, not, if◌then◌else◌}
use finance_service.Base.Float.{is_positive}
use finance_service.Decimals.{Decimals}
use finance_service.Calculation.{SellerItemCalc, SellerOrderCalc, OrderInfoCalc}
use finance_service.Payment.Invoice.{Totals}

module _ {D : Type 0} where
  -- every order of the infos, and every item of the orders, in order
  abbrev pub orders_of : List (OrderInfoCalc D) → List (SellerOrderCalc D)
  orders_of [] = []
  orders_of (i ∷ is) = i.orders ++ orders_of is

  abbrev pub items_of : List (SellerOrderCalc D) → List (SellerItemCalc D)
  items_of [] = []
  items_of (o ∷ os) = o.items ++ items_of os

module _ {D : Type 0} ⦃d : Decimals D⦄ where
  open d use {zero, add}

  abbrev pub sum : {A : Type 0} → (A → D) → List A → D
  sum w [] = zero
  sum w (x ∷ xs) = add (w x) (sum w xs)

  -- an amount that is missing counts as nothing
  abbrev pub amount : Option D → D
  amount none = zero
  amount (some x) = x

  -- an amount that counts only under a condition
  abbrev pub amount_if : Bool → Option D → D
  amount_if b x = if b then amount x else zero

  abbrev pub share_of : SellerItemCalc D → D × D
  share_of i = elim i.invoice.share [
    | none ↦ (zero, zero)
    | some s ↦ (amount s.raw_total_seller_share, amount s.roundup_total_seller_share)
  ]

  abbrev pub commission_of : SellerItemCalc D → D × D
  commission_of i = elim i.invoice.commission [
    | none ↦ (zero, zero)
    | some c ↦ (
      amount_if (is_positive c.item_commission) c.raw_total_price,
      amount_if (is_positive c.item_commission) c.roundup_total_price,
    )
  ]

  abbrev pub sso_of : SellerItemCalc D → D × D
  sso_of i = elim i.invoice.sso [
    | none ↦ (zero, zero)
    | some s ↦
        (amount_if s.is_obliged s.raw_total_price, amount_if s.is_obliged s.roundup_total_price)
  ]

  abbrev pub vat_of : SellerItemCalc D → D × D
  vat_of i = elim i.invoice.vat [
    | none ↦ (zero, zero)
    | some v ↦
        (amount_if v.is_obliged v.raw_total_price, amount_if v.is_obliged v.roundup_total_price)
  ]

  abbrev pub shipment_of : SellerOrderCalc D → D × D
  shipment_of o = (
    amount_if (not o.is_already_shipping_payed) o.raw_shipping_net,
    amount_if (not o.is_already_shipping_payed) o.roundup_shipping_net,
  )

  -- what the totals should be: sums over all items, and over all orders for the shipping fees
  abbrev pub expected_totals : List (OrderInfoCalc D) → Totals D
  expected_totals infos =
      let orders = orders_of infos in
      let items = items_of orders in
      record {
        sso_raw = sum (λ i. (sso_of i).0) items;
        sso_roundup = sum (λ i. (sso_of i).1) items;
        vat_raw = sum (λ i. (vat_of i).0) items;
        vat_roundup = sum (λ i. (vat_of i).1) items;
        commission_raw = sum (λ i. (commission_of i).0) items;
        commission_roundup = sum (λ i. (commission_of i).1) items;
        share_raw = add (sum (λ i. (share_of i).0) items) (sum (λ o. (shipment_of o).0) orders);
        share_roundup = add (sum (λ i. (share_of i).1) items) (sum (λ o. (shipment_of o).1) orders);
        shipment_raw = sum (λ o. (shipment_of o).0) orders;
        shipment_roundup = sum (λ o. (shipment_of o).1) orders;
      }
