-- ===== src/Payment/Invoice/Due.antt =====
-- What the invoice of a finance should say, of the amounts that the finance itself holds.
pub mod Read
pub mod Summed
use mathlib.Core.List.{append_assoc}
use finance_service.Base.{
  ◌≡◌, refl, sym, ap, ◌∙◌, subst, Bool, Option, none, some, List, [], ◌∷◌, ◌++◌, not, if◌then◌else◌,
  arith,
}
use finance_service.Base.Float.{is_positive}
use finance_service.Base.Outcome.{
  Outcome, ok, deref, optional, traverse, >>=-eq-ok, >>=-ok, ok-injective,
}
use finance_service.Entities.{
  Money, ItemShare, ItemCommission, ItemSso, ItemVat, ItemInvoice, SellerItem, SellerOrder,
  OrderInfo, SellerFinance,
}
use finance_service.Decimals.{Decimals}
use finance_service.Calculation.{
  SellerItemCalc, SellerOrderCalc, OrderInfoCalc, SellerFinanceCalc, finance_calc_factory,
}
use finance_service.Calculation.{ItemShareCalc, ItemCommissionCalc, ItemSsoCalc, ItemVatCalc}
use finance_service.Calculation.{
  read_money, read, read_share, read_commission, read_sso, read_vat, read_item, read_order,
  read_order_info,
}
use finance_service.Payment.Invoice.{Totals}
use finance_service.Payment.Invoice.Sums.{
  orders_of, items_of, sum, amount, amount_if, share_of, commission_of, sso_of, vat_of, shipment_of,
  expected_totals,
}

-- every order of a finance, and every item of the orders, in order
abbrev pub stored_orders : List OrderInfo → List SellerOrder
stored_orders [] = []
stored_orders (i ∷ is) = i.orders ++ stored_orders is

abbrev pub stored_items : List SellerOrder → List SellerItem
stored_items [] = []
stored_items (o ∷ os) = o.items ++ stored_items os

module _ {D : Type 0} ⦃d : Decimals D⦄ where
  open d use {zero, add}

  -- the number that a text of digits says; a missing amount counts as nothing
  abbrev pub number : Option D → D
  number none = zero
  number (some x) = x

  abbrev pub paid : Option Money → D
  paid none = zero
  paid (some m) = number (d.parse m.amount)

  abbrev pub paid_if : Bool → Option Money → D
  paid_if b m = if b then paid m else zero

  abbrev pub part {ℓ} : {A : Type ℓ} → (A → D × D) → Option A → D × D
  part w none = (zero, zero)
  part w (some x) = w x

  -- a part of the invoice of an item
  abbrev pub of_item : {A : Type 0} → (ItemInvoice → Option A) → (A → D × D) → SellerItem → D × D
  of_item field w i = part (λ v. part w (field v)) i.invoice

  abbrev pub share_paid : ItemShare → D × D
  share_paid s = (paid s.raw_total_seller_share, paid s.roundup_total_seller_share)

  abbrev pub commission_paid : ItemCommission → D × D
  commission_paid c = (
    paid_if (is_positive c.item_commission) c.raw_total_price,
    paid_if (is_positive c.item_commission) c.roundup_total_price,
  )

  abbrev pub sso_paid : ItemSso → D × D
  sso_paid s = (paid_if s.is_obliged s.raw_total_price, paid_if s.is_obliged s.roundup_total_price)

  abbrev pub vat_paid : ItemVat → D × D
  vat_paid v = (paid_if v.is_obliged v.raw_total_price, paid_if v.is_obliged v.roundup_total_price)

  abbrev pub share_due : SellerItem → D × D
  share_due = of_item (λ v. v.share) share_paid

  abbrev pub commission_due : SellerItem → D × D
  commission_due = of_item (λ v. v.commission) commission_paid

  abbrev pub sso_due : SellerItem → D × D
  sso_due = of_item (λ v. v.sso) sso_paid

  abbrev pub vat_due : SellerItem → D × D
  vat_due = of_item (λ v. v.vat) vat_paid

  abbrev pub shipment_due : SellerOrder → D × D
  shipment_due o = (
    paid_if (not o.is_already_shipping_payed) o.raw_shipping_net,
    paid_if (not o.is_already_shipping_payed) o.roundup_shipping_net,
  )

  -- the sums over all items of all orders, and over all orders for the shipping fees
  abbrev pub due_totals : List OrderInfo → Totals D
  due_totals infos =
      let orders = stored_orders infos in
      let items = stored_items orders in
      record {
        sso_raw = sum (λ i. (sso_due i).0) items;
        sso_roundup = sum (λ i. (sso_due i).1) items;
        vat_raw = sum (λ i. (vat_due i).0) items;
        vat_roundup = sum (λ i. (vat_due i).1) items;
        commission_raw = sum (λ i. (commission_due i).0) items;
        commission_roundup = sum (λ i. (commission_due i).1) items;
        share_raw = add (sum (λ i. (share_due i).0) items) (sum (λ o. (shipment_due o).0) orders);
        share_roundup =
            add (sum (λ i. (share_due i).1) items) (sum (λ o. (shipment_due o).1) orders);
        shipment_raw = sum (λ o. (shipment_due o).0) orders;
        shipment_roundup = sum (λ o. (shipment_due o).1) orders;
      }
