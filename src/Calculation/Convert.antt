-- ===== src/Calculation/Convert.antt =====
-- ConvertToSellerFinance of domain/model/calculation/sellerFinanceCalc.go: the totals that were
-- calculated are written to the finance, as texts in rial.
use text.Mathlib.Text.{◌==◌ as str_eq}
use finance_service.Base.{Option, none, some, if◌then◌else◌}
use finance_service.Base.Outcome.{Outcome, ok, err, fid_mismatch}
use finance_service.Entities.{Money, Invoice, SellerFinance}
use finance_service.Decimals.{Decimals}
use finance_service.Calculation.Data.{InvoiceCalc, SellerFinanceCalc}

-- `&entities.Invoice{SSORawTotal: nil, …}`
abbrev pub empty_invoice : Invoice
empty_invoice = record {
  sso_raw_total = none;
  sso_roundup_total = none;
  vat_raw_total = none;
  vat_roundup_total = none;
  commission_raw_total = none;
  commission_roundup_total = none;
  share_raw_total = none;
  share_roundup_total = none;
  shipment_raw_total = none;
  shipment_roundup_total = none;
}

-- the invoice that the totals are written to: the finance's own, or a new one
abbrev pub invoice_of : SellerFinance → Invoice
invoice_of f = elim f.invoice [ none ↦ empty_invoice | some i ↦ i ]

module _ {D : Type 0} ⦃d : Decimals D⦄ where
  abbrev pub rials : D → Money
  rials x = record { amount = d.print x; currency = "IRR" }

  -- `if total != nil { invoice.Total = &entities.Money{…} }`
  abbrev pub put : Option D → Option Money → Option Money
  put none old = old
  put (some x) old = some (rials x)

  unfoldable pub write_totals : InvoiceCalc D → Invoice → Invoice
  write_totals c i = record {
    sso_raw_total = put c.sso_raw_total i.sso_raw_total;
    sso_roundup_total = put c.sso_roundup_total i.sso_roundup_total;
    vat_raw_total = put c.vat_raw_total i.vat_raw_total;
    vat_roundup_total = put c.vat_roundup_total i.vat_roundup_total;
    commission_raw_total = put c.commission_raw_total i.commission_raw_total;
    commission_roundup_total = put c.commission_roundup_total i.commission_roundup_total;
    share_raw_total = put c.share_raw_total i.share_raw_total;
    share_roundup_total = put c.share_roundup_total i.share_roundup_total;
    shipment_raw_total = put c.shipment_raw_total i.shipment_raw_total;
    shipment_roundup_total = put c.shipment_roundup_total i.shipment_roundup_total;
  }

  -- the calculated invoice, if there is one, goes to the finance
  abbrev write_invoice : Option (InvoiceCalc D) → SellerFinance → SellerFinance
  write_invoice none f = f
  write_invoice (some c) f = record f { invoice = some (write_totals c (invoice_of f)) }

  unfoldable pub convert_to_seller_finance :
      SellerFinanceCalc D → SellerFinance → Outcome SellerFinance
  unfolding write_totals
  convert_to_seller_finance c f =
      if str_eq c.fid f.fid then ok (write_invoice c.invoice f) else err fid_mismatch
