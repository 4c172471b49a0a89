-- ===== src/Payment/Invoice/Recorded.antt =====
-- What financeInvoiceCalculation writes to the finance.
use text.Mathlib.TextPositions.{eq_refl}
use finance_service.Base.{◌≡◌, refl, sym, ap, ◌∙◌, Option, none, some, arith, if◌then◌else◌}
use finance_service.Base.Outcome.{ok, ◌>>=◌, >>=-eq-ok, ok-injective}
use finance_service.Entities.{Money, Invoice, SellerFinance}
use finance_service.Decimals.{Decimals, IsExact}
use finance_service.Calculation.{
  SellerFinanceCalc, empty_invoice_calc, rials, put, invoice_of, write_totals, finance_calc_factory,
  convert_to_seller_finance,
}
use finance_service.Payment.Invoice.{
  Totals, set_total, set_totals, invoice_calc_of, calculate_totals, finance_invoice_calculation,
}
use finance_service.Payment.Invoice.Due.{due_totals}
use finance_service.Payment.Invoice.Due.Summed.{factory-due_totals}
use finance_service.Payment.Invoice.Result.{calculate_totals-eq-expected}

-- The factory does not read the finance's old invoice.
module _ {D : Type 0} ⦃d : Decimals D⦄ where
  pub finance_calc_factory_lem :
      (f : SellerFinance) (c : SellerFinanceCalc D)
      → finance_calc_factory f ≡ ok c
      → (c.invoice ≡ none) × (c.fid ≡ f.fid)
  unfolding finance_calc_factory
  finance_calc_factory_lem f c h = ground arith

  abbrev pub fresh : D → Option Money → Option Money
  fresh x old = if d.is_zero x then old else some (rials x)

  -- the invoice that records these totals over an old one
  abbrev pub recorded : Totals D → Invoice → Invoice
  recorded t i = record {
    sso_raw_total = fresh t.sso_raw i.sso_raw_total;
    sso_roundup_total = fresh t.sso_roundup i.sso_roundup_total;
    vat_raw_total = fresh t.vat_raw i.vat_raw_total;
    vat_roundup_total = fresh t.vat_roundup i.vat_roundup_total;
    commission_raw_total = fresh t.commission_raw i.commission_raw_total;
    commission_roundup_total = fresh t.commission_roundup i.commission_roundup_total;
    share_raw_total = fresh t.share_raw i.share_raw_total;
    share_roundup_total = fresh t.share_roundup i.share_roundup_total;
    shipment_raw_total = fresh t.shipment_raw i.shipment_raw_total;
    shipment_roundup_total = fresh t.shipment_roundup i.shipment_roundup_total;
  }

  put-set_total : (x : D) (old : Option Money) → put (set_total x none) old ≡ fresh x old
  put-set_total x old = ground arith

  write-set_totals :
      (t : Totals D) (i : Invoice) → write_totals (set_totals t empty_invoice_calc) i ≡ recorded t i
  unfolding write_totals set_totals
  write-set_totals t i = λ k. record {
    sso_raw_total = put-set_total t.sso_raw i.sso_raw_total k;
    sso_roundup_total = put-set_total t.sso_roundup i.sso_roundup_total k;
    vat_raw_total = put-set_total t.vat_raw i.vat_raw_total k;
    vat_roundup_total = put-set_total t.vat_roundup i.vat_roundup_total k;
    commission_raw_total = put-set_total t.commission_raw i.commission_raw_total k;
    commission_roundup_total = put-set_total t.commission_roundup i.commission_roundup_total k;
    share_raw_total = put-set_total t.share_raw i.share_raw_total k;
    share_roundup_total = put-set_total t.share_roundup i.share_roundup_total k;
    shipment_raw_total = put-set_total t.shipment_raw i.shipment_raw_total k;
    shipment_roundup_total = put-set_total t.shipment_roundup i.shipment_roundup_total k;
  }

  fresh-fresh : (x : D) (old : Option Money) → fresh x (fresh x old) ≡ fresh x old
  fresh-fresh x old = ground arith

  recorded-recorded : (t : Totals D) (i : Invoice) → recorded t (recorded t i) ≡ recorded t i
  recorded-recorded t i = λ k. record {
    sso_raw_total = fresh-fresh t.sso_raw i.sso_raw_total k;
    sso_roundup_total = fresh-fresh t.sso_roundup i.sso_roundup_total k;
    vat_raw_total = fresh-fresh t.vat_raw i.vat_raw_total k;
    vat_roundup_total = fresh-fresh t.vat_roundup i.vat_roundup_total k;
    commission_raw_total = fresh-fresh t.commission_raw i.commission_raw_total k;
    commission_roundup_total = fresh-fresh t.commission_roundup i.commission_roundup_total k;
    share_raw_total = fresh-fresh t.share_raw i.share_raw_total k;
    share_roundup_total = fresh-fresh t.share_roundup i.share_roundup_total k;
    shipment_raw_total = fresh-fresh t.shipment_raw i.shipment_raw_total k;
    shipment_roundup_total = fresh-fresh t.shipment_roundup i.shipment_roundup_total k;
  }

  convert_recorded :
      (c : SellerFinanceCalc D) (f : SellerFinance) (t : Totals D)
      → c.invoice ≡ none
      → c.fid ≡ f.fid
      → convert_to_seller_finance (record c { invoice = some (set_totals t (invoice_calc_of c)) }) f
        ≡ ok (record f { invoice = some (recorded t (invoice_of f)) })
  unfolding convert_to_seller_finance
  convert_recorded c f t none_yet same =
      rw (none_yet, same, eq_refl f.fid)
        (ap (λ i. ok (record f { invoice = some i })) (write-set_totals t (invoice_of f)))

  finance_invoice_calculation_eq :
      (f : SellerFinance) (c : SellerFinanceCalc D) (t : Totals D)
      → finance_calc_factory f ≡ ok c
      → calculate_totals c ≡ ok t
      → finance_invoice_calculation D f
        ≡ ok (record f { invoice = some (recorded t (invoice_of f)) })
  unfolding finance_invoice_calculation
  finance_invoice_calculation_eq f c t made summed =
      let (none_yet, same) = finance_calc_factory_lem f c made in
      rw (made, ◌>>=◌, summed, ◌>>=◌) (convert_recorded c f t none_yet same)

  finance_invoice_calculation_inv :
      (f g : SellerFinance)
      → finance_invoice_calculation D f ≡ ok g
      → (c : SellerFinanceCalc D) × (t : Totals D) × (finance_calc_factory f ≡ ok c)
        × (calculate_totals c ≡ ok t)
  unfolding finance_invoice_calculation
  finance_invoice_calculation_inv f g h =
      let (c, made, rest) = >>=-eq-ok (finance_calc_factory f) _ h in
      let (t, summed, _) = >>=-eq-ok (calculate_totals c) _ rest in (c, t, made, summed)

  -- the factory reads nothing of the invoice
  factory_invoice :
      (f : SellerFinance) (i : Option Invoice)
      → finance_calc_factory (record f { invoice = i }) ≡ finance_calc_factory {D = D} f
  unfolding finance_calc_factory
  factory_invoice f i = refl

module _ (D : Type 0) ⦃d : Decimals D⦄ where
  -- Calculating the invoice of a finance again, right after it was calculated, changes nothing.
  pub finance_invoice_calculation_idem :
      (f g : SellerFinance)
      → finance_invoice_calculation D f ≡ ok g
      → finance_invoice_calculation D g ≡ ok g
  finance_invoice_calculation_idem f g h =
      let (c, t, made, summed) = finance_invoice_calculation_inv f g h in
      let old = invoice_of f in
      let after = record f { invoice = some (recorded t old) } in
      let same : g ≡ after =
        ok-injective (sym h ∙ finance_invoice_calculation_eq f c t made summed) in
      let again =
        finance_invoice_calculation_eq after c t (factory_invoice f (some (recorded t old)) ∙ made)
          summed in
      rw same (again ∙ ap (λ i. ok (record f { invoice = some i })) (recorded-recorded t old))

module _ {D : Type 0} ⦃d : Decimals D⦄ (exact : IsExact D) where
  -- Where the calculation succeeds, it changes only the invoice of the finance: each total that is
  -- not zero is written as the sum of the amounts that the finance holds, over all items of all orders of
  -- all its order infos, or over all those orders, and where the sum is zero the old total stays. A
  -- shipping fee counts where it is not paid already.
  pub finance_invoice_calculation_lem :
      (f g : SellerFinance)
      → finance_invoice_calculation D f ≡ ok g
      → g ≡ record f { invoice = some (recorded (due_totals {D = D} f.orders_info) (invoice_of f)) }
  finance_invoice_calculation_lem f g h =
      let (c, t, made, summed) = finance_invoice_calculation_inv f g h in
      ok-injective (sym h ∙ finance_invoice_calculation_eq f c t made summed)
      ∙ ap (λ x. record f { invoice = some (recorded x (invoice_of f)) })
          (calculate_totals-eq-expected exact c t summed ∙ factory-due_totals f c made)
