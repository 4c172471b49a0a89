-- ===== src/Payment/Process/Requested.antt =====
-- What ExecutePipeline asks the payment service for.
use finance_service.Base.{◌≡◌, refl, sym, ap, ◌∙◌, subst, some, none, true, false}
use finance_service.Base.Int.{pos}
use finance_service.Base.Outcome.{
  ok, panic, Reply, value, failure, deref, deref->>=, deref-none->>=, >>=-panic, >>=-eq-ok,
  ok-injective,
}
use finance_service.Entities.{
  Money, Invoice, FinanceState, PaymentState, PaymentMode, FinancePayment, TransferResponse,
  SellerFinance,
}
use finance_service.Decimals.{Decimals, IsExact}
use finance_service.Calculation.{SellerFinanceCalc, invoice_of, rials, finance_calc_factory}
use finance_service.Payment.Services.{Services, PaymentRequest, PaymentResponse}
use finance_service.Payment.Invoice.{Totals, finance_invoice_calculation}
use finance_service.Payment.Invoice.Sums.{expected_totals}
use finance_service.Payment.Invoice.Due.{due_totals}
use finance_service.Payment.Invoice.Due.Summed.{factory-due_totals}
use finance_service.Payment.Invoice.Recorded.{recorded, finance_invoice_calculation_lem}
use finance_service.Payment.Process.{
  Processed, payment_request, started_payment, finance_start_payment_process, start_if_automatic,
  execute_pipeline,
}
use finance_service.Payment.Process.Stored.{sent_to_save, execute_pipeline_lem}

-- the payment after one request: it waits for the result if the request was accepted, and else no
-- request was made that counts
abbrev pub Reflects : FinancePayment → Reply PaymentResponse → Type 0
Reflects p (value r) =
    (p.status ≡ PaymentState.pending_state)
    × ((t : TransferResponse) × (p.transfer_response ≡ some t) × (t.transfer_id ≡ r.transfer_id))
Reflects p (failure e) = (p.status ≡ PaymentState.none_state) × (p.transfer_response ≡ none)

-- A finance whose payment was started with a request.
pub record IsRequested (s : Services) (g : SellerFinance) (q : PaymentRequest) : Type 0 where
  pub status : g.status ≡ FinanceState.payment_process
  pub payment : FinancePayment
  pub has : g.payment ≡ some payment
  pub mode : payment.mode ≡ g.payment_mode
  pub retries : (payment.retry_request ≡ pos 0) × (payment.retry_result ≡ pos 0)
  pub reflects : Reflects payment (s.transfer q)

started_payment-Reflects :
    (s : Services) (f : SellerFinance) (q : PaymentRequest) (r : Reply PaymentResponse)
    → let p = started_payment s f q r in
      (p.mode ≡ f.payment_mode)
      × (p.retry_request ≡ pos 0)
      × (p.retry_result ≡ pos 0)
      × Reflects p r
unfolding started_payment
started_payment-Reflects s f q (value r) = (refl, refl, refl, (refl, (_, refl, refl)))
started_payment-Reflects s f q (failure e) = (refl, refl, refl, (refl, refl))

start-IsRequested :
    (s : Services) (f g : SellerFinance)
    → finance_start_payment_process s f ≡ ok g
    → (q : PaymentRequest) × (payment_request f ≡ ok q) × IsRequested s g q
unfolding finance_start_payment_process
start-IsRequested s f g h =
    let (q, asked, rest) = >>=-eq-ok (payment_request f) _ h in
    let (mode, asks, polls, reflects) = started_payment-Reflects s f q (s.transfer q) in
    (
      q,
      asked,
      subst (λ x. IsRequested s x q) (ok-injective rest)
          (record {
            status = refl;
            payment = started_payment s f q (s.transfer q);
            has = refl;
            mode = mode;
            retries = (asks, polls);
            reflects = reflects;
          }),
    )

-- what is asked for is the share of the finance's invoice
request_amount :
    (f : SellerFinance) (q : PaymentRequest) (i : Invoice) (m : Money)
    → payment_request f ≡ ok q
    → f.invoice ≡ some i
    → i.share_roundup_total ≡ some m
    → (q.fid ≡ f.fid)
      × (q.seller_id ≡ f.seller_id)
      × (q.amount ≡ m.amount)
      × (q.currency ≡ m.currency)
unfolding payment_request
request_amount f q i m h has total =
    let shared = sym (deref->>= f.invoice _ has) ∙ h in
    let known = sym (deref->>= i.share_roundup_total _ total) ∙ shared in
    let (info, _, named) = >>=-eq-ok (deref f.seller_info) _ known in
    let (general, _, banked) = >>=-eq-ok (deref info.general_info) _ named in
    let (finance, _, last) = >>=-eq-ok (deref info.finance_data) _ banked in
    let same = sym (ok-injective last) in
    (
      ap (λ (x : PaymentRequest). x.fid) same,
      ap (λ (x : PaymentRequest). x.seller_id) same,
      ap (λ (x : PaymentRequest). x.amount) same,
      ap (λ (x : PaymentRequest). x.currency) same,
    )

start_automatic :
    (s : Services) (m : PaymentMode) (f : SellerFinance)
    → m ≡ PaymentMode.automatic
    → start_if_automatic s m f ≡ finance_start_payment_process s f
unfolding start_if_automatic
start_automatic s m f h = rw h refl

request_panics :
    (f : SellerFinance) (i : Invoice)
    → f.invoice ≡ some i
    → i.share_roundup_total ≡ none
    → payment_request f ≡ panic
unfolding payment_request
request_panics f i has missing =
    deref->>= f.invoice _ has ∙ deref-none->>= i.share_roundup_total _ missing

-- an invoice with no share makes the request panic
no_share_panics :
    (s : Services) (f : SellerFinance) (i : Invoice)
    → f.invoice ≡ some i
    → i.share_roundup_total ≡ none
    → finance_start_payment_process s f ≡ panic
unfolding finance_start_payment_process
no_share_panics s f i has missing = >>=-panic (payment_request f) _ (request_panics f i has missing)

module _ {D : Type 0} ⦃d : Decimals D⦄ (exact : IsExact D) where
  -- Where a finance in automatic mode reaches Save, the payment service was asked for exactly the total
  -- of the seller's share that the finance holds, over all items of all its orders, with the shipping
  -- fees of the orders that are not paid already, if that total is not zero, for this finance and this
  -- seller; and the finance that is saved waits in the payment process with the payment that the reply
  -- calls for.
  pub execute_pipeline_pays :
      (s : Services) (f g : SellerFinance) (r : Processed)
      → execute_pipeline D s f ≡ ok r
      → sent_to_save r ≡ some g
      → f.payment_mode ≡ PaymentMode.automatic
      → (q : PaymentRequest) × IsRequested s g q
        × (let total = (due_totals {D = D} f.orders_info).share_roundup in
            d.is_zero total ≡ false
            → (q.fid ≡ f.fid)
              × (q.seller_id ≡ f.seller_id)
              × (q.amount ≡ d.print total)
              × (q.currency ≡ "IRR"))
  execute_pipeline_pays s f g r h sent mode =
      let passed = execute_pipeline_lem D s f g r h sent in
      let known = record f { seller_info = some passed.profile } in
      let same = finance_invoice_calculation_lem exact known passed.invoiced passed.calculated in
      let automatic = ap (λ (x : SellerFinance). x.payment_mode) same ∙ mode in
      let (q, asked, requested) = start-IsRequested s passed.invoiced g (
        sym (start_automatic s passed.invoiced.payment_mode passed.invoiced automatic)
        ∙ passed.started) in
      let t = due_totals {D = D} f.orders_info in
      (
        q,
        requested,
        λ positive.
            let (fid, seller, amount, currency) =
              request_amount passed.invoiced q (recorded t (invoice_of known))
                (rials t.share_roundup) asked (ap (λ (x : SellerFinance). x.invoice) same)
                (rw positive refl) in
            (
              fid ∙ ap (λ (x : SellerFinance). x.fid) same,
              seller ∙ ap (λ (x : SellerFinance). x.seller_id) same,
              amount,
              currency,
            ),
      )

  -- A finance in automatic mode with no invoice so far, whose seller's shares and shipping fees sum up
  -- to zero: after the calculation of its invoice, the start of its payment panics.
  pub zero_share_panics :
      (s : Services) (f g : SellerFinance) (c : SellerFinanceCalc D)
      → f.payment_mode ≡ PaymentMode.automatic
      → f.invoice ≡ none
      → finance_calc_factory f ≡ ok c
      → (expected_totals c.orders_info).share_roundup ≡ d.zero
      → finance_invoice_calculation D f ≡ ok g
      → start_if_automatic s g.payment_mode g ≡ panic
  zero_share_panics s f g c mode new made nothing h =
      let same = finance_invoice_calculation_lem exact f g h in
      let empty : d.is_zero (due_totals {D = D} f.orders_info).share_roundup ≡ true =
        (exact.is_zero_iff (due_totals f.orders_info).share_roundup).1
          (ap (λ (x : Totals D). x.share_roundup) (sym (factory-due_totals f c made)) ∙ nothing) in
      start_automatic s g.payment_mode g (ap (λ (x : SellerFinance). x.payment_mode) same ∙ mode)
      ∙ no_share_panics s g (recorded (due_totals {D = D} f.orders_info) (invoice_of f))
          (ap (λ (x : SellerFinance). x.invoice) same) (rw (empty, new) refl)
