-- ===== src/Payment/Tracking/Safety.antt =====
-- The tracking handler never dereferences nil on a finance that the service itself has written.
use finance_service.Base.{◌≡◌, ◌≢◌, refl, ap, ◌∙◌, subst, some, [], ◌∷◌, Bool-cases, inl, inr}
use finance_service.Base.Int.{ltb_ℤ}
use finance_service.Base.Outcome.{
  Outcome, ok, Reply, value, failure, ◌>>=◌, >>=-eq-ok, >>=-ok, deref->>=, ok-injective,
}
use finance_service.Entities.{
  PaymentState, PaymentMode, TransferResult, TransferResponse, FinancePayment, SellerFinance,
  PaymentMode-discrete,
}
use finance_service.Payment.Services.{Services, PaymentRequest, PaymentResponse}
use finance_service.Payment.Process.{
  payment_request, started_payment, finance_start_payment_process,
}
use finance_service.Payment.Tracking.{
  by_mode, save_finance, Tracked, after_request, after_result, track_status,
  automatic_payment_handler, finance_payment_tracking, give_up_request, give_up_result,
}
use finance_service.Payment.Tracking.Polled.{
  HasAmounts, Polled, after_result-Polled, pending-ne-none,
}

-- What the handler relies on: a payment that waits for a request can be requested, one that waits
-- for its result has the response of the payment service unless it is manual, and a result that is
-- noted has its amounts.
pub record IsPayable (f : SellerFinance) (p : FinancePayment) : Type 0 where
  pub requestable :
      p.status ≡ PaymentState.none_state → (q : PaymentRequest) × (payment_request f ≡ ok q)
  pub pollable :
      p.status ≡ PaymentState.pending_state
      → p.mode ≡ PaymentMode.automatic
      → (r : TransferResponse) × (p.transfer_response ≡ some r)
  pub complete : (r : TransferResult) → p.transfer_result ≡ some r → HasAmounts r

abbrev pub IsTrackable : SellerFinance → Type 0
IsTrackable f = (p : FinancePayment) × (f.payment ≡ some p) × IsPayable f p

started-IsPayable :
    (s : Services) (f g : SellerFinance) (q : PaymentRequest) (r : Reply PaymentResponse)
    → payment_request g ≡ ok q
    → IsPayable g (started_payment s f q r)
unfolding started_payment
started-IsPayable s f g q (failure e) asked = record {
  requestable = λ _. (q, asked);
  pollable = λ e. cc;
  complete = λ r e. cc;
}
started-IsPayable s f g q (value response) asked = record {
  requestable = λ _. (q, asked);
  pollable = λ _ _. (_, refl);
  complete = λ r e. cc;
}

-- A finance whose payment was started has what the tracking handler relies on.
pub start-IsTrackable :
    (s : Services) (f g : SellerFinance) → finance_start_payment_process s f ≡ ok g → IsTrackable g
unfolding finance_start_payment_process
start-IsTrackable s f g h =
    let (q, asked, rest) = >>=-eq-ok (payment_request f) _ h in
    subst IsTrackable (ok-injective rest) (_, refl, started-IsPayable s f _ q (s.transfer q) asked)

payment_request_eq :
    (f g : SellerFinance)
    → g.invoice ≡ f.invoice
    → g.seller_info ≡ f.seller_info
    → g.fid ≡ f.fid
    → g.seller_id ≡ f.seller_id
    → payment_request g ≡ payment_request f
unfolding payment_request
payment_request_eq f g i p n k = rw (i, p, n, k) refl

-- The call of the handler depends on the payment's mode and status alone.
pub finance_payment_tracking_eq :
    (s : Services) (f : SellerFinance) (p : FinancePayment)
    → f.payment ≡ some p
    → p.mode ≡ PaymentMode.automatic
    → finance_payment_tracking s f ≡ track_status p.status s f p
unfolding finance_payment_tracking automatic_payment_handler
finance_payment_tracking_eq s f p has mode =
    deref->>= f.payment _ has ∙ ap (λ m. by_mode m s f) mode ∙ deref->>= f.payment _ has

pub finance_payment_tracking_manual :
    (s : Services) (f : SellerFinance) (p : FinancePayment)
    → f.payment ≡ some p
    → p.mode ≢ PaymentMode.automatic
    → finance_payment_tracking s f ≡ ok (record { finance = f; requested = []; saves = [] })
unfolding finance_payment_tracking
finance_payment_tracking_manual s f p has mode =
    deref->>= f.payment _ has ∙ by_mode_manual p.mode mode
  where
    by_mode_manual :
        (m : PaymentMode)
        → m ≢ PaymentMode.automatic
        → by_mode m s f ≡ ok (record { finance = f; requested = []; saves = [] })
    by_mode_manual PaymentMode.automatic h = absurd (h refl)
    by_mode_manual _ h = refl

abbrev EndsTrackable : Outcome Tracked → Type 0
EndsTrackable m = (t : Tracked) × (m ≡ ok t) × IsTrackable t.finance

after_request-IsTrackable :
    (s : Services) (f : SellerFinance) (p : FinancePayment) (q : PaymentRequest)
    (r : Reply PaymentResponse)
    → payment_request f ≡ ok q
    → IsPayable f p
    → IsTrackable (after_request s f p q r)
unfolding payment_request
after_request-IsTrackable s f p q (failure e) asked payable = (
  _,
  refl,
  record {
    requestable = λ _. (q, asked);
    pollable = payable.pollable;
    complete = payable.complete;
  },
)
after_request-IsTrackable s f p q (value response) asked payable = (
  _,
  refl,
  record {
    requestable = λ _. (q, asked);
    pollable = λ _ _. (_, refl);
    complete = payable.complete;
  },
)

give_up_request-IsTrackable :
    (s : Services) (f : SellerFinance) (p : FinancePayment)
    → IsPayable f p
    → IsTrackable (give_up_request s f p)
unfolding give_up_request
give_up_request-IsTrackable s f p payable =
    (_, refl, record { requestable = λ e. cc; pollable = λ _ e. cc; complete = payable.complete })

give_up_result-IsTrackable :
    (s : Services) (f : SellerFinance) (p : FinancePayment)
    → p.status ≡ PaymentState.pending_state
    → IsPayable f p
    → IsTrackable (give_up_result s f p)
unfolding give_up_result
give_up_result-IsTrackable s f p waiting payable = (
  _,
  refl,
  record {
    requestable = λ e. absurd (pending-ne-none p waiting e);
    pollable = λ _ e. cc;
    complete = payable.complete;
  },
)

Polled-IsTrackable :
    (f g : SellerFinance) (p : FinancePayment) (r : TransferResponse)
    → p.transfer_response ≡ some r
    → Polled f g p
    → IsTrackable g
Polled-IsTrackable f g p r had polled = (
  polled.payment,
  polled.has,
  record {
    requestable = λ e. absurd (polled.started e);
    pollable = λ _ _. (r, polled.response ∙ had);
    complete = polled.complete;
  },
)

track_status-EndsTrackable :
    (st : PaymentState) (s : Services) (f : SellerFinance) (p : FinancePayment)
    → p.status ≡ st
    → p.mode ≡ PaymentMode.automatic
    → f.payment ≡ some p
    → IsPayable f p
    → EndsTrackable (track_status st s f p)
unfolding track_status
track_status-EndsTrackable PaymentState.none_state s f p st mode has payable =
    let (q, asked) = payable.requestable st in
    elim (Bool-cases (ltb_ℤ p.retry_request s.retry_request_limit)) [
      | inl more ↦ (
        save_finance (q ∷ []) (after_request s f p q (s.transfer q)),
        rw (more, asked, ◌>>=◌) refl,
        after_request-IsTrackable s f p q (s.transfer q) asked payable,
      )
      | inr ended ↦ (
        save_finance [] (give_up_request s f p),
        rw ended refl,
        give_up_request-IsTrackable s f p payable,
      )
    ]
track_status-EndsTrackable PaymentState.pending_state s f p st mode has payable =
    let (response, had) = payable.pollable st mode in
    let (g, replied, polled) =
      after_result-Polled s f p (s.transfer_result f.fid response.transfer_id) st
        payable.complete in
    elim (Bool-cases (ltb_ℤ p.retry_result s.retry_result_limit)) [
      | inl more ↦ (
        save_finance [] g,
        rw more (deref->>= p.transfer_response _ had ∙ >>=-ok (after_result s f p _) _ replied),
        Polled-IsTrackable f g p response had polled,
      )
      | inr ended ↦ (
        save_finance [] (give_up_result s f p),
        rw ended refl,
        give_up_result-IsTrackable s f p st payable,
      )
    ]
track_status-EndsTrackable _ s f p st mode has payable = (_, refl, (p, has, payable))

-- Total correctness of the tracking of one finance: where the finance has what the handler relies
-- on, the handler ends without a nil dereference, whatever the payment service answers, and leaves a
-- finance that has it again.
pub tracking-IsTrackable :
    (s : Services) (f : SellerFinance)
    → IsTrackable f
    → (t : Tracked) × (finance_payment_tracking s f ≡ ok t) × IsTrackable t.finance
tracking-IsTrackable s f (p, has, payable) =
    elim (PaymentMode-discrete p.mode PaymentMode.automatic) [
      | yes mode ↦
          let (t, ended, trackable) =
            track_status-EndsTrackable p.status s f p refl mode has payable in
          (t, finance_payment_tracking_eq s f p has mode ∙ ended, trackable)
      | no mode ↦ (_, finance_payment_tracking_manual s f p has mode, (p, has, payable))
    ]
