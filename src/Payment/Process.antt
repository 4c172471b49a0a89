-- ===== src/Payment/Process.antt =====
-- ExecutePipeline, financeTriggerValidation and financeStartPaymentProcess of
-- domain/scheduler/payment/paymentProcessTask.go.
pub mod Stored
pub mod Requested
use Prim.Native.String.{◌++◌ as str_append}
use finance_service.Base.{Option, none, some, List, [], ◌∷◌, map}
use finance_service.Base.Int.{pos, int64}
use finance_service.Base.Text.{itoa}
use finance_service.Base.Outcome.{
  Outcome, ok, err, panic, history_not_successful, replied, Reply, value, failure, ◌>>=◌, ◌>>◌,
  deref,
}
use finance_service.Entities.{
  SellerProfile, OrderInfo, FinanceState, PaymentState, PaymentMode, TransferRequest,
  FinancePayment, PaymentRef, current, other, SellerFinance, TriggerExecResult, TriggerHistory,
}
use finance_service.Decimals.{Decimals}
use finance_service.Payment.Services.{
  Services, PaymentRequest, PaymentResponse, seller_payment, payment_type_text,
}
use finance_service.Payment.Invoice.{finance_invoice_calculation}

-- The `PaymentRequest{…}` of financeStartPaymentProcess and of financeTrackingAutomaticPayment:
-- invoice, share total and the seller's data are dereferenced with no test.
unfoldable pub payment_request : SellerFinance → Outcome PaymentRequest
payment_request f = do
  invoice ← deref f.invoice
  share ← deref invoice.share_roundup_total
  info ← deref f.seller_info
  general ← deref info.general_info
  finance ← deref info.finance_data
  ok (record {
    fid = f.fid;
    seller_id = f.seller_id;
    amount = share.amount;
    currency = share.currency;
    receiver_name = general.shop_display_name;
    receiver_account_id = finance.iban;
    payment_description = str_append f.fid "-bazlia";
    payment_type = seller_payment;
  })

-- The `TransferRequest{…}` that is kept for a payment request sent at some time.
unfoldable pub transfer_request_of : Services → PaymentRequest → TransferRequest
unfolding payment_type_text
transfer_request_of s r = record {
  total_price = record { amount = r.amount; currency = r.currency };
  receiver_name = r.receiver_name;
  receiver_account_id = r.receiver_account_id;
  payment_description = r.payment_description;
  transfer_type = payment_type_text seller_payment;
  created_at = s.clock 0;
}

-- An object that `Payment` no longer points to stays in the history.
abbrev pub detach : Option FinancePayment → PaymentRef → PaymentRef
detach (some p) current = other p
detach _ r = r

-- The payment after the reply of the payment service.
unfoldable pub started_payment :
    Services → SellerFinance → PaymentRequest → Reply PaymentResponse → FinancePayment
unfolding transfer_request_of
started_payment s f r (failure e) = record {
  transfer_request = none;
  transfer_response = none;
  transfer_result = none;
  status = PaymentState.none_state;
  mode = f.payment_mode;
  action = none;
  retry_request = pos 0;
  retry_result = pos 0;
  created_at = s.clock 0;
  updated_at = s.clock 1;
}
started_payment s f r (value response) = record {
  transfer_request = some (transfer_request_of s r);
  transfer_response = some (record { transfer_id = response.transfer_id; created_at = s.clock 1 });
  transfer_result = none;
  status = PaymentState.pending_state;
  mode = f.payment_mode;
  action = none;
  retry_request = pos 0;
  retry_result = pos 0;
  created_at = s.clock 0;
  updated_at = s.clock 1;
}

unfoldable pub finance_start_payment_process : Services → SellerFinance → Outcome SellerFinance
unfolding payment_request started_payment
finance_start_payment_process s f = do
  request ← payment_request f
  ok (record f {
    status = FinanceState.payment_process;
    payment = some (started_payment s f request (s.transfer request));
    payment_history = map (detach f.payment) f.payment_history;
    updated_at = s.clock 1;
  })

-- One round of the loop of financeTriggerValidation: the history of an order info, found by the id
-- that the info points to, must have succeeded.
abbrev pub is_success : TriggerExecResult → Outcome (Unit {0})
is_success TriggerExecResult.success = ok tt
is_success _ = err history_not_successful

abbrev pub check_history : Reply TriggerHistory → Outcome (Unit {0})
check_history (failure e) = err (replied e)
check_history (value h) = is_success h.exec_result

unfoldable pub finance_trigger_validation : Services → List OrderInfo → Outcome (Unit {0})
finance_trigger_validation s [] = ok tt
finance_trigger_validation s (i ∷ is) = do
  id ← deref i.trigger_history_id
  check_history (s.history id)
  finance_trigger_validation s is

-- What a round of ExecutePipeline does with a finance: it is passed over, refused by Save, or saved
-- and sent on as Save returns it.
pub data Processed : Type 0 where
  skipped : Processed
  unsaved : SellerFinance → Processed
  saved : SellerFinance → SellerFinance → Processed

abbrev pub store : SellerFinance → Reply SellerFinance → Processed
store f (failure e) = unsaved f
store f (value g) = saved f g

-- `if err := …; err != nil { …; continue }`
abbrev pub or_skip : {A : Type 0} → Outcome A → (A → Outcome Processed) → Outcome Processed
or_skip (ok a) k = k a
or_skip (err e) k = ok skipped
or_skip panic k = panic

-- `if sellerFinance.SellerInfo == nil { … }`
abbrev pub with_profile : Option SellerProfile → Reply SellerProfile → Outcome SellerProfile
with_profile (some p) r = ok p
with_profile none (failure e) = err (replied e)
with_profile none (value p) = ok p

-- `if sellerFinance.PaymentMode == AutomaticPaymentMode { financeStartPaymentProcess(…) }`
unfoldable pub start_if_automatic : Services → PaymentMode → SellerFinance → Outcome SellerFinance
start_if_automatic s PaymentMode.automatic f = finance_start_payment_process s f
start_if_automatic s _ f = ok f

module _ (D : Type 0) ⦃d : Decimals D⦄ where
  unfoldable pub execute_pipeline : Services → SellerFinance → Outcome Processed
  execute_pipeline s f =
      or_skip (with_profile f.seller_info (s.profile (itoa (int64 (pos f.seller_id))))) λ p.
        let f = record f { seller_info = some p } in
        or_skip (finance_trigger_validation s f.orders_info) λ _.
          or_skip (finance_invoice_calculation D f)
            λ g. start_if_automatic s g.payment_mode g >>= λ h. ok (store h (s.save h))
