-- ===== src/Server/Convert/Read/Payments.antt =====
-- What the message of a payment tells, and the same of the payment; times are shown as texts.
use text.Mathlib.Text.{◌==◌ as str_eq}
use finance_service.Base.{◌≡◌, refl, sym, ap, ◌∙◌, subst, Option, none, some, String, if◌then◌else◌}
use finance_service.Base.Outcome.{ok, optional, >>=-eq-ok, ok-injective}
use finance_service.Entities.{
  Time, Money, FinanceState, PaymentState, TransferRequest, TransferResponse, TransferResult,
  FinancePayment,
}
use finance_service.Server.Messages.{
  TransferRequestMessage, TransferResponseMessage, TransferResultMessage, PaymentMessage,
}
use finance_service.Server.Convert.Items.{convert_pointed_money}
use finance_service.Server.Convert.{
  finance_state_text, payment_state_text, convert_optional_request, convert_response,
  convert_result, convert_payment, convert_pointed_time,
}
use finance_service.Server.Convert.Read.{decode_money, decode_optional}
use finance_service.Server.Convert.Read.Items.{pointed_money}

-- the state of a finance that a text names, and that of a payment
unfoldable pub finance_state_of : String → Option FinanceState
finance_state_of text =
    if str_eq text "ORDER_COLLECTION"
    then some FinanceState.order_collection
    else if str_eq text "PAYMENT_PROCESS"
    then some FinanceState.payment_process
    else if str_eq text "CLOSED"
    then some FinanceState.closed
    else none

unfoldable pub payment_state_of : String → Option PaymentState
payment_state_of text =
    if str_eq text "NONE"
    then some PaymentState.none_state
    else if str_eq text "SUCCESS"
    then some PaymentState.success_state
    else if str_eq text "FAILED"
    then some PaymentState.failed_state
    else if str_eq text "PENDING"
    then some PaymentState.pending_state
    else if str_eq text "PARTIAL_PAYED"
    then some PaymentState.partial_state
    else none

pub record RequestView : Type 0 where
  pub total_price : Money
  pub receiver_name : String
  pub receiver_account_id : String
  pub payment_description : String
  pub transfer_type : String
  pub created_at : String

-- a result's message does not show its total
pub record ResultView : Type 0 where
  pub transfer_id : String
  pub success_transfer : Option Money
  pub pending_transfer : Option Money
  pub failed_transfer : Option Money
  pub created_at : String
  pub updated_at : String

pub record PaymentView : Type 0 where
  pub request : Option RequestView
  pub response : Option (String × String)
  pub result : Option ResultView
  pub state : Option PaymentState
  pub created_at : String
  pub updated_at : String

abbrev decode_request : TransferRequestMessage → RequestView
decode_request r = record {
  total_price = decode_money r.total_price;
  receiver_name = r.receiver_name;
  receiver_account_id = r.receiver_account_id;
  payment_description = r.payment_description;
  transfer_type = r.transfer_type;
  created_at = r.created_at;
}

abbrev decode_response : TransferResponseMessage → String × String
decode_response r = (r.transfer_id, r.created_at)

abbrev decode_result : TransferResultMessage → ResultView
decode_result r = record {
  transfer_id = r.transfer_id;
  success_transfer = some (decode_money r.success_transfer);
  pending_transfer = some (decode_money r.pending_transfer);
  failed_transfer = some (decode_money r.failed_transfer);
  created_at = r.created_at;
  updated_at = r.updated_at;
}

unfoldable pub decode_payment : PaymentMessage → PaymentView
decode_payment p = record {
  request = decode_optional decode_request p.transfer_request;
  response = decode_optional decode_response p.transfer_response;
  result = decode_optional decode_result p.transfer_result;
  state = payment_state_of p.seller_transfer_state;
  created_at = p.created_at;
  updated_at = p.updated_at;
}

module _ (format : Time → String) where
  abbrev request_view : TransferRequest → RequestView
  request_view r = record {
    total_price = r.total_price;
    receiver_name = r.receiver_name;
    receiver_account_id = r.receiver_account_id;
    payment_description = r.payment_description;
    transfer_type = r.transfer_type;
    created_at = format r.created_at;
  }

  abbrev response_view : TransferResponse → String × String
  response_view r = (r.transfer_id, format r.created_at)

  abbrev result_view : TransferResult → ResultView
  result_view r = record {
    transfer_id = r.transfer_id;
    success_transfer = r.success_transfer;
    pending_transfer = r.pending_transfer;
    failed_transfer = r.failed_transfer;
    created_at = format r.created_at;
    updated_at = format r.updated_at;
  }

  unfoldable pub payment_view : FinancePayment → PaymentView
  payment_view p = record {
    request = decode_optional request_view p.transfer_request;
    response = decode_optional response_view p.transfer_response;
    result = decode_optional result_view p.transfer_result;
    state = some p.status;
    created_at = format p.created_at;
    updated_at = format p.updated_at;
  }

  -- A time behind a pointer that was not nil.
  pub pointed_time :
      (o : Option Time) (m : String)
      → convert_pointed_time format o ≡ ok m
      → some m ≡ decode_optional format o
  pointed_time none m h = cc
  pointed_time (some t) m h = ap (λ x. some x) (sym (ok-injective h))

  request_back :
      (o : Option TransferRequest)
      → decode_optional decode_request (convert_optional_request format o)
        ≡ decode_optional request_view o
  request_back none = refl
  request_back (some r) = refl

  response_back :
      (o : Option TransferResponse)
      → decode_optional decode_response (convert_response format o)
        ≡ decode_optional response_view o
  response_back none = refl
  response_back (some r) = refl

  result_back :
      (r : TransferResult) (m : TransferResultMessage)
      → convert_result format r ≡ ok m
      → decode_result m ≡ result_view r
  unfolding convert_result
  result_back r m h =
      let (success, e1, h1) = >>=-eq-ok (convert_pointed_money r.success_transfer) _ h in
      let (pending, e2, h2) = >>=-eq-ok (convert_pointed_money r.pending_transfer) _ h1 in
      let (failed, e3, last) = >>=-eq-ok (convert_pointed_money r.failed_transfer) _ h2 in
      subst (λ x. decode_result x ≡ result_view r) (ok-injective last)
        (rw
          (
            pointed_money r.success_transfer success e1,
            pointed_money r.pending_transfer pending e2,
            pointed_money r.failed_transfer failed e3,
          )
          refl)

  optional_result_back :
      (o : Option TransferResult) (m : Option TransferResultMessage)
      → optional (convert_result format) o ≡ ok m
      → decode_optional decode_result m ≡ decode_optional result_view o
  optional_result_back none m h = ap (decode_optional decode_result) (sym (ok-injective h))
  optional_result_back (some r) m h =
      let (x, e, last) = >>=-eq-ok (convert_result format r) _ h in
      ap (decode_optional decode_result) (sym (ok-injective last)) ∙ ap some (result_back r x e)

  state_back : (st : PaymentState) → payment_state_of (payment_state_text st) ≡ some st
  unfolding payment_state_of payment_state_text
  state_back PaymentState.none_state = refl
  state_back PaymentState.success_state = refl
  state_back PaymentState.failed_state = refl
  state_back PaymentState.pending_state = refl
  state_back PaymentState.partial_state = refl

  -- The message of a payment reads as the payment.
  pub payment_back :
      (p : FinancePayment) (m : PaymentMessage)
      → convert_payment format p ≡ ok m
      → decode_payment m ≡ payment_view p
  unfolding convert_payment decode_payment payment_view
  payment_back p m h =
      let (result, e, last) = >>=-eq-ok (optional (convert_result format) p.transfer_result) _ h in
      subst (λ x. decode_payment x ≡ payment_view p) (ok-injective last)
        (rw
          (
            request_back p.transfer_request,
            response_back p.transfer_response,
            optional_result_back p.transfer_result result e,
            state_back p.status,
          )
          refl)

-- The text of a finance's state names it.
pub finance_state_back : (st : FinanceState) → finance_state_of (finance_state_text st) ≡ some st
unfolding finance_state_of finance_state_text
finance_state_back FinanceState.order_collection = refl
finance_state_back FinanceState.payment_process = refl
finance_state_back FinanceState.closed = refl
