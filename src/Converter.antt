-- ===== src/Converter.antt =====
-- resolveFinanceState and resolveFinanceStat of infrastructure/converter/converterImp.go: the payment
-- status and the total that a client of the service sees of a finance.
pub mod Shown
pub mod Rows
pub mod Listed
use finance_service.Base.{Option, none, some, String}
use finance_service.Base.Outcome.{Outcome, ok, ◌>>=◌, deref}
use finance_service.Entities.{
  Money, TransferRequest, FinanceState, PaymentState, FinancePayment, SellerFinance,
}

-- The values of `paymentStatus`; `unset` is the empty text that the functions start from.
pub data PaymentStatus : Type 0 where
  unset payment_calculation payment_pending payment_succeed payment_failed payment_partial :
      PaymentStatus

unfoldable pub payment_status_text : PaymentStatus → String
payment_status_text unset = ""
payment_status_text payment_calculation = "Calculation"
payment_status_text payment_pending = "Pending"
payment_status_text payment_succeed = "Succeed"
payment_status_text payment_failed = "Failed"
payment_status_text payment_partial = "Partial"

-- the status of a closed finance
abbrev pub closed_status : PaymentState → PaymentStatus
closed_status PaymentState.success_state = payment_succeed
closed_status PaymentState.failed_state = payment_failed
closed_status PaymentState.partial_state = payment_partial
closed_status _ = unset

unfoldable pub resolve_finance_state : FinanceState → Option FinancePayment → Outcome PaymentStatus
resolve_finance_state FinanceState.order_collection p = ok payment_calculation
resolve_finance_state FinanceState.payment_process p = ok payment_pending
resolve_finance_state FinanceState.closed p = do
  payment ← deref p
  ok (closed_status payment.status)

abbrev no_money : Money
no_money = record { amount = ""; currency = "" }

abbrev request_total : Option TransferRequest → Money
request_total none = no_money
request_total (some r) = r.total_price

abbrev payment_total : Option FinancePayment → Money
payment_total none = no_money
payment_total (some p) = request_total p.transfer_request

-- the switch on item.Status of resolveFinanceStat
stat_status : FinanceState → Option FinancePayment → Outcome PaymentStatus
stat_status FinanceState.order_collection p = ok payment_calculation
stat_status FinanceState.payment_process p = ok payment_pending
stat_status FinanceState.closed p = do payment ← deref p; ok (closed_status payment.status)

unfoldable pub resolve_finance_stat : SellerFinance → Outcome (PaymentStatus × Money)
unfolding stat_status
resolve_finance_stat f = do
  status ← stat_status f.status f.payment
  ok (status, payment_total f.payment)
