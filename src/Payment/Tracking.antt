-- ===== src/Payment/Tracking.antt =====
-- financePaymentTracking, automaticPaymentHandler and financeTrackingAutomaticPayment of
-- domain/scheduler/payment/paymentTrackingTask.go.
pub mod Polled
pub mod Safety
pub mod Counted
pub mod Progress
pub mod Rounds
pub mod Once
use finance_service.Base.{
  Bool, true, false, Option, none, some, String, List, [], ◌∷◌, ◌++◌, map, if◌then◌else◌,
}
use finance_service.Base.Int.{ℤ, pos, ◌+ℤ◌, ◌-ℤ◌, ltb_ℤ, eqb_ℤ, int32, int64}
use finance_service.Base.Text.{itoa}
use finance_service.Base.Outcome.{Outcome, ok, Reply, value, failure, ◌>>=◌, deref}
use finance_service.Entities.{
  Time, Money, FinanceState, PaymentState, PaymentMode, TransferResult, FinancePayment, current,
  other, SellerFinance,
}
use finance_service.Payment.Services.{
  Services, PaymentRequest, PaymentResponse, TransferMoneyResult,
}
use finance_service.Payment.Process.{payment_request, transfer_request_of, detach}
use text.Mathlib.Text.{◌==◌ as str_eq}

-- What a call of the handler leaves: the finance, the transfers that it requested, and what it
-- passed to Save.
pub record Tracked : Type 0 where
  pub finance : SellerFinance
  pub requested : List PaymentRequest
  pub saves : List SellerFinance

-- `strconv.Itoa(int(x))` as money
abbrev pub money : ℤ → String → Money
money x c = record { amount = itoa x; currency = c }

-- the reply to a transfer request of financeTrackingAutomaticPayment
abbrev pub after_request :
    Services
    → SellerFinance
    → FinancePayment
    → PaymentRequest
    → Reply PaymentResponse
    → SellerFinance
after_request s f p r (failure e) = record f {
  payment =
      some (record p { updated_at = s.clock 1; retry_request = int32 (p.retry_request +ℤ pos 1) });
  updated_at = s.clock 2;
}
after_request s f p r (value response) = record f {
  payment = some (record p {
    transfer_request = some (transfer_request_of s r);
    transfer_response =
        some (record { transfer_id = response.transfer_id; created_at = s.clock 1 });
    status = PaymentState.pending_state;
    updated_at = s.clock 1;
  });
  updated_at = s.clock 1;
}

-- Retries are used up: the payment so far is kept in a new history as failed, and the payment waits
-- for a manual transfer. `PaymentHistory` is made anew.
unfoldable pub give_up_request : Services → SellerFinance → FinancePayment → SellerFinance
give_up_request s f p =
    let kept = record p { status = PaymentState.failed_state; updated_at = s.clock 0 } in
    record f {
      payment_mode = PaymentMode.manual;
      updated_at = s.clock 0;
      payment_history = other kept ∷ [];
      payment = some (record p {
        status = PaymentState.pending_state;
        mode = PaymentMode.manual;
        updated_at = s.clock 0;
      });
    }

unfoldable pub give_up_result : Services → SellerFinance → FinancePayment → SellerFinance
give_up_result s f p = record f {
  payment_mode = PaymentMode.manual;
  updated_at = s.clock 0;
  payment_history = f.payment_history ++ (other (record p { updated_at = s.clock 0 }) ∷ []);
  payment = some (record p { mode = PaymentMode.manual; updated_at = s.clock 0 });
}

-- The amount that the code takes as transferred.
unfoldable pub success_amount : TransferMoneyResult → ℤ
success_amount r = if eqb_ℤ r.pending (pos 0) then r.total else int64 (r.total -ℤ r.pending)

-- `&TransferResult{…}` for the first result
unfoldable pub new_result : Time → TransferMoneyResult → TransferResult
unfolding success_amount
new_result t r = record {
  transfer_id = r.transfer_id;
  total_transfer = some (money r.total r.currency);
  success_transfer = some (money (success_amount r) r.currency);
  pending_transfer = some (money r.pending r.currency);
  failed_transfer = some (money r.failed r.currency);
  created_at = t;
  updated_at = t;
}

-- the four amounts of a later result are written over those of an earlier one
unfoldable pub update_result : Time → TransferMoneyResult → TransferResult → TransferResult
unfolding success_amount
update_result t r old = record old {
  total_transfer = some (money r.total r.currency);
  success_transfer = some (money (success_amount r) r.currency);
  pending_transfer = some (money r.pending r.currency);
  failed_transfer = some (money r.failed r.currency);
  updated_at = t;
}

-- `m.Amount != strconv.Itoa(int(x)) || rest`, where `rest` is evaluated only if the texts agree
abbrev pub differs_or : Option Money → ℤ → Outcome Bool → Outcome Bool
differs_or none x rest = deref none
differs_or (some m) x rest = if str_eq m.amount (itoa x) then rest else ok true

unfoldable pub is_result_changed : TransferResult → TransferMoneyResult → Outcome Bool
unfolding success_amount
is_result_changed old r = differs_or old.total_transfer r.total (
    differs_or old.success_transfer (success_amount r) (
      differs_or old.pending_transfer r.pending
        (differs_or old.failed_transfer r.failed (ok false))))

-- The result is noted; the history gets the pointer to the payment itself if the result is new.
unfoldable pub note_result :
    Time
    → TransferMoneyResult
    → SellerFinance
    → FinancePayment
    → Option TransferResult
    → Outcome SellerFinance
unfolding new_result update_result is_result_changed
note_result t r f p none = ok (record f {
  payment = some (record p { transfer_result = some (new_result t r); updated_at = t });
  payment_history = f.payment_history ++ (current ∷ []);
})
note_result t r f p (some old) = do
  changed ← is_result_changed old r
  ok (record f {
    payment = some (record p { transfer_result = some (update_result t r old); updated_at = t });
    payment_history = if changed then f.payment_history ++ (current ∷ []) else f.payment_history;
  })

-- the state of a payment whose transfer is complete
unfoldable pub final_status : TransferMoneyResult → PaymentState
final_status r =
    if eqb_ℤ r.total (pos 0)
    then PaymentState.failed_state
    else if eqb_ℤ r.failed (pos 0)
    then PaymentState.success_state
    else PaymentState.partial_state

-- The end of a round: the finance is closed, or the retry is counted.
unfoldable pub settle : TransferMoneyResult → SellerFinance → Outcome SellerFinance
unfolding final_status
settle r f = do
  p ← deref f.payment
  ok (
      if eqb_ℤ r.pending (pos 0)
      then record f {
        payment = some (record p { status = final_status r });
        status = FinanceState.closed;
      }
      else record f {
        payment = some (record p { retry_result = int32 (p.retry_result +ℤ pos 1) });
      })

unfoldable pub after_result :
    Services → SellerFinance → FinancePayment → Reply TransferMoneyResult → Outcome SellerFinance
unfolding note_result settle
after_result s f p (failure e) = ok (record f {
  payment =
      some (record p { retry_result = int32 (p.retry_result +ℤ pos 1); updated_at = s.clock 0 });
  updated_at = s.clock 0;
})
after_result s f p (value r) = do g ← note_result (s.clock 0) r f p p.transfer_result; settle r g

abbrev pub save_finance : List PaymentRequest → SellerFinance → Tracked
save_finance rs f = record { finance = f; requested = rs; saves = f ∷ [] }

-- automaticPaymentHandler by the payment's status; every path ends in one call of Save
unfoldable pub track_status :
    PaymentState → Services → SellerFinance → FinancePayment → Outcome Tracked
track_status PaymentState.none_state s f p =
    if ltb_ℤ p.retry_request s.retry_request_limit
    then (do
      r ← payment_request f
      ok (save_finance (r ∷ []) (after_request s f p r (s.transfer r))))
    else ok (save_finance [] (give_up_request s f p))
track_status PaymentState.pending_state s f p =
    if ltb_ℤ p.retry_result s.retry_result_limit
    then (do
      response ← deref p.transfer_response
      g ← after_result s f p (s.transfer_result f.fid response.transfer_id)
      ok (save_finance [] g))
    else ok (save_finance [] (give_up_result s f p))
track_status _ s f p = ok (save_finance [] f)

unfoldable pub automatic_payment_handler : Services → SellerFinance → Outcome Tracked
automatic_payment_handler s f = do p ← deref f.payment; track_status p.status s f p

-- the body of the loop of financePaymentTracking
abbrev pub by_mode : PaymentMode → Services → SellerFinance → Outcome Tracked
by_mode PaymentMode.automatic s f = automatic_payment_handler s f
by_mode _ s f = ok (record { finance = f; requested = []; saves = [] })

unfoldable pub finance_payment_tracking : Services → SellerFinance → Outcome Tracked
finance_payment_tracking s f = do p ← deref f.payment; by_mode p.mode s f

-- What Save stores of a finance, and a later search reads back: the history holds values.
unfoldable pub stored : SellerFinance → SellerFinance
stored f = record f { payment_history = map (detach f.payment) f.payment_history }

-- The finances that findPaymentPendingFinance looks for (one that is not deleted).
abbrev pub is_selected : FinanceState → PaymentMode → Bool
is_selected FinanceState.payment_process PaymentMode.automatic = true
is_selected _ _ = false

-- A run of the tracking task: the services as they then are, and whether Save writes the finance. The
-- task only logs an error of Save.
pub record Run : Type 0 where
  pub services : Services
  pub is_saved : Bool

-- The document that the next run reads.
abbrev pub next_stored : Bool → SellerFinance → Tracked → SellerFinance
next_stored true f t = stored t.finance
next_stored false f t = f

-- Successive runs of the tracking task on one finance. The finance is read back as it was stored, and a
-- finance that is not looked for stays as it is.
unfoldable pub track_run : List Run → SellerFinance → Outcome SellerFinance
track_run [] f = ok f
track_run (r ∷ rs) f =
    let next =
      finance_payment_tracking r.services f >>= λ t. track_run rs (next_stored r.is_saved f t) in
    if is_selected f.status f.payment_mode then next else ok f
