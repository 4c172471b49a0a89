-- ===== src/Converter/Shown.antt =====
-- What is shown of a finance whose transfer's result was read.
use finance_service.Base.{◌≡◌, refl, ap, subst, true, some, if◌then◌else◌, arith}
use finance_service.Base.Int.{pos, eqb_ℤ}
use finance_service.Base.Outcome.{ok, ◌>>=◌, value, deref, >>=-eq-ok, ok-injective}
use finance_service.Entities.{FinanceState, FinancePayment, SellerFinance}
use finance_service.Payment.Services.{Services, TransferMoneyResult}
use finance_service.Payment.Tracking.{note_result, settle, final_status, after_result}
use finance_service.Converter.{
  PaymentStatus, payment_succeed, payment_failed, payment_partial, closed_status,
  resolve_finance_state, resolve_finance_stat,
}

-- the status that the amounts of a complete transfer call for
abbrev pub shown_result : TransferMoneyResult → PaymentStatus
shown_result r =
    if eqb_ℤ r.total (pos 0)
    then payment_failed
    else if eqb_ℤ r.failed (pos 0)
    then payment_succeed
    else payment_partial

closed_status-final_status :
    (r : TransferMoneyResult) → closed_status (final_status r) ≡ shown_result r
unfolding final_status
closed_status-final_status r = ground arith

settle_shown :
    (r : TransferMoneyResult) (f g : SellerFinance)
    → eqb_ℤ r.pending (pos 0) ≡ true
    → settle r f ≡ ok g
    → (g.status ≡ FinanceState.closed)
      × (resolve_finance_state g.status g.payment ≡ ok (shown_result r))
unfolding settle resolve_finance_state
settle_shown r f g done h =
    let (p, _, last) = >>=-eq-ok (deref f.payment) _ h in
    let closed = record f {
      payment = some (record p { status = final_status r });
      status = FinanceState.closed;
    } in
    subst
      (λ (x : SellerFinance).
        (x.status ≡ FinanceState.closed)
        × (resolve_finance_state x.status x.payment ≡ ok (shown_result r)))
      (ok-injective (rw done at last)) (refl, ap ok (closed_status-final_status r))

-- Where a poll's reply says that nothing is pending and the handler of the reply succeeds, the finance
-- is closed, and a client sees it as failed if the total is zero, else as succeeded if the failed
-- amount is zero, else as partly paid.
pub after_result_shown :
    (s : Services) (f g : SellerFinance) (p : FinancePayment) (r : TransferMoneyResult)
    → eqb_ℤ r.pending (pos 0) ≡ true
    → after_result s f p (value r) ≡ ok g
    → (g.status ≡ FinanceState.closed)
      × (resolve_finance_state g.status g.payment ≡ ok (shown_result r))
unfolding after_result
after_result_shown s f g p r done h =
    let (noted, _, settled) = >>=-eq-ok (note_result (s.clock 0) r f p p.transfer_result) _ h in
    settle_shown r noted g done settled

-- The list of finances and the items of a finance show the same payment status of a finance, and where
-- one of the two panics so does the other.
pub resolve_finance_stat-state :
    (f : SellerFinance)
    → (resolve_finance_stat f >>= λ x. ok x.0) ≡ resolve_finance_state f.status f.payment
unfolding resolve_finance_stat resolve_finance_state
resolve_finance_stat-state f = ground arith
