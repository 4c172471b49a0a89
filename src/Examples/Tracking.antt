-- ===== src/Examples/Tracking.antt =====
-- Tests and uses of the theorems on the tracking of payments and on what clients see.
use finance_service.Base.{◌≡◌, ◌≤◌, refl, some, List, [], ◌∷◌, arith, inl, true, false}
use finance_service.Base.Int.{pos, int32, ◌+ℤ◌}
use finance_service.Base.Outcome.{ErrorCode, ok, value, failure}
use finance_service.Base.Text.{itoa}
use finance_service.Entities.{FinanceState, PaymentState, FinancePayment, current, SellerFinance}
use finance_service.Payment.Services.{Services}
use finance_service.Payment.Process.{payment_request, started_payment}
use finance_service.Payment.Tracking.{
  Tracked, Run, stored, automatic_payment_handler, track_status, finance_payment_tracking,
  after_result,
}
use finance_service.Payment.Tracking.Safety.{IsTrackable, start-IsTrackable, tracking-IsTrackable}
use finance_service.Payment.Tracking.Progress.{IsLive}
use finance_service.Payment.Tracking.Rounds.{RunEnds, tracking_ends}
use finance_service.Payment.Tracking.Once.{IsStarted, accepted_by_runs, accepted_by_runs_once}
use finance_service.Converter.{resolve_finance_state}
use finance_service.Converter.Shown.{shown_result, after_result_shown}
use finance_service.Examples.Data.{whole_numbers, rial, paying, refusing, response, transferred}
use finance_service.Examples.Payment.{refused_test, start_test, invoiced, request, started, refused}

started-has_payment : IsTrackable refused
started-has_payment = start-IsTrackable refusing invoiced refused refused_test

start-IsTrackable_example : IsTrackable started
start-IsTrackable_example = start-IsTrackable paying invoiced started start_test

tracking-IsTrackable_example :
    (t : Tracked) × (finance_payment_tracking paying refused ≡ ok t) × IsTrackable t.finance
tracking-IsTrackable_example = tracking-IsTrackable paying refused started-has_payment

abbrev refused_payment : FinancePayment
refused_payment = started_payment refusing invoiced request (failure ErrorCode.internal_error)

refused-IsLive : IsLive refused refused_payment 0 0
unfolding started_payment
refused-IsLive = record { has = refl; mode = refl; waits = inl refl; requests = refl; polls = refl }

abbrev saved : Services → Run
saved s = record { services = s; is_saved = true }

-- a run that cannot save, and six that can: as many as two retries of each kind and two more need
abbrev runs : List Run
runs =
    record { services = refusing; is_saved = false }
    ∷ saved refusing
    ∷ saved refusing
    ∷ saved paying
    ∷ saved refusing
    ∷ saved refusing
    ∷ saved paying
    ∷ []

tracking_ends_example : RunEnds runs refused
unfolding started_payment
tracking_ends_example =
    tracking_ends 2 2 (omega arith) (omega arith) runs refused refused_payment 0 0
      (
        (refl, refl),
        (
          (refl, refl),
          ((refl, refl), ((refl, refl), ((refl, refl), ((refl, refl), ((refl, refl), tt))))),
        ),
      )
      started-has_payment refused-IsLive (omega arith)

accepted_by_runs_once_example :
    (accepted_by_runs runs refused ≤ 2) × (IsStarted refused → accepted_by_runs runs refused ≡ 0)
accepted_by_runs_once_example = accepted_by_runs_once runs refused

-- a run that is refused, then one that is accepted, and polls
accepted_test :
    accepted_by_runs (saved refusing ∷ saved paying ∷ saved paying ∷ saved paying ∷ []) refused ≡ 1
unfolding accepted_by_runs finance_payment_tracking started_payment stored automatic_payment_handler
    track_status payment_request int32 ◌+ℤ◌ after_result
accepted_test = refl

-- a transfer whose acceptance could not be saved is requested and accepted again
accepted_again_test :
    accepted_by_runs (record { services = paying; is_saved = false } ∷ saved paying ∷ []) refused
    ≡ 2
unfolding accepted_by_runs finance_payment_tracking started_payment stored automatic_payment_handler
    track_status payment_request int32 ◌+ℤ◌ after_result
accepted_again_test = refl

abbrev started_pay : FinancePayment
started_pay = started_payment paying invoiced request (value response)

-- the transfer was paid in full
abbrev paid : SellerFinance
paid = record started {
  status = FinanceState.closed;
  payment = some (record started_pay {
    status = PaymentState.success_state;
    transfer_result = some (record {
      transfer_id = "X";
      total_transfer = rial "11";
      success_transfer = rial "11";
      pending_transfer = rial "0";
      failed_transfer = rial "0";
      created_at = pos 30;
      updated_at = pos 30;
    });
    updated_at = pos 30;
  });
  payment_history = current ∷ [];
}

paid_test : after_result paying started started_pay (value (transferred 11 0 0)) ≡ ok paid
unfolding after_result started_payment itoa
paid_test = refl

after_result_shown_example :
    (paid.status ≡ FinanceState.closed)
    × (resolve_finance_state paid.status paid.payment ≡ ok (shown_result (transferred 11 0 0)))
after_result_shown_example =
    after_result_shown paying started paid started_pay (transferred 11 0 0) refl paid_test
