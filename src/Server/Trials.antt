-- ===== src/Server/Trials.antt =====
-- The requests of server/grpc/grpc.go that the test API serves: TestSellerFinance_OrderCollectionRequest
-- and TestSellerFinance_MoneyTransferRequest.
use text.Mathlib.Text.{◌==◌ as str_eq}
use finance_service.Base.{ℕ, Bool, true, false, Option, none, some, List, [], ◌∷◌, String}
use finance_service.Base.Outcome.{
  Outcome, ok, panic, ◌>>=◌, Reply, value, failure, bad_request, not_found, conflict,
}
use finance_service.Entities.{Time, SellerFinance}
use finance_service.Server.Messages.{FinanceMessage}
use finance_service.Server.Convert.{convert_finance_to_rpc}

-- What the requests call: the configuration, the package time, the two tasks (TestOrderTask of the order
-- scheduler, and PaymentProcessTask with what the finances are after it), and FindById.
pub record TrialSources : Type 0 where
  pub service_test_api_enabled : Bool
  pub parse_time : String → Option Time
  pub format : Time → String
  pub test_order_task : Time → Time → List ℕ → Reply (List SellerFinance)
  pub payment_process_task : Reply (Unit {0})
  pub find_by_id : String → Reply SellerFinance

abbrev pub shown : TrialSources → List SellerFinance → Outcome (Reply (List FinanceMessage))
shown s fs = do messages ← convert_finance_to_rpc s.format fs; ok (value messages)

abbrev pub show_collected :
    TrialSources → Reply (List SellerFinance) → Outcome (Reply (List FinanceMessage))
show_collected s (failure code) = ok (failure code)
show_collected s (value fs) = shown s fs

-- an empty text is not parsed
abbrev pub required_time : TrialSources → String → Option Time
required_time s t = elim (str_eq t "") [ true ↦ none | false ↦ s.parse_time t ]

abbrev pub collect :
    TrialSources → Option Time → Option Time → List ℕ → Outcome (Reply (List FinanceMessage))
collect s (some start_at) (some end_at) ids =
    show_collected s (s.test_order_task start_at end_at ids)
collect s _ _ ids = ok (failure bad_request)

unfoldable pub order_collection_request :
    TrialSources → String → String → List ℕ → Outcome (Reply (List FinanceMessage))
order_collection_request s start_at end_at ids = elim s.service_test_api_enabled [
  | false ↦ ok (failure conflict)
  | true ↦ collect s (required_time s start_at) (required_time s end_at) ids
]

-- A finance that is not found does not end the loop: the data of its answer, nil, is asserted to be a
-- finance, which panics.
abbrev pub asked_for : Reply SellerFinance → Outcome (Reply SellerFinance)
asked_for (value f) = ok (value f)
asked_for (failure not_found) = panic
asked_for (failure code) = ok (failure code)

abbrev pub add_found :
    SellerFinance → Outcome (Reply (List SellerFinance)) → Outcome (Reply (List SellerFinance))
add_found f rest = do
  answer ← rest
  elim answer [ failure code ↦ ok (failure code) | value fs ↦ ok (value (f ∷ fs)) ]

-- the loop over the ids
unfoldable pub find_each : TrialSources → List String → Outcome (Reply (List SellerFinance))
find_each s [] = ok (value [])
find_each s (fid ∷ fids) =
    let rest = find_each s fids in
    do
      answer ← asked_for (s.find_by_id fid)
      elim answer [ failure code ↦ ok (failure code) | value f ↦ add_found f rest ]

abbrev pub after_payment :
    TrialSources → List String → Reply (Unit {0}) → Outcome (Reply (List FinanceMessage))
unfolding find_each
after_payment s fids (failure code) = ok (failure code)
after_payment s fids (value done) = do
  found ← find_each s fids
  elim found [ failure code ↦ ok (failure code) | value fs ↦ shown s fs ]

unfoldable pub money_transfer_request :
    TrialSources → List String → Outcome (Reply (List FinanceMessage))
unfolding after_payment
money_transfer_request s fids = elim s.service_test_api_enabled [
  | false ↦ ok (failure conflict)
  | true ↦ after_payment s fids s.payment_process_task
]
