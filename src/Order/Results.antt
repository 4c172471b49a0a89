-- ===== src/Order/Results.antt =====
-- ProcessResult, and what OrderSchedulerTask of domain/scheduler/order/orderTask.go makes of the
-- results of its pipelines.
pub mod Summary
use finance_service.Base.{
  ℕ, ◌+◌, ◌%◌, Bool, true, false, Option, none, some, String, List, [], ◌∷◌, ◌++◌,
}
use finance_service.Entities.{SellerFinance, TriggerRunMode, TriggerExecResult, TriggerHistory}

pub data FuncType : Type 0 where
  fetch_order_fn reduce_order_fn create_update_finance_fn fan_in_finance_streams_fn : FuncType

pub data ErrorType : Type 0 where
  no_error ctx_error data_error database_error order_service_error worker_pool_error : ErrorType

pub record ProcessResult : Type 0 where
  pub function : FuncType
  pub seller_finance : Option SellerFinance
  pub err_type : ErrorType
  pub result : Bool

-- `processResult.ErrType != NoError && processResult.ErrType != DataError`
abbrev pub is_fatal : ErrorType → Bool
is_fatal ErrorType.no_error = false
is_fatal ErrorType.data_error = false
is_fatal _ = true

abbrev pub fid_of : Option SellerFinance → List String
fid_of none = []
fid_of (some f) = f.fid ∷ []

-- One result: `none` is the break of the loop, else what is appended to the ids.
abbrev pub take_result : Bool → ErrorType → Option SellerFinance → Option (List String)
take_result true e f = some (fid_of f)
take_result false e f = elim (is_fatal e) [ true ↦ none | false ↦ some [] ]

-- The loop over the result stream: the ids, and isSuccessFlag.
unfoldable pub collect_results : List ProcessResult → List String → List String × Bool
collect_results [] fids = (fids, true)
collect_results (r ∷ rs) fids = elim (take_result r.result r.err_type r.seller_finance) [
  | none ↦ (fids, false)
  | some more ↦ collect_results rs (fids ++ more)
]

-- The history that is passed to Update; RetryIndex is a uint32.
unfoldable pub finish_history : TriggerHistory → List String × Bool → TriggerHistory
finish_history h (fids, true) = record h {
  exec_result = TriggerExecResult.success;
  run_mode = TriggerRunMode.complete;
  finances = fids;
}
finish_history h (fids, false) = record h {
  exec_result = TriggerExecResult.fail;
  retry_index = (h.retry_index + 1) % 4_294_967_296;
  run_mode = TriggerRunMode.complete;
  finances = fids;
}

unfoldable pub order_scheduler_history : TriggerHistory → List ProcessResult → TriggerHistory
unfolding collect_results finish_history
order_scheduler_history h rs = finish_history h (collect_results rs [])
