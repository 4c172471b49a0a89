-- ===== src/Order/Results/Summary.antt =====
-- What OrderSchedulerTask makes of the results of its pipelines.
use finance_service.Base.{
  ◌≡◌, Option, refl, ap, sym, ◌∙◌, subst, ◌&&◌, Bool, true, false, not, some, none, String, List,
  [], ◌∷◌, ◌++◌, if◌then◌else◌,
}
use finance_service.Entities.{SellerFinance, TriggerHistory, TriggerExecResult, TriggerRunMode}
use finance_service.Order.Results.{
  ErrorType, ProcessResult, fid_of, take_result, collect_results, finish_history,
  order_scheduler_history,
}
use mathlib.Core.List.{append_assoc, append-nil}

-- the kinds of failure that end a run: of the context, the order service, the database or the worker pool
abbrev pub breaks : ErrorType → Bool
breaks ErrorType.no_error = false
breaks ErrorType.data_error = false
breaks ErrorType.ctx_error = true
breaks ErrorType.database_error = true
breaks ErrorType.order_service_error = true
breaks ErrorType.worker_pool_error = true

abbrev pub is_break : ProcessResult → Bool
is_break r = not r.result && breaks r.err_type

-- the results before the first such failure, and whether there is one
abbrev pub before_break : List ProcessResult → List ProcessResult
before_break [] = []
before_break (r ∷ rs) = let rest = before_break rs in if is_break r then [] else r ∷ rest

abbrev pub has_break : List ProcessResult → Bool
has_break [] = false
has_break (r ∷ rs) = let rest = has_break rs in if is_break r then true else rest

abbrev pub named_finance : Option SellerFinance → List String
named_finance none = []
named_finance (some f) = f.fid ∷ []

fid_of-named_finance : (f : Option SellerFinance) → fid_of f ≡ named_finance f
fid_of-named_finance none = refl
fid_of-named_finance (some f) = refl

-- the ids of the finances of the successful results
abbrev pub fids_of : List ProcessResult → List String
fids_of [] = []
fids_of (r ∷ rs) = (if r.result then named_finance r.seller_finance else []) ++ fids_of rs

collect_results_eq :
    (rs : List ProcessResult) (fids : List String)
    → collect_results rs fids ≡ (fids ++ fids_of (before_break rs), not (has_break rs))
unfolding collect_results
collect_results_eq [] fids = λ k. (sym (append-nil fids) k, true)
collect_results_eq (r ∷ rs) fids =
    go r.result r.err_type r.seller_finance (collect_results_eq rs) ∙ λ k.
    (fids ++ sym (fids_of_if (is_break r)) k, not (has_break (r ∷ rs)))
  where
    fids_of_if :
        (b : Bool)
        → fids_of (if b then [] else r ∷ before_break rs)
          ≡ (if b then [] else fids_of (r ∷ before_break rs))
    fids_of_if true = refl
    fids_of_if false = refl

    go :
        (b : Bool) (e : ErrorType) (f : Option SellerFinance)
        → ((xs : List String)
            → collect_results rs xs ≡ (xs ++ fids_of (before_break rs), not (has_break rs)))
        → ◌≡◌ {A = List String × Bool}
            (elim (take_result b e f) [
              | none ↦ (fids, false)
              | some more ↦ collect_results rs (fids ++ more)
            ])
            (
              fids
                  ++ (if not b && breaks e
                      then []
                      else (if b then named_finance f else []) ++ fids_of (before_break rs)),
              not (if not b && breaks e then true else has_break rs),
            )
    go true e f rest =
        ap (λ t. collect_results rs (fids ++ t)) (fid_of-named_finance f)
        ∙ rest (fids ++ named_finance f)
        ∙ λ k.
            (append_assoc fids (named_finance f) (fids_of (before_break rs)) k, not (has_break rs))
    go false ErrorType.no_error f rest = rest (fids ++ []) ∙ λ k.
        (append-nil fids k ++ fids_of (before_break rs), not (has_break rs))
    go false ErrorType.data_error f rest = rest (fids ++ []) ∙ λ k.
        (append-nil fids k ++ fids_of (before_break rs), not (has_break rs))
    go false ErrorType.ctx_error f rest = λ k. (sym (append-nil fids) k, false)
    go false ErrorType.database_error f rest = λ k. (sym (append-nil fids) k, false)
    go false ErrorType.order_service_error f rest = λ k. (sym (append-nil fids) k, false)
    go false ErrorType.worker_pool_error f rest = λ k. (sym (append-nil fids) k, false)

finish_history_lem :
    (h : TriggerHistory) (fids : List String) (failed : Bool)
    → let g = finish_history h (fids, not failed) in
      (g.finances ≡ fids)
      × (g.run_mode ≡ TriggerRunMode.complete)
      × (g.exec_result ≡ (if failed then TriggerExecResult.fail else TriggerExecResult.success))
unfolding finish_history
finish_history_lem h fids true = (refl, refl, refl)
finish_history_lem h fids false = (refl, refl, refl)

-- The history that is updated is complete; it succeeded exactly if no result is a failure of the
-- context, of the order service, of the database or of the worker pool; and it names the finances of the successful results before
-- the first such failure, in order.
pub order_scheduler_history_lem :
    (h : TriggerHistory) (rs : List ProcessResult)
    → let g = order_scheduler_history h rs in
      (g.finances ≡ fids_of (before_break rs))
      × (g.run_mode ≡ TriggerRunMode.complete)
      × (g.exec_result
          ≡ (if has_break rs then TriggerExecResult.fail else TriggerExecResult.success))
unfolding order_scheduler_history
order_scheduler_history_lem h rs =
    subst
      (λ p.
        let g = finish_history h p in
        (g.finances ≡ fids_of (before_break rs))
        × (g.run_mode ≡ TriggerRunMode.complete)
        × (g.exec_result
            ≡ (if has_break rs then TriggerExecResult.fail else TriggerExecResult.success)))
      (sym (collect_results_eq rs []))
      (finish_history_lem h (fids_of (before_break rs)) (has_break rs))
