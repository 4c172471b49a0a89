-- ===== src/Scheduler/Shrink.antt =====
-- updateSellerFinanceWithNewTriggerConfig of domain/scheduler/order/orderScheduler.go: the windows of
-- the open finances after a new trigger with a shorter duration has replaced the active one.
pub mod Window
use finance_service.Base.{
  ℕ, zero, suc, true, false, Option, none, some, List, [], ◌∷◌, ltb, if◌then◌else◌,
}
use finance_service.Base.Int.{ℤ, pos, ◌+ℤ◌, ◌-ℤ◌, ltb_ℤ, int64}
use finance_service.Base.Outcome.{
  Outcome, ok, err, panic, ◌>>=◌, deref, ErrorCode, not_found, Reply, value, failure,
}
use finance_service.Entities.{Time, FinanceTrigger, TimeUnit, SellerFinance}
use finance_service.Repository.Paging.{Query, available_pages, find_by_filter_with_page}
use finance_service.Scheduler.Missed.{scaled}

-- a search for the open finances of the active trigger, and Save of the finance repository
pub record ShrinkServices (S : Type 0) : Type 0 where
  pub open_finances : S → Query SellerFinance
  pub save : SellerFinance → S → Reply SellerFinance × S

-- `time.Duration(trigger.Duration) * time.Hour`, or Minute
unfoldable pub trigger_duration : FinanceTrigger → ℤ
unfolding int64
trigger_duration t = elim t.time_unit [
  | TimeUnit.hour_unit ↦ int64 (scaled 3_600_000_000_000 t.duration)
  | TimeUnit.minute_unit ↦ int64 (scaled 60_000_000_000 t.duration)
]

-- the variable newDuration: the difference of the two durations
unfoldable pub new_duration : FinanceTrigger → FinanceTrigger → ℤ
unfolding trigger_duration ◌-ℤ◌ int64
new_duration active new = int64 (trigger_duration active -ℤ trigger_duration new)

-- the finance that is saved; StartAt is dereferenced
unfoldable pub shrunk : Time → ℤ → SellerFinance → Outcome SellerFinance
shrunk timestamp duration f = do
  start ← deref f.start_at
  ok (
      let offset = timestamp -ℤ start in
      record f {
        end_at = some (if ltb_ℤ duration offset then start +ℤ offset else start +ℤ duration);
      })

abbrev pub page_error : ErrorCode → Option ErrorCode
page_error ErrorCode.not_found = none
page_error code = some code

module _ {S : Type 0} where
  abbrev pub or_return :
      Reply SellerFinance × S
      → (S → Outcome (Option ErrorCode × S))
      → Outcome (Option ErrorCode × S)
  or_return (failure code, s) go_on = ok (some code, s)
  or_return (value f, s) go_on = go_on s

  -- the loop over the finances of a page: the error that it returns with, and the state
  unfoldable pub shrink_all :
      ShrinkServices S → Time → ℤ → List SellerFinance → S → Outcome (Option ErrorCode × S)
  unfolding shrunk
  shrink_all v timestamp duration [] s = ok (none, s)
  shrink_all v timestamp duration (f ∷ fs) s = shrunk timestamp duration f >>= λ g.
      or_return (v.save g s) λ s'. shrink_all v timestamp duration fs s'

  abbrev pub or_next :
      Outcome (Option ErrorCode × S)
      → (S → Option (Outcome (Option ErrorCode × S)))
      → Option (Outcome (Option ErrorCode × S))
  or_next (ok (none, s)) next = next s
  or_next (ok (some code, s)) next = some (ok (some code, s))
  or_next (err w) next = some (err w)
  or_next panic next = some panic

  -- The loop over the pages of 128 finances. `none` means that the fuel ran out.
  unfoldable pub shrink_pages :
      ShrinkServices S → Time → ℤ → ℕ → ℕ → ℕ → S → Option (Outcome (Option ErrorCode × S))
  shrink_pages v timestamp duration zero i available s = none
  shrink_pages v timestamp duration (suc fuel) i available s = elim (ltb i available) [
    | false ↦ some (ok (none, s))
    | true ↦ elim (find_by_filter_with_page (v.open_finances s) (pos (suc i)) (pos 128)) [
      | failure code ↦ some (ok (page_error code, s))
      | value r ↦
          or_next (shrink_all v timestamp duration r.items s)
            (shrink_pages v timestamp duration fuel (suc i) (available_pages r.total_count 128))
    ]
  ]

  unfoldable pub update_seller_finance_with_new_trigger_config :
      ShrinkServices S
      → Time
      → FinanceTrigger
      → FinanceTrigger
      → ℕ
      → S
      → Option (Outcome (Option ErrorCode × S))
  unfolding new_duration shrink_pages
  update_seller_finance_with_new_trigger_config v timestamp active new fuel s =
      if ltb_ℤ (pos 0) (new_duration active new)
      then shrink_pages v timestamp (new_duration active new) fuel 0 1 s
      else some (ok (none, s))
