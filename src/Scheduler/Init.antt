-- ===== src/Scheduler/Init.antt =====
-- SchedulerInit of domain/scheduler/order/orderScheduler.go: what the order scheduler does with its
-- trigger when the service starts.
pub mod Agreed
use Prim.Native.String.{◌++◌ as str_append}
use text.Mathlib.Text.{◌==◌ as str_eq}
use finance_service.Base.{Bool, true, false, not, String, Option, none, some, if◌then◌else◌}
use finance_service.Base.Int.{ℤ, pos, ◌+ℤ◌, ltb_ℤ, eqb_ℤ}
use finance_service.Base.Outcome.{Outcome, ok, ◌>>=◌, Reply, value, failure, ErrorCode, not_found}
use finance_service.Entities.{
  Time, FinanceTrigger, TriggerPointType, TriggerType, TriggerExecMode, TriggerJobExecType,
}
use finance_service.Start.{AppConfig}
use finance_service.Start.Orders.{OrderScheduler, is_hour}

pub data InitError : Type 0 where
  init_replied : ErrorCode → InitError
  not_active time_unit_changed interval_changed point_changed point_type_changed : InitError
  -- the errors of updateSellerFinanceWithNewTriggerConfig and missedFireTriggerHandler
  windows_failed missed_failed : InitError

-- What SchedulerInit calls: the trigger repository, the handlers that Scheduler.Abandoned,
-- Scheduler.Shrink and Scheduler.Missed model (`true` is an error), and the clock and texts of the
-- package time.
pub record InitServices (S : Type 0) : Type 0 where
  pub now : Time
  pub format_date : Time → String
  pub parse_time : String → Option Time
  pub abandon_histories : S → S
  pub trigger_by_name : String → S → Reply FinanceTrigger
  pub active_trigger : S → Reply FinanceTrigger
  pub update_trigger : FinanceTrigger → S → Reply FinanceTrigger × S
  pub save_trigger : FinanceTrigger → S → Reply FinanceTrigger × S
  pub update_windows : FinanceTrigger → FinanceTrigger → S → Outcome (Bool × S)
  pub handle_missed : FinanceTrigger → S → Outcome (Bool × S)

abbrev pub is_absolute : TriggerPointType → Bool
is_absolute TriggerPointType.absolute = true
is_absolute TriggerPointType.relative = false

-- The point of the day dt, or dt where the text is no time.
abbrev pub point_of_day : {S : Type 0} → InitServices S → Option Time → Time
point_of_day v none = v.now
point_of_day v (some point) = point

abbrev pub day : ℤ
day = pos 86_400_000_000_000

-- triggerAt of a new trigger
unfoldable pub first_trigger_at :
    {S : Type 0} → InitServices S → AppConfig → OrderScheduler → TriggerPointType → Time
first_trigger_at v c o TriggerPointType.absolute =
    let text =
      str_append (v.format_date v.now)
        (str_append "T" (str_append c.seller_finance_trigger_point ":00-0000")) in
    let point = point_of_day v (v.parse_time text) in
    if ltb_ℤ point v.now then point +ℤ day else point
first_trigger_at v c o TriggerPointType.relative = v.now +ℤ o.finance_trigger_interval

-- The trigger of the settings. Its unit and the type of its point are the texts of the settings in upper
-- case, which main has read into those of the scheduler.
unfoldable pub new_trigger :
    {S : Type 0} → InitServices S → AppConfig → OrderScheduler → FinanceTrigger
unfolding first_trigger_at
new_trigger v c o = record {
  version = 0;
  doc_version = "";
  name = c.seller_finance_trigger_name;
  group = "";
  cron = "";
  duration = c.seller_finance_trigger_duration;
  interval = c.seller_finance_trigger_interval;
  time_unit = o.finance_trigger_time_unit;
  trigger_point = c.seller_finance_trigger_point;
  trigger_point_type = o.finance_trigger_point_type;
  latest_trigger_at = none;
  trigger_at = some (first_trigger_at v c o o.finance_trigger_point_type);
  type = TriggerType.seller_trigger;
  is_active = true;
  is_enable = c.seller_finance_trigger_enabled;
  test_mode = c.seller_finance_trigger_test_mode;
  exec_mode = TriggerExecMode.sequential_trigger;
  job_exec_type = TriggerJobExecType.sync_job;
  created_at = v.now;
  updated_at = v.now;
  deleted_at = none;
}

abbrev pub same_bool : Bool → Bool → Bool
same_bool true b = b
same_bool false b = not b

-- why a trigger that the database holds does not go with the settings
unfoldable pub disagreement : AppConfig → OrderScheduler → FinanceTrigger → Option InitError
disagreement c o t =
    if not t.is_active
    then some not_active
    else if not (same_bool (is_hour t.time_unit) (is_hour o.finance_trigger_time_unit))
    then some time_unit_changed
    else if not (eqb_ℤ t.interval c.seller_finance_trigger_interval)
    then some interval_changed
    else if not (str_eq t.trigger_point c.seller_finance_trigger_point)
    then some point_changed
    else if not
        (same_bool (is_absolute t.trigger_point_type) (is_absolute o.finance_trigger_point_type))
    then some point_type_changed
    else none

module _ {S : Type 0} (v : InitServices S) where
  abbrev pub missed_outcome : Bool × S → Option InitError × S
  missed_outcome (true, s) = (some missed_failed, s)
  missed_outcome (false, s) = (none, s)

  -- the missed runs, where the settings ask for them
  abbrev pub missed_if : Bool → FinanceTrigger → S → Outcome (Option InitError × S)
  missed_if false t s = ok (none, s)
  missed_if true t s = do r ← v.handle_missed t s; ok (missed_outcome r)

  abbrev pub missed_after : Bool → FinanceTrigger → Bool × S → Outcome (Option InitError × S)
  missed_after missed t (true, s) = ok (some windows_failed, s)
  missed_after missed t (false, s) = missed_if missed t s

  -- the windows of the open finances, where the settings ask for them, and the missed runs
  abbrev pub windows_if :
      Bool → Bool → FinanceTrigger → FinanceTrigger → S → Outcome (Option InitError × S)
  windows_if false missed active new s = missed_if missed active s
  windows_if true missed active new s = do
    r ← v.update_windows active new s
    missed_after missed active r

  abbrev pub after_saved :
      AppConfig → Option FinanceTrigger → Reply FinanceTrigger × S → Outcome (Option InitError × S)
  after_saved c active (failure code, s) = ok (some (init_replied code), s)
  after_saved c none (value new, s) = ok (none, s)
  after_saved c (some active) (value new, s) =
      windows_if c.finance_order_scheduler_update_finance_duration
        c.finance_order_scheduler_handle_missed_fire_trigger active new s

  abbrev pub save_new :
      AppConfig → OrderScheduler → Option FinanceTrigger → S → Outcome (Option InitError × S)
  unfolding new_trigger
  save_new c o active s = after_saved c active (v.save_trigger (new_trigger v c o) s)

  -- the trigger that was active so far, which is disabled
  abbrev pub disabled : FinanceTrigger → FinanceTrigger
  disabled t = record t { is_active = false; is_enable = false }

  abbrev pub after_disabled :
      AppConfig
      → OrderScheduler
      → FinanceTrigger
      → Reply FinanceTrigger × S
      → Outcome (Option InitError × S)
  after_disabled c o t (failure code, s) = ok (some (init_replied code), s)
  after_disabled c o t (value written, s) = save_new c o (some t) s

  abbrev pub replace :
      AppConfig → OrderScheduler → Reply FinanceTrigger → S → Outcome (Option InitError × S)
  replace c o (failure not_found) s = save_new c o none s
  replace c o (failure code) s = ok (some (init_replied code), s)
  replace c o (value t) s = after_disabled c o (disabled t) (v.update_trigger (disabled t) s)

  abbrev pub after_enabled :
      AppConfig → FinanceTrigger → Reply FinanceTrigger × S → Outcome (Option InitError × S)
  after_enabled c t (failure code, s) = ok (some (init_replied code), s)
  after_enabled c t (value written, s) =
      missed_if c.finance_order_scheduler_handle_missed_fire_trigger t s

  abbrev pub enabled_as : AppConfig → FinanceTrigger → FinanceTrigger
  enabled_as c t = record t { is_enable = c.seller_finance_trigger_enabled }

  abbrev pub keep_trigger :
      AppConfig → FinanceTrigger → Option InitError → S → Outcome (Option InitError × S)
  keep_trigger c t (some why) s = ok (some why, s)
  keep_trigger c t none s =
      if same_bool t.is_enable c.seller_finance_trigger_enabled
      then missed_if c.finance_order_scheduler_handle_missed_fire_trigger t s
      else after_enabled c (enabled_as c t) (v.update_trigger (enabled_as c t) s)

  abbrev pub init_with :
      AppConfig → OrderScheduler → Reply FinanceTrigger → S → Outcome (Option InitError × S)
  unfolding disagreement
  init_with c o (value t) s = keep_trigger c t (disagreement c o t) s
  init_with c o (failure not_found) s = replace c o (v.active_trigger s) s
  init_with c o (failure code) s = ok (some (init_replied code), s)

  -- the error that SchedulerInit returns, if any, and the database afterwards
  unfoldable pub scheduler_init : AppConfig → OrderScheduler → S → Outcome (Option InitError × S)
  unfolding init_with
  scheduler_init c o s =
      let s' = v.abandon_histories s in
      init_with c o (v.trigger_by_name c.seller_finance_trigger_name s') s'
