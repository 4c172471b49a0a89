-- ===== src/Scheduler.antt =====
-- doProcess of domain/scheduler/order/orderScheduler.go: one tick of the order scheduler.
pub mod Fires
pub mod Once
pub mod Missed
pub mod Abandoned
pub mod Shrink
pub mod Init
use Prim.Native.String.{◌++◌ as str_append}
use finance_service.Base.{Bool, true, false, not, String, Option, none, some, [], if◌then◌else◌}
use finance_service.Base.Int.{ℤ, pos, ◌+ℤ◌, ltb_ℤ}
use finance_service.Base.Outcome.{Outcome, ok, ◌>>=◌, deref, Reply, value, failure}
use finance_service.Entities.{
  Time, FinanceTrigger, TriggerPointType, TriggerHistory, TriggerRunMode, TriggerExecResult,
}
use finance_service.Repository.Triggers.{TriggerDatabase, find_by_name, update, save_history}

-- What doProcess reads besides the database: the clock at its two calls of time.Now, the formatting
-- and parsing of times of the package time, and the configuration.
pub record SchedulerEnv : Type 0 where
  pub timestamp : Time
  pub update_time : Time
  pub format_date : Time → String
  pub parse_time : String → Option Time
  pub finance_trigger_name : String
  pub finance_trigger_interval : ℤ

abbrev pub or_else : Option Time → Time → Time
or_else (some t) d = t
or_else none d = d

-- `timestamp.Format("2006-01-02") + "T" + trigger.TriggerPoint + ":00-0000"`
abbrev pub point_text : SchedulerEnv → Time → FinanceTrigger → String
point_text e day t =
    str_append (e.format_date day) (str_append "T" (str_append t.trigger_point ":00-0000"))

abbrev pub next_trigger_at : SchedulerEnv → FinanceTrigger → TriggerPointType → Time
next_trigger_at e t TriggerPointType.absolute =
    or_else (e.parse_time (point_text e e.timestamp t)) e.timestamp +ℤ e.finance_trigger_interval
next_trigger_at e t TriggerPointType.relative = e.timestamp +ℤ e.finance_trigger_interval

abbrev pub fired : SchedulerEnv → FinanceTrigger → FinanceTrigger
fired e t = record t {
  latest_trigger_at = t.trigger_at;
  trigger_at = some (next_trigger_at e t t.trigger_point_type);
}

-- the `TriggerHistory{…}` of a run; the fields that the literal leaves out are zero values
abbrev pub new_history : SchedulerEnv → FinanceTrigger → TriggerHistory
new_history e t = record {
  id = 0;
  trigger_name = t.name;
  version = 0;
  doc_version = "";
  exec_result = TriggerExecResult.none_result;
  run_mode = TriggerRunMode.running;
  triggered_at = t.trigger_at;
  is_missed_fire = false;
  action = none;
  action_history = [];
  retry_index = 0;
  finances = [];
  created_at = e.timestamp;
  updated_at = e.timestamp;
  deleted_at = none;
}

module _ {S : Type 0} where
  -- what Save of the history answers: the history that OrderSchedulerTask is called with
  abbrev pub run_started : Reply TriggerHistory × S → Option TriggerHistory × S
  run_started (failure code, s) = (none, s)
  run_started (value h, s) = (some h, s)

  abbrev pub start_run :
      TriggerDatabase S → TriggerHistory → Reply FinanceTrigger × S → Option TriggerHistory × S
  start_run db h (failure code, s) = (none, s)
  start_run db h (value t, s) = run_started (save_history db h s)

  -- The rest of doProcess for the trigger that was read: the history that OrderSchedulerTask is
  -- called with, or nothing. A trigger with no TriggerAt is dereferenced.
  unfoldable pub fire :
      SchedulerEnv → TriggerDatabase S → FinanceTrigger → S → Outcome (Option TriggerHistory × S)
  fire e db t s = if not t.is_enable then ok (none, s) else (do
    at ← deref t.trigger_at
    ok (
        if ltb_ℤ e.timestamp at
        then (none, s)
        else start_run db (new_history e t) (update db e.update_time (fired e t) s)))

  abbrev pub fire_found :
      SchedulerEnv
      → TriggerDatabase S
      → Reply FinanceTrigger
      → S
      → Outcome (Option TriggerHistory × S)
  fire_found e db (failure code) s = ok (none, s)
  fire_found e db (value t) s = fire e db t s

  unfoldable pub do_process :
      SchedulerEnv → TriggerDatabase S → S → Outcome (Option TriggerHistory × S)
  do_process e db s = fire_found e db (find_by_name db e.finance_trigger_name s) s
