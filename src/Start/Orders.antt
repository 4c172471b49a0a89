-- ===== src/Start/Orders.antt =====
-- main.go: the settings of the order scheduler, and ParseTime.
pub mod Accepted
pub mod Bounds
pub mod Offset
use text.Mathlib.Text.{◌==◌ as str_eq}
use finance_service.Base.{
  Bool, true, false, not, ◌&&◌, ◌||◌, String, Option, none, some, ◌+◌, ◌%◌, ◌==◌, if◌then◌else◌,
}
use finance_service.Base.Int.{ℤ, pos, pos_part, neg_part, int64, ltb_ℤ, eqb_ℤ, quotient, ◌+ℤ◌}
use finance_service.Entities.{TimeUnit, TriggerPointType}
use finance_service.Scheduler.Missed.{scaled}
use finance_service.Start.{
  Texts, AppConfig, ◌>>=◌, ◌>>◌, exit_if, unit_text, named_unit, in_unit, positive_in,
}

-- order_scheduler.OrderScheduler
pub record OrderScheduler : Type 0 where
  pub scheduler_interval : ℤ
  pub scheduler_steward_timeout : ℤ
  pub scheduler_worker_timeout : ℤ
  pub finance_trigger_interval : ℤ
  pub finance_trigger_offset_point : ℤ
  pub finance_trigger_duration : ℤ
  pub finance_trigger_point_type : TriggerPointType
  pub scheduler_time_unit : TimeUnit
  pub finance_trigger_time_unit : TimeUnit

abbrev pub is_hour : TimeUnit → Bool
is_hour TimeUnit.hour_unit = true
is_hour TimeUnit.minute_unit = false

-- an empty name is the minute
unfoldable pub order_time_unit : Texts → String → Option TimeUnit
order_time_unit t name = if str_eq name "" then some TimeUnit.minute_unit else named_unit t name

-- an empty name is the unit of the scheduler
unfoldable pub trigger_time_unit : Texts → TimeUnit → String → Option TimeUnit
trigger_time_unit t unit name = if str_eq name "" then some unit else named_unit t name

-- `n % 24 != 0`
abbrev pub not_days : ℤ → Bool
not_days n = not ((pos_part n + neg_part n) % 24 == 0)

-- The shortest interval that a trigger may have, in its own unit: the scheduler's.
unfoldable pub shortest_interval : TimeUnit → TimeUnit → ℤ → ℤ
unfolding int64
shortest_interval TimeUnit.hour_unit TimeUnit.hour_unit n = n
shortest_interval TimeUnit.hour_unit TimeUnit.minute_unit n = quotient n (pos 60)
shortest_interval TimeUnit.minute_unit TimeUnit.hour_unit n = int64 (scaled 60 n)
shortest_interval TimeUnit.minute_unit TimeUnit.minute_unit n = n

-- OrderSchedulerTriggerInterval: the unit of the trigger, the unit and the interval of the scheduler,
-- and the setting.
unfoldable pub checked_interval : TimeUnit → TimeUnit → ℤ → ℤ → Option ℤ
unfolding shortest_interval
checked_interval trigger_unit unit n interval = do
  exit_if (not (ltb_ℤ (pos 0) interval))
  exit_if (ltb_ℤ interval (shortest_interval trigger_unit unit n))
  exit_if (is_hour trigger_unit && not_days interval)
  some (in_unit trigger_unit interval)

-- OrderSchedulerTriggerInterval and OrderSchedulerTriggerDuration after the checks of the duration: the
-- branch of the minute assigns the interval once more and leaves the duration at zero.
abbrev pub assign_duration : TimeUnit → ℤ → ℤ → ℤ → ℤ × ℤ
assign_duration TimeUnit.hour_unit interval duration assigned =
    (assigned, in_unit TimeUnit.hour_unit duration)
assign_duration TimeUnit.minute_unit interval duration assigned =
    (in_unit TimeUnit.minute_unit interval, pos 0)

unfoldable pub checked_duration : TimeUnit → ℤ → ℤ → ℤ → Option (ℤ × ℤ)
checked_duration trigger_unit interval duration assigned = do
  exit_if (not (ltb_ℤ (pos 0) duration))
  exit_if (ltb_ℤ duration interval)
  exit_if (is_hour trigger_unit && not_days duration)
  some (assign_duration trigger_unit interval duration assigned)

unfoldable pub point_type : Texts → String → Option TriggerPointType
point_type t name =
    if str_eq name ""
    then none
    else if str_eq (t.to_upper name) "ABSOLUTE"
    then some TriggerPointType.absolute
    else if str_eq (t.to_upper name) "RELATIVE"
    then some TriggerPointType.relative
    else none

-- ParseTime: the minutes, and whether the error is set.
unfoldable pub parse_time : Texts → String → ℤ × Bool
unfolding int64
parse_time t st =
    let scan = t.scan_time st in
    if scan.failed || not (eqb_ℤ scan.count (pos 3))
    then (pos 0, scan.failed)
    else (int64 (int64 (scaled 60 scan.hours) +ℤ scan.minutes), false)

-- The offset of the trigger's point, and the text that the setting has afterwards.
unfoldable pub point_offset : Texts → TriggerPointType → String → Option (ℤ × String)
unfolding parse_time
point_offset t TriggerPointType.absolute point = do
  exit_if (str_eq point "")
  exit_if (parse_time t point).1
  some (in_unit TimeUnit.minute_unit (parse_time t point).0, point)
point_offset t TriggerPointType.relative point = do exit_if (str_eq point ""); some (pos 0, "0")

-- The settings that main writes back, and the order scheduler.
unfoldable pub order_settings : Texts → AppConfig → Option (AppConfig × OrderScheduler)
unfolding order_time_unit trigger_time_unit checked_interval checked_duration point_type
    point_offset
order_settings t c = do
  unit ← order_time_unit t c.finance_order_scheduler_time_uint
  interval ← positive_in unit c.finance_order_scheduler_interval
  parent_timeout ← positive_in unit c.finance_order_scheduler_parent_worker_timeout
  timeout ← positive_in unit c.finance_order_scheduler_worker_timeout
  trigger_unit ← trigger_time_unit t unit c.seller_finance_trigger_time_unit
  exit_if (not c.seller_finance_trigger_test_mode && not (is_hour trigger_unit))
  exit_if (is_hour unit && not (is_hour trigger_unit))
  assigned ←
      checked_interval trigger_unit unit c.finance_order_scheduler_interval
        c.seller_finance_trigger_interval
  durations ←
      checked_duration trigger_unit c.seller_finance_trigger_interval
        c.seller_finance_trigger_duration assigned
  exit_if (str_eq c.seller_finance_trigger_name "")
  point ← point_type t c.seller_finance_trigger_point_type
  offset ← point_offset t point c.seller_finance_trigger_point
  some (
    record c {
      finance_order_scheduler_time_uint =
          if str_eq c.finance_order_scheduler_time_uint ""
          then unit_text unit
          else c.finance_order_scheduler_time_uint;
      seller_finance_trigger_time_unit =
          if str_eq c.seller_finance_trigger_time_unit ""
          then unit_text trigger_unit
          else c.seller_finance_trigger_time_unit;
      seller_finance_trigger_point = offset.1;
    },
    record {
      scheduler_interval = interval;
      scheduler_steward_timeout = parent_timeout;
      scheduler_worker_timeout = timeout;
      finance_trigger_interval = durations.0;
      finance_trigger_offset_point = offset.0;
      finance_trigger_duration = durations.1;
      finance_trigger_point_type = point;
      scheduler_time_unit = unit;
      finance_trigger_time_unit = trigger_unit;
    },
  )
