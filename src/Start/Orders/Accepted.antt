-- ===== src/Start/Orders/Accepted.antt =====
-- The choices behind settings that main.go accepts: every check of the order scheduler's settings passed.
use text.Mathlib.Text.{◌==◌ as str_eq}
use finance_service.Base.{◌≡◌, refl, subst, String, not, ◌&&◌, false, some}
use finance_service.Base.Int.{ℤ}
use finance_service.Base.Outcome.{some-injective}
use finance_service.Entities.{TriggerPointType}
use finance_service.Start.{Texts, AppConfig, >>=-eq-some, exit_if->>, positive_in}
use finance_service.Start.Orders.{
  OrderScheduler, is_hour, order_time_unit, trigger_time_unit, checked_interval, checked_duration,
  point_type, point_offset, order_settings,
}

pub record Accepted (t : Texts) (c : AppConfig) (s : OrderScheduler) : Type 0 where
  pub assigned : ℤ
  pub point : TriggerPointType
  pub offset : ℤ × String
  pub interval_positive :
      positive_in s.scheduler_time_unit c.finance_order_scheduler_interval
      ≡ some s.scheduler_interval
  pub minutes_tested :
      not c.seller_finance_trigger_test_mode && not (is_hour s.finance_trigger_time_unit) ≡ false
  pub units_agree :
      is_hour s.scheduler_time_unit && not (is_hour s.finance_trigger_time_unit) ≡ false
  pub interval_assigned :
      checked_interval s.finance_trigger_time_unit s.scheduler_time_unit
        c.finance_order_scheduler_interval c.seller_finance_trigger_interval
      ≡ some assigned
  pub duration_assigned :
      checked_duration s.finance_trigger_time_unit c.seller_finance_trigger_interval
        c.seller_finance_trigger_duration assigned
      ≡ some (s.finance_trigger_interval, s.finance_trigger_duration)
  pub offset_found : point_offset t point c.seller_finance_trigger_point ≡ some offset
  pub offset_taken : s.finance_trigger_offset_point ≡ offset.0

pub order_settings-Accepted :
    (t : Texts) (c : AppConfig) (result : AppConfig × OrderScheduler)
    → order_settings t c ≡ some result
    → Accepted t c result.1
unfolding order_settings
order_settings-Accepted t c result h =
    let (unit, _, h1) = >>=-eq-some (order_time_unit t c.finance_order_scheduler_time_uint) _ h in
    let (interval, hi, h2) =
      >>=-eq-some (positive_in unit c.finance_order_scheduler_interval) _ h1 in
    let (parent, _, h3) =
      >>=-eq-some (positive_in unit c.finance_order_scheduler_parent_worker_timeout) _ h2 in
    let (timeout, _, h4) =
      >>=-eq-some (positive_in unit c.finance_order_scheduler_worker_timeout) _ h3 in
    let (trigger_unit, _, h5) =
      >>=-eq-some (trigger_time_unit t unit c.seller_finance_trigger_time_unit) _ h4 in
    let (tested, h6) =
      exit_if->> (not c.seller_finance_trigger_test_mode && not (is_hour trigger_unit)) _ h5 in
    let (hours, h7) = exit_if->> (is_hour unit && not (is_hour trigger_unit)) _ h6 in
    let (assigned, ha, h8) =
      >>=-eq-some
        (checked_interval trigger_unit unit c.finance_order_scheduler_interval
          c.seller_finance_trigger_interval)
        _ h7 in
    let (durations, hd, h9) =
      >>=-eq-some
        (checked_duration trigger_unit c.seller_finance_trigger_interval
          c.seller_finance_trigger_duration assigned)
        _ h8 in
    let (_, h10) = exit_if->> (str_eq c.seller_finance_trigger_name "") _ h9 in
    let (point, _, h11) = >>=-eq-some (point_type t c.seller_finance_trigger_point_type) _ h10 in
    let (offset, ho, h12) =
      >>=-eq-some (point_offset t point c.seller_finance_trigger_point) _ h11 in
    subst (λ (x : AppConfig × OrderScheduler). Accepted t c x.1) (some-injective h12)
      (record {
        assigned = assigned;
        point = point;
        offset = offset;
        interval_positive = hi;
        minutes_tested = tested;
        units_agree = hours;
        interval_assigned = ha;
        duration_assigned = hd;
        offset_found = ho;
        offset_taken = refl;
      })
