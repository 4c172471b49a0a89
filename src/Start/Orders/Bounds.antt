-- ===== src/Start/Orders/Bounds.antt =====
-- What the checks of main.go ensure of the order scheduler's settings.
use finance_service.Base.{◌≡◌, ◌⊎◌, true, false}
use finance_service.Base.Int.{pos, ◌≤ℤ◌, ◌<ℤ◌}
use finance_service.Entities.{TimeUnit}
use finance_service.Start.{AppConfig, in_unit}
use finance_service.Start.Orders.{OrderScheduler, not_days, shortest_interval}

-- What holds of accepted settings c and the scheduler s made of them.
pub record IsBounded (c : AppConfig) (s : OrderScheduler) : Type 0 where
  pub positive_interval : pos 0 <ℤ c.finance_order_scheduler_interval
  pub interval_above :
      shortest_interval s.finance_trigger_time_unit s.scheduler_time_unit
        c.finance_order_scheduler_interval
      ≤ℤ c.seller_finance_trigger_interval
  pub duration_above : c.seller_finance_trigger_interval ≤ℤ c.seller_finance_trigger_duration
  pub interval_scaled :
      s.finance_trigger_interval
      ≡ in_unit s.finance_trigger_time_unit c.seller_finance_trigger_interval
  pub by_unit :
      ((s.finance_trigger_time_unit ≡ TimeUnit.hour_unit)
        × (not_days c.seller_finance_trigger_interval ≡ false)
        × (not_days c.seller_finance_trigger_duration ≡ false)
        × (s.finance_trigger_duration
            ≡ in_unit TimeUnit.hour_unit c.seller_finance_trigger_duration))
      ⊎ ((s.finance_trigger_time_unit ≡ TimeUnit.minute_unit)
          × (s.scheduler_time_unit ≡ TimeUnit.minute_unit)
          × (c.seller_finance_trigger_test_mode ≡ true)
          × (s.finance_trigger_duration ≡ pos 0))
