-- ===== src/Examples/Start.antt =====
-- Settings that main accepts.
use text.Mathlib.Text.{◌==◌ as str_eq}
use finance_service.Base.{◌≡◌, refl, true, false, none, some, [], ◌∷◌, if◌then◌else◌, arith}
use finance_service.Base.Int.{pos, int64}
use finance_service.Entities.{TimeUnit, TriggerPointType}
use finance_service.Start.{Texts, AppConfig}
use finance_service.Start.Orders.{
  OrderScheduler, order_time_unit, trigger_time_unit, shortest_interval, checked_interval,
  checked_duration, point_type, parse_time, point_offset, order_settings,
}
use finance_service.Start.Orders.Offset.{order_settings_offset}
use finance_service.Start.Payments.{
  PaymentTask, PaymentScheduler, state_config, state_list, new_payment_scheduler, payment_settings,
}

-- texts in upper case, and the two texts that the tests split
abbrev texts : Texts
texts = record {
  to_upper = λ s. s;
  split = λ s separator.
      if str_eq s "PAYMENT_PROCESS;PAYMENT_TRACKING:5"
      then "PAYMENT_PROCESS" ∷ "PAYMENT_TRACKING:5" ∷ []
      else if str_eq s "PAYMENT_TRACKING:5"
      then "PAYMENT_TRACKING" ∷ "5" ∷ []
      else s ∷ [];
  atoi = λ s. if str_eq s "5" then some (pos 5) else none;
  scan_time = λ s. record { count = pos 2; failed = false; hours = pos 13; minutes = pos 30 };
}

abbrev pub config : AppConfig
config = record {
  service_test_api_enabled = false;
  finance_payment_scheduler_time_uint = "";
  finance_payment_scheduler_interval = pos 1;
  finance_payment_scheduler_parent_worker_timeout = pos 2;
  finance_payment_scheduler_worker_timeout = pos 1;
  finance_payment_scheduler_states = "PAYMENT_PROCESS;PAYMENT_TRACKING:5";
  finance_order_scheduler_time_uint = "MINUTE";
  finance_order_scheduler_interval = pos 5;
  finance_order_scheduler_parent_worker_timeout = pos 2;
  finance_order_scheduler_worker_timeout = pos 1;
  finance_order_scheduler_update_finance_duration = true;
  finance_order_scheduler_handle_missed_fire_trigger = true;
  seller_finance_trigger_name = "daily";
  seller_finance_trigger_time_unit = "HOUR";
  seller_finance_trigger_interval = pos 24;
  seller_finance_trigger_duration = pos 48;
  seller_finance_trigger_point = "13:30";
  seller_finance_trigger_point_type = "ABSOLUTE";
  seller_finance_trigger_enabled = true;
  seller_finance_trigger_test_mode = false;
  seller_finance_default_payment_mode = "AUTOMATIC";
}

abbrev pub scheduler : OrderScheduler
scheduler = record {
  scheduler_interval = pos 300_000_000_000;
  scheduler_steward_timeout = pos 120_000_000_000;
  scheduler_worker_timeout = pos 60_000_000_000;
  finance_trigger_interval = pos 86_400_000_000_000;
  finance_trigger_offset_point = pos 0;
  finance_trigger_duration = pos 172_800_000_000_000;
  finance_trigger_point_type = TriggerPointType.absolute;
  scheduler_time_unit = TimeUnit.minute_unit;
  finance_trigger_time_unit = TimeUnit.hour_unit;
}

order_settings_test : order_settings texts config ≡ some (config, scheduler)
unfolding order_settings order_time_unit trigger_time_unit checked_interval shortest_interval
    checked_duration point_type parse_time point_offset int64
order_settings_test = refl

-- the point is half past one, and the offset is zero all the same
order_settings_offset_example : scheduler.finance_trigger_offset_point ≡ pos 0
order_settings_offset_example =
    order_settings_offset texts (λ st. omega arith) config (config, scheduler) order_settings_test

abbrev payments : PaymentScheduler
payments = record {
  states =
      record { state = PaymentTask.payment_process_state; schedule_interval = pos 60_000_000_000 }
      ∷ record {
        state = PaymentTask.payment_tracking_state;
        schedule_interval = pos 300_000_000_000;
      }
      ∷ [];
  scheduler_interval = pos 60_000_000_000;
  scheduler_steward_timeout = pos 120_000_000_000;
  scheduler_worker_timeout = pos 60_000_000_000;
}

payment_settings_test : payment_settings texts config ≡ some payments
unfolding payment_settings order_time_unit state_list state_config new_payment_scheduler int64
payment_settings_test = refl
