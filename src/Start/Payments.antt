-- ===== src/Start/Payments.antt =====
-- main.go: the settings of the payment scheduler, with NewPaymentScheduler of
-- domain/scheduler/payment/paymentScheduler.go.
pub mod Intervals
use text.Mathlib.Text.{◌==◌ as str_eq}
use finance_service.Base.{String, Option, none, some, List, [], ◌∷◌, map, if◌then◌else◌}
use finance_service.Base.Int.{ℤ, pos, eqb_ℤ}
use finance_service.Entities.{TimeUnit}
use finance_service.Start.{◌>>◌, check_payment_mode, Texts, AppConfig, ◌>>=◌, in_unit, positive_in}
use finance_service.Start.Orders.{OrderScheduler, order_time_unit, order_settings}

-- payment_scheduler.PaymentState
pub data PaymentTask : Type 0 where
  payment_process_state payment_tracking_state : PaymentTask

pub record StateConfig : Type 0 where
  pub state : PaymentTask
  pub schedule_interval : ℤ

pub record PaymentScheduler : Type 0 where
  pub states : List StateConfig
  pub scheduler_interval : ℤ
  pub scheduler_steward_timeout : ℤ
  pub scheduler_worker_timeout : ℤ

abbrev pub payment_task : String → Option PaymentTask
payment_task name =
    if str_eq name "PAYMENT_PROCESS"
    then some PaymentTask.payment_process_state
    else if str_eq name "PAYMENT_TRACKING"
    then some PaymentTask.payment_tracking_state
    else none

-- one part of FinancePaymentSchedulerStates, cut at its colons
unfoldable pub state_config : Texts → TimeUnit → List String → Option StateConfig
state_config t u (name ∷ []) = do
  state ← payment_task name
  some (record { state = state; schedule_interval = pos 0 })
state_config t u (name ∷ interval ∷ []) = do
  n ← t.atoi interval
  state ← payment_task name
  some (record { state = state; schedule_interval = in_unit u n })
state_config t u _ = none

-- the loop over the parts
unfoldable pub state_list : Texts → TimeUnit → List String → Option (List StateConfig)
unfolding state_config
state_list t u [] = some []
state_list t u (part ∷ parts) = do
  config ← state_config t u (t.split part ":")
  configs ← state_list t u parts
  some (config ∷ configs)

abbrev pub with_interval : ℤ → StateConfig → StateConfig
with_interval interval config =
    if eqb_ℤ config.schedule_interval (pos 0)
    then record config { schedule_interval = interval }
    else config

unfoldable pub new_payment_scheduler : ℤ → ℤ → ℤ → List StateConfig → PaymentScheduler
new_payment_scheduler interval steward worker states = record {
  states = map (with_interval interval) states;
  scheduler_interval = interval;
  scheduler_steward_timeout = steward;
  scheduler_worker_timeout = worker;
}

unfoldable pub payment_settings : Texts → AppConfig → Option PaymentScheduler
unfolding order_time_unit state_list new_payment_scheduler
payment_settings t c = do
  unit ← order_time_unit t c.finance_payment_scheduler_time_uint
  interval ← positive_in unit c.finance_payment_scheduler_interval
  steward ← positive_in unit c.finance_payment_scheduler_parent_worker_timeout
  worker ← positive_in unit c.finance_payment_scheduler_worker_timeout
  states ← state_list t unit (t.split c.finance_payment_scheduler_states ";")
  some (new_payment_scheduler interval steward worker states)

-- The checks of main that stand before the schedulers start: the settings as main leaves them, and the
-- two schedulers.
unfoldable pub main_settings :
    Texts → AppConfig → Option (AppConfig × OrderScheduler × PaymentScheduler)
unfolding payment_settings order_settings
main_settings t c = do
  check_payment_mode t c.seller_finance_default_payment_mode
  orders ← order_settings t c
  payments ← payment_settings t orders.0
  some (orders.0, orders.1, payments)
