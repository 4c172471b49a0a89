-- ===== src/Start.antt =====
-- main.go: what the service checks of its configuration (configs/configuration.go) before it makes its
-- schedulers. `none` is os.Exit(1).
pub mod Orders
pub mod Payments
use text.Mathlib.Text.{◌==◌ as str_eq}
use finance_service.Base.{
  arith, ◌≡◌, refl, true, false, Bool, not, ◌||◌, String, Option, none, some, List, ◌<◌,
  if◌then◌else◌,
}
use finance_service.Base.Int.{◌<ℤ◌, ℤ, pos, int64, ltb_ℤ}
use finance_service.Entities.{TimeUnit}
use finance_service.Scheduler.Missed.{scaled}

-- What fmt.Sscanf says of a text and "%d:%d": how many items it parsed, whether there was an error,
-- and the two numbers.
pub record Scan : Type 0 where
  pub count : ℤ
  pub failed : Bool
  pub hours : ℤ
  pub minutes : ℤ

-- The functions of Go's standard library that main calls.
pub record Texts : Type 0 where
  pub to_upper : String → String
  pub split : String → String → List String
  -- `none` is an error
  pub atoi : String → Option ℤ
  pub scan_time : String → Scan

-- configs.Config.App, as far as main reads it.
pub record AppConfig : Type 0 where
  pub service_test_api_enabled : Bool
  pub finance_payment_scheduler_time_uint : String
  pub finance_payment_scheduler_interval : ℤ
  pub finance_payment_scheduler_parent_worker_timeout : ℤ
  pub finance_payment_scheduler_worker_timeout : ℤ
  pub finance_payment_scheduler_states : String
  pub finance_order_scheduler_time_uint : String
  pub finance_order_scheduler_interval : ℤ
  pub finance_order_scheduler_parent_worker_timeout : ℤ
  pub finance_order_scheduler_worker_timeout : ℤ
  pub finance_order_scheduler_update_finance_duration : Bool
  pub finance_order_scheduler_handle_missed_fire_trigger : Bool
  pub seller_finance_trigger_name : String
  pub seller_finance_trigger_time_unit : String
  pub seller_finance_trigger_interval : ℤ
  pub seller_finance_trigger_duration : ℤ
  pub seller_finance_trigger_point : String
  pub seller_finance_trigger_point_type : String
  pub seller_finance_trigger_enabled : Bool
  pub seller_finance_trigger_test_mode : Bool
  pub seller_finance_default_payment_mode : String

infixl 5 ◌>>=◌ ◌>>◌
abbrev pub ◌>>=◌ {ℓ μ} : {A : Type ℓ} {B : Type μ} → Option A → (A → Option B) → Option B
none >>= go_on = none
some a >>= go_on = go_on a

abbrev pub ◌>>◌ {μ} : {B : Type μ} → Option (Unit {0}) → Option B → Option B
check >> go_on = check >>= λ _. go_on

-- `if wrong { os.Exit(1) }`
abbrev pub exit_if : Bool → Option (Unit {0})
exit_if wrong = if wrong then none else some tt

abbrev pub unit_text : TimeUnit → String
unit_text TimeUnit.minute_unit = "MINUTE"
unit_text TimeUnit.hour_unit = "HOUR"

-- the time unit that a setting names, in any case
abbrev pub named_unit : Texts → String → Option TimeUnit
named_unit t name =
    if str_eq (t.to_upper name) "HOUR"
    then some TimeUnit.hour_unit
    else if str_eq (t.to_upper name) "MINUTE"
    then some TimeUnit.minute_unit
    else none

-- `time.Duration(n) * time.Hour`, or Minute
abbrev pub in_unit : TimeUnit → ℤ → ℤ
in_unit TimeUnit.hour_unit n = int64 (scaled 3_600_000_000_000 n)
in_unit TimeUnit.minute_unit n = int64 (scaled 60_000_000_000 n)

-- `if n <= 0 { os.Exit(1) } else { … }`
abbrev pub positive_in : TimeUnit → ℤ → Option ℤ
positive_in u n = if not (ltb_ℤ (pos 0) n) then none else some (in_unit u n)

-- the check of the default payment mode
abbrev pub check_payment_mode : Texts → String → Option (Unit {0})
check_payment_mode t mode =
    exit_if (not (str_eq (t.to_upper mode) "AUTOMATIC" || str_eq (t.to_upper mode) "MANUAL"))

-- A chain that does not exit had a first step that does not.
pub >>=-eq-some {ℓ μ} :
    {A : Type ℓ} {B : Type μ} (first : Option A) (go_on : A → Option B) {last : B}
    → (first >>= go_on) ≡ some last
    → (a : A) × (first ≡ some a) × (go_on a ≡ some last)
>>=-eq-some none go_on h = cc
>>=-eq-some (some a) go_on h = (a, refl, h)

-- A check that does not exit.
pub exit_if->> {μ} :
    {B : Type μ} (wrong : Bool) (rest : Option B) {last : B}
    → (exit_if wrong >> rest) ≡ some last
    → (wrong ≡ false) × (rest ≡ some last)
exit_if->> true rest h = cc
exit_if->> false rest h = (refl, h)

pub positive_in-some :
    (u : TimeUnit) (n d : ℤ) → positive_in u n ≡ some d → (pos 0 <ℤ n) × (d ≡ in_unit u n)
positive_in-some u n d h = ground arith
