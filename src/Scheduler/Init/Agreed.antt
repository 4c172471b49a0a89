-- ===== src/Scheduler/Init/Agreed.antt =====
-- The trigger that SchedulerInit keeps of the database.
use text.Mathlib.Text.{◌==◌ as str_eq}
use text.Mathlib.TextEquality.{eq_iff}
use finance_service.Base.{
  ◌≡◌, refl, ap, ◌∙◌, sym, Bool, true, false, not, Option, none, some, if◌then◌else◌, arith,
}
use finance_service.Base.Int.{ℤ, pos, negsuc, eqb_ℤ}
use finance_service.Base.Outcome.{ok, value}
use finance_service.Entities.{FinanceTrigger, TriggerPointType, TimeUnit}
use finance_service.Start.{AppConfig}
use finance_service.Start.Orders.{OrderScheduler, is_hour}
use finance_service.Scheduler.Init.{
  InitError, InitServices, is_absolute, same_bool, disagreement, init_with, keep_trigger,
  scheduler_init,
}

pub record IsAgreed (c : AppConfig) (o : OrderScheduler) (t : FinanceTrigger) : Type 0 where
  pub active : t.is_active ≡ true
  pub same_time_unit : t.time_unit ≡ o.finance_trigger_time_unit
  pub same_interval : t.interval ≡ c.seller_finance_trigger_interval
  pub same_point : t.trigger_point ≡ c.seller_finance_trigger_point
  pub same_point_type : t.trigger_point_type ≡ o.finance_trigger_point_type

passed :
    {A : Type 0} (why : A) (b : Bool) {rest : Option A}
    → (if not b then some why else rest) ≡ none
    → (b ≡ true) × (rest ≡ none)
passed why true h = (refl, h)
passed why false h = ground arith

same_hour : (a b : TimeUnit) → same_bool (is_hour a) (is_hour b) ≡ true → a ≡ b
same_hour TimeUnit.hour_unit TimeUnit.hour_unit h = refl
same_hour TimeUnit.minute_unit TimeUnit.minute_unit h = refl
same_hour TimeUnit.hour_unit TimeUnit.minute_unit h = ground arith
same_hour TimeUnit.minute_unit TimeUnit.hour_unit h = ground arith

same_absolute : (a b : TriggerPointType) → same_bool (is_absolute a) (is_absolute b) ≡ true → a ≡ b
same_absolute TriggerPointType.absolute TriggerPointType.absolute h = refl
same_absolute TriggerPointType.relative TriggerPointType.relative h = refl
same_absolute TriggerPointType.absolute TriggerPointType.relative h = ground arith
same_absolute TriggerPointType.relative TriggerPointType.absolute h = ground arith

eqb_ℤ-≡ : (a b : ℤ) → eqb_ℤ a b ≡ true → a ≡ b
eqb_ℤ-≡ (pos a) (pos b) h = ap pos (ground arith)
eqb_ℤ-≡ (negsuc a) (negsuc b) h = ap negsuc (ground arith)
eqb_ℤ-≡ (pos a) (negsuc b) h = ground arith
eqb_ℤ-≡ (negsuc a) (pos b) h = ground arith

disagreement-IsAgreed :
    (c : AppConfig) (o : OrderScheduler) (t : FinanceTrigger)
    → disagreement c o t ≡ none
    → IsAgreed c o t
unfolding disagreement
disagreement-IsAgreed c o t h =
    let (active, h1) = passed _ t.is_active h in
    let (unit, h2) =
      passed _ (same_bool (is_hour t.time_unit) (is_hour o.finance_trigger_time_unit)) h1 in
    let (interval, h3) = passed _ (eqb_ℤ t.interval c.seller_finance_trigger_interval) h2 in
    let (point, h4) = passed _ (str_eq t.trigger_point c.seller_finance_trigger_point) h3 in
    let (type, _) =
      passed _
        (same_bool (is_absolute t.trigger_point_type) (is_absolute o.finance_trigger_point_type))
        h4 in
    record {
      active = active;
      same_time_unit = same_hour t.time_unit o.finance_trigger_time_unit unit;
      same_interval = eqb_ℤ-≡ t.interval c.seller_finance_trigger_interval interval;
      same_point = (eq_iff t.trigger_point c.seller_finance_trigger_point).0 point;
      same_point_type = same_absolute t.trigger_point_type o.finance_trigger_point_type type;
    }

keep_trigger-none :
    {S : Type 0} (v : InitServices S) (c : AppConfig) (t : FinanceTrigger) (why : Option InitError)
    (s s' : S)
    → keep_trigger v c t why s ≡ ok (none, s')
    → why ≡ none
keep_trigger-none v c t none s s' h = refl
keep_trigger-none v c t (some why) s s' h = ground arith

-- When SchedulerInit succeeds and the database, after its abandoned histories, holds a trigger of the
-- configured name, this trigger is active and has the time unit, the interval, the point and the type of
-- point of the settings.
pub scheduler_init-IsAgreed :
    {S : Type 0} (v : InitServices S) (c : AppConfig) (o : OrderScheduler) (t : FinanceTrigger)
    (s s' : S)
    → v.trigger_by_name c.seller_finance_trigger_name (v.abandon_histories s) ≡ value t
    → scheduler_init v c o s ≡ ok (none, s')
    → IsAgreed c o t
unfolding scheduler_init
scheduler_init-IsAgreed v c o t s s' found h = disagreement-IsAgreed c o t (
    keep_trigger-none v c t (disagreement c o t) (v.abandon_histories s) s'
      (sym (ap (λ r. init_with v c o r (v.abandon_histories s)) found) ∙ h))
