-- ===== src/Examples/Init.antt =====
-- The start of the order scheduler over a small database.
use text.Mathlib.Text.{◌==◌ as str_eq}
use finance_service.Base.{◌≡◌, refl, false, none, some, if◌then◌else◌}
use finance_service.Base.Int.{pos, ◌+ℤ◌}
use finance_service.Base.Outcome.{ok, value}
use finance_service.Entities.{FinanceTrigger}
use finance_service.Start.{AppConfig}
use finance_service.Repository.Triggers.{find_by_name, update, next_version}
use finance_service.Scheduler.Init.{
  InitError, InitServices, disagreement, first_trigger_at, new_trigger, scheduler_init,
}
use finance_service.Scheduler.Init.Agreed.{IsAgreed, scheduler_init-IsAgreed}
use finance_service.Examples.Store.{Store, database, daily, start}
use finance_service.Examples.Start.{config, scheduler}

abbrev services : InitServices Store
services = record {
  now = pos 100;
  format_date = λ t. "1970-01-01";
  parse_time = λ text.
      if str_eq text "1970-01-01T13:30:00-0000" then some (pos 48_600_000_000_000) else none;
  abandon_histories = λ s. s;
  trigger_by_name = find_by_name database;
  active_trigger = λ s. value s.trigger;
  update_trigger = update database (pos 100);
  save_trigger = λ t s. (value t, record s { trigger = t });
  update_windows = λ old new s. ok (false, s);
  handle_missed = λ t s. ok (false, s);
}

-- the settings of the trigger that the database holds, but that they disable it
abbrev settings : AppConfig
settings = record config {
  seller_finance_trigger_name = "seller";
  seller_finance_trigger_point = "00:00";
  seller_finance_trigger_enabled = false;
}

abbrev now_disabled : Store
now_disabled = record start {
  trigger = next_version (pos 100) (record daily { is_enable = false });
}

disable_test : scheduler_init services settings scheduler start ≡ ok (none, now_disabled)
unfolding scheduler_init disagreement find_by_name update
disable_test = refl

found_test : services.trigger_by_name "seller" start ≡ value daily
unfolding find_by_name
found_test = refl

scheduler_init-IsAgreed_example : IsAgreed settings scheduler daily
scheduler_init-IsAgreed_example =
    scheduler_init-IsAgreed services settings scheduler daily start now_disabled found_test
      disable_test

-- another interval is refused, and another name makes a new trigger in place of the old one
interval_test :
    scheduler_init services
      (record settings { seller_finance_trigger_interval = pos 12 })
      scheduler
      start
    ≡ ok (some InitError.interval_changed, start)
unfolding scheduler_init disagreement find_by_name
interval_test = refl

abbrev renamed : AppConfig
renamed = record config { seller_finance_trigger_enabled = false }

abbrev created : FinanceTrigger
created = record daily {
  version = 0;
  doc_version = "";
  name = "daily";
  duration = pos 48;
  trigger_point = "13:30";
  trigger_at = some (pos 48_600_000_000_000);
  is_enable = false;
  created_at = pos 100;
  updated_at = pos 100;
}

rename_test :
    scheduler_init services renamed scheduler start ≡ ok (none, record start { trigger = created })
unfolding scheduler_init new_trigger first_trigger_at find_by_name update ◌+ℤ◌
rename_test = refl
