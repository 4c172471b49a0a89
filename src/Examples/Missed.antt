-- ===== src/Examples/Missed.antt =====
-- Tests and uses of the theorems on missed runs and on the versions of triggers.
use finance_service.Base.{ℕ, ◌*◌, ◌≡◌, ◌≢◌, refl, true, false, none, some, [], ◌∷◌, arith}
use finance_service.Base.Int.{ℤ, pos, ◌+ℤ◌, ◌-ℤ◌, ◌<ℤ◌, ltb_ℤ}
use finance_service.Base.Outcome.{ok, ErrorCode, value, failure}
use finance_service.Entities.{FinanceTrigger, TriggerHistory}
use finance_service.Repository.Triggers.{
  update, save_history, exists_by_triggered_at, count_with_filter, next_version, first_version,
}
use finance_service.Repository.Triggers.Versions.{update_conflicts}
use finance_service.Scheduler.{SchedulerEnv}
use finance_service.Scheduler.Missed.{
  MissedError, Filled, Missed, zero_time, missed_trigger, fill_round, fill, active_interval,
  total_interval_count, missed_fire_trigger_handler,
}
use finance_service.Scheduler.Missed.Stale.{stale_trigger_fails}
use finance_service.Scheduler.Missed.Recorded.{IsComplete, fill-IsComplete}
use finance_service.Examples.Store.{
  Store, database, trigger_of, Recorded, database-HoldsTriggers, database-HoldsHistories, daily,
  start, tick,
}

-- the service starts in the fourth day, and no run was ever made
abbrev late : SchedulerEnv
late = tick 0 300_000_000_000_000

abbrev day : ℤ
day = pos 86_400_000_000_000

missed_at : ℕ → ℕ → TriggerHistory
missed_at id k = first_version id (missed_trigger late daily (pos (k * 86_400_000_000_000)))

abbrev filled_store : Store
filled_store = record {
  trigger = daily;
  histories = missed_at 2 3 ∷ missed_at 1 2 ∷ missed_at 0 1 ∷ [];
}

abbrev filled : Filled Store
filled = record {
  count = 3;
  next = pos (4 * 86_400_000_000_000);
  latest = pos (3 * 86_400_000_000_000);
  error = none;
  state = filled_store;
}

fill_test : fill late database daily day 5 day zero_time 0 start ≡ some filled
unfolding fill fill_round exists_by_triggered_at save_history ◌+ℤ◌ missed_at
fill_test = refl

fill-IsComplete_example :
    IsComplete late database daily day
      (omega arith)
      Recorded
      database-HoldsHistories
      day
      0
      start
      filled
fill-IsComplete_example =
    fill-IsComplete late database daily day (omega arith) Recorded database-HoldsHistories 5 day
      zero_time 0 start filled fill_test refl

missed_test :
    missed_fire_trigger_handler 9 late database daily start
    ≡ ok (
        some (record {
          count = 3;
          error = none;
          state = record {
            trigger = record (next_version late.update_time daily) {
              latest_trigger_at = some (pos (3 * 86_400_000_000_000));
              trigger_at = some (pos (4 * 86_400_000_000_000));
            };
            histories = filled_store.histories;
          };
        }))
unfolding missed_fire_trigger_handler active_interval total_interval_count count_with_filter fill
    fill_round exists_by_triggered_at save_history update ◌+ℤ◌ ◌-ℤ◌ missed_at
missed_test = refl

interval_positive : pos 0 <ℤ active_interval daily
unfolding active_interval
interval_positive = omega arith

interval_past : ltb_ℤ (active_interval daily) (late.timestamp -ℤ pos 0) ≡ true
unfolding active_interval ◌-ℤ◌
interval_past = refl

runs_missed : ltb_ℤ (pos 0) (total_interval_count late daily (active_interval daily) (pos 0)) ≡ true
unfolding active_interval total_interval_count
runs_missed = refl

-- the trigger is disabled, and then written again as it was read at first
abbrev disabled : FinanceTrigger
disabled = record daily { is_active = false; is_enable = false }

update_test : update database (pos 3) disabled start ≡ (
  value (next_version (pos 3) disabled),
  record start { trigger = next_version (pos 3) disabled },
)
unfolding update
update_test = refl

update_conflicts_example :
    (code : ErrorCode) × (s : Store) × (update database
        (pos 4)
        daily
        (record start { trigger = next_version (pos 3) disabled })
      ≡ (failure code, s))
update_conflicts_example =
    update_conflicts database trigger_of database-HoldsTriggers (pos 3) (pos 4) disabled
      (next_version (pos 3) disabled) daily start
      (record start { trigger = next_version (pos 3) disabled }) update_test refl refl

-- the trigger was disabled after it was read, and runs were missed
abbrev disabled_store : Store
disabled_store = record start { trigger = next_version (pos 3) disabled }

stale_test :
    missed_fire_trigger_handler 9 late database daily disabled_store
    ≡ ok (
        some (record {
          count = 3;
          error = some (MissedError.replied ErrorCode.not_found);
          state = record disabled_store { histories = filled_store.histories };
        }))
unfolding missed_fire_trigger_handler active_interval total_interval_count count_with_filter fill
    fill_round exists_by_triggered_at save_history update ◌+ℤ◌ ◌-ℤ◌ missed_at
stale_test = refl

stale_trigger_fails_example :
    (m : Missed Store) × (missed_fire_trigger_handler 300_000_000_000_001 late database daily
        disabled_store
      ≡ ok (some m))
    × (m.error ≢ none)
unfolding ◌+ℤ◌ active_interval
stale_trigger_fails_example =
    stale_trigger_fails late database trigger_of database-HoldsTriggers 300_000_000_000_000 (pos 3)
      disabled (next_version (pos 3) disabled) daily (pos 0) 0 start disabled_store update_test refl
      refl interval_positive refl (omega arith) refl interval_past runs_missed
