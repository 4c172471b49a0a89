-- ===== src/Scheduler/Missed.antt =====
-- missedFireTriggerHandler of domain/scheduler/order/orderScheduler.go: the histories of the runs
-- that should have been started while the service was down.
pub mod Loop
pub mod Recorded
pub mod Handled
pub mod Stale
use mathlib.Core.Option
use finance_service.Base.{
  ℕ, zero, suc, ◌+◌, ◌-◌, ◌*◌, ◌/◌, Bool, true, false, Option, none, some, [], if◌then◌else◌, ltb,
  ◌==◌,
}
use finance_service.Base.Int.{
  ℤ, pos, negsuc, ◌+ℤ◌, ◌-ℤ◌, quotient, pos_part, neg_part, ltb_ℤ, eqb_ℤ, int64,
}
use finance_service.Base.Outcome.{Outcome, ok, panic, ErrorCode, Reply, value, failure}
use finance_service.Entities.{
  Time, FinanceTrigger, TriggerHistory, TriggerRunMode, TriggerExecResult, TimeUnit,
}
use finance_service.Repository.Triggers.{
  TriggerDatabase, update, save_history, exists_by_triggered_at, count_with_filter,
}
use finance_service.Scheduler.{SchedulerEnv, point_text}

abbrev pub scaled : ℕ → ℤ → ℤ
scaled k (pos n) = pos (k * n)
scaled k (negsuc n) = negsuc (k * suc n - 1)

-- `time.Duration(activeTrigger.Interval) * time.Hour`, or Minute
unfoldable pub active_interval : FinanceTrigger → ℤ
unfolding int64
active_interval t = elim t.time_unit [
  | TimeUnit.hour_unit ↦ int64 (scaled 3_600_000_000_000 t.interval)
  | TimeUnit.minute_unit ↦ int64 (scaled 60_000_000_000 t.interval)
]

-- the history of a run that was missed
abbrev pub missed_trigger : SchedulerEnv → FinanceTrigger → Time → TriggerHistory
missed_trigger e t at = record {
  id = 0;
  trigger_name = t.name;
  version = 0;
  doc_version = "";
  exec_result = TriggerExecResult.none_result;
  run_mode = TriggerRunMode.none_mode;
  triggered_at = some at;
  is_missed_fire = true;
  action = none;
  action_history = [];
  retry_index = 0;
  finances = [];
  created_at = e.timestamp;
  updated_at = e.timestamp;
  deleted_at = none;
}

-- the variables of the loop when it ends: missedFireCount, newTriggeredAt, latestTriggerAt, and the
-- error that it returns with
pub record Filled (S : Type 0) : Type 0 where
  pub count : ℕ
  pub next : Time
  pub latest : Time
  pub error : Option ErrorCode
  pub state : S

-- a round of the loop: it returns, or goes on with this count and state
pub data Round (S : Type 0) : Type 0 where
  stop : Filled S → Round S
  go : ℕ → S → Round S

module _ {S : Type 0} where
  abbrev pub after_save : Time → ℕ → Reply TriggerHistory × S → Round S
  after_save at count (failure code, s) =
      stop (record { count = suc count; next = at; latest = at; error = some code; state = s })
  after_save at count (value h, s) = go (suc count) s

  abbrev pub after_exists :
      SchedulerEnv → TriggerDatabase S → FinanceTrigger → Time → ℕ → Reply Bool → S → Round S
  after_exists e db t at count (failure code) s =
      stop (record { count = count; next = at; latest = at; error = some code; state = s })
  after_exists e db t at count (value true) s = go count s
  after_exists e db t at count (value false) s =
      after_save at count (save_history db (missed_trigger e t at) s)

  -- the body of the loop
  unfoldable pub fill_round :
      SchedulerEnv → TriggerDatabase S → FinanceTrigger → Time → ℕ → S → Round S
  fill_round e db t at count s = after_exists e db t at count (exists_by_triggered_at db at s) s

-- the zero value of time.Time: the start of the year 1
abbrev pub zero_time : Time
zero_time = negsuc 62_135_596_799_999_999_999

module _ {S : Type 0} (e : SchedulerEnv) (db : TriggerDatabase S) (t : FinanceTrigger)
    (interval : ℤ) where
  -- The loop from newTriggeredAt on. `none` means that the fuel ran out.
  unfoldable pub fill : ℕ → Time → Time → ℕ → S → Option (Filled S)
  fill zero next latest count s = none
  fill (suc fuel) next latest count s = elim (ltb_ℤ next e.timestamp) [
    | false ↦ some (record { count = count; next = next; latest = latest; error = none; state = s })
    | true ↦ elim (fill_round e db t next count s) [
      | stop f ↦ some f
      | go count' s' ↦ fill fuel (next +ℤ interval) next count' s'
    ]
  ]

pub data MissedError : Type 0 where
  -- the trigger point is no time of day
  parse_error : MissedError
  replied : ErrorCode → MissedError
  calculation_failed : MissedError

-- missedFireCount, the error, and the state
pub record Missed (S : Type 0) : Type 0 where
  pub count : ℕ
  pub error : Option MissedError
  pub state : S

-- `int(timeOffset / activeInterval)`, and one more if the trigger was made before its point of that day
unfoldable pub total_interval_count : SchedulerEnv → FinanceTrigger → ℤ → Time → ℤ
unfolding ◌-ℤ◌ int64
total_interval_count e t interval point =
    let total = quotient (e.timestamp -ℤ point) interval in
    if ltb_ℤ t.created_at point then int64 (total +ℤ pos 1) else total

module _ {S : Type 0} where
  abbrev pub after_trigger_update : ℕ → Reply FinanceTrigger × S → Missed S
  after_trigger_update n (failure code, s) = record {
    count = n;
    error = some (replied code);
    state = s;
  }
  after_trigger_update n (value t, s) = record { count = n; error = none; state = s }

  -- after the loop: the trigger gets the last time that was due, and the next one
  abbrev pub close_by :
      Option ErrorCode → SchedulerEnv → TriggerDatabase S → FinanceTrigger → Filled S → Missed S
  close_by (some code) e db t f = record {
    count = f.count;
    error = some (replied code);
    state = f.state;
  }
  close_by none e db t f = after_trigger_update f.count (
      update db e.update_time
        (record t { latest_trigger_at = some f.latest; trigger_at = some f.next }) f.state)

  abbrev pub close_trigger : SchedulerEnv → TriggerDatabase S → FinanceTrigger → Filled S → Missed S
  close_trigger e db t f = close_by f.error e db t f

  -- the comparison of the runs that were due with the histories
  abbrev pub by_count :
      ℕ
      → SchedulerEnv
      → TriggerDatabase S
      → FinanceTrigger
      → ℤ
      → Time
      → ℤ
      → Reply ℕ
      → S
      → Option (Missed S)
  by_count fuel e db t interval point total (failure code) s =
      some (record { count = 0; error = some (replied code); state = s })
  by_count fuel e db t interval point total (value triggers) s =
      if ltb_ℤ (pos triggers) total
      then Option.map (close_trigger e db t)
          (fill e db t interval fuel (point +ℤ interval) zero_time 0 s)
      else if eqb_ℤ total (pos triggers)
      then some (record { count = 0; error = none; state = s })
      else some (record { count = 0; error = some calculation_failed; state = s })

  abbrev pub from_point :
      ℕ
      → SchedulerEnv
      → TriggerDatabase S
      → FinanceTrigger
      → ℤ
      → Option Time
      → S
      → Outcome (Option (Missed S))
  from_point fuel e db t interval none s =
      ok (some (record { count = 0; error = some parse_error; state = s }))
  from_point fuel e db t interval (some point) s =
      if ltb_ℤ interval (e.timestamp -ℤ point)
      then (if eqb_ℤ interval (pos 0)
          then panic
          else ok (
              by_count fuel e db t interval point (total_interval_count e t interval point)
                (count_with_filter db t.name s) s))
      else ok (some (record { count = 0; error = none; state = s }))

  -- `none` means that the fuel ran out. An interval of zero divides by zero.
  unfoldable pub missed_fire_trigger_handler :
      ℕ → SchedulerEnv → TriggerDatabase S → FinanceTrigger → S → Outcome (Option (Missed S))
  missed_fire_trigger_handler fuel e db t s =
      from_point fuel e db t (active_interval t) (e.parse_time (point_text e t.created_at t)) s
