-- ===== src/Scheduler/Missed/Handled.antt =====
-- What missedFireTriggerHandler returns and leaves.
use finance_service.Base.{ℕ, ◌≡◌, refl, false, arith}
use finance_service.Base.Int.{ℤ, pos, negsuc, ◌<ℤ◌, eqb_ℤ}
use finance_service.Entities.{Time, FinanceTrigger}
use finance_service.Repository.Triggers.{TriggerDatabase, HoldsHistories}
use finance_service.Scheduler.{SchedulerEnv}
use finance_service.Scheduler.Missed.{Missed, active_interval}
use finance_service.Scheduler.Missed.Loop.{fire_time}

pub positive_ne_zero : (a : ℤ) → pos 0 <ℤ a → eqb_ℤ a (pos 0) ≡ false
positive_ne_zero (pos n) h = ground arith
positive_ne_zero (negsuc n) h = refl

module _ {S : Type 0} (e : SchedulerEnv) (db : TriggerDatabase S) (t : FinanceTrigger)
    (Recorded : Time → S → Type 0) (holds : HoldsHistories db Recorded) where
  -- every time that was due has a history, and no history is lost
  abbrev pub AllRecorded : Time → S → S → Type 0
  AllRecorded first s s' =
      ((k : ℕ)
        → fire_time first (active_interval t) k <ℤ e.timestamp
        → Recorded (fire_time first (active_interval t) k) s')
      × ((x : Time) → Recorded x s → Recorded x s')
