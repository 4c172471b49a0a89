-- ===== src/Scheduler/Abandoned.antt =====
-- abandonedTriggerHistoryHandler of domain/scheduler/order/orderScheduler.go: at its start the
-- service marks the histories that a former process left running.
pub mod Left
use finance_service.Base.{
  ℕ, zero, suc, ◌+◌, ◌%◌, true, false, Option, none, some, List, [], ◌∷◌, ltb,
}
use finance_service.Base.Int.{pos}
use finance_service.Base.Outcome.{Reply, value, failure}
use finance_service.Entities.{Time, ObjectId, TriggerHistory, TriggerRunMode, TriggerExecResult}
use finance_service.Repository.Paging.{Query, Pageable, available_pages, find_by_filter_with_page}
use finance_service.Repository.Triggers.{UpdateResult, update_reply}

-- The requests to the database: those of a search for the histories that run, and an update of the
-- history with this id and version.
pub record RunningDatabase (S : Type 0) : Type 0 where
  pub running : S → Query TriggerHistory
  pub update_history : ObjectId → ℕ → TriggerHistory → S → Option UpdateResult × S

abbrev pub history_version : Time → TriggerHistory → TriggerHistory
history_version now h = record h {
  updated_at = now;
  version = (h.version + 1) % 18_446_744_073_709_551_616;
}

abbrev pub abandoned : TriggerHistory → TriggerHistory
abandoned h = record h {
  run_mode = TriggerRunMode.incomplete;
  exec_result = TriggerExecResult.fail;
}

module _ {S : Type 0} where
  -- Update of triggerHistoryRepositoyImpl.go
  unfoldable pub update_history :
      RunningDatabase S → Time → TriggerHistory → S → Reply TriggerHistory × S
  update_history db now h s =
      let (result, s') = db.update_history h.id h.version (history_version now h) s in
      (update_reply (history_version now h) result, s')

  -- the loop over the histories of a page; an error is only logged
  unfoldable pub abandon_all : RunningDatabase S → Time → List TriggerHistory → S → S
  abandon_all db now [] s = s
  abandon_all db now (h ∷ hs) s = abandon_all db now hs (update_history db now (abandoned h) s).1

  -- The loop over the pages from round i on. `none` means that the fuel ran out.
  unfoldable pub abandon_pages : RunningDatabase S → Time → ℕ → ℕ → ℕ → S → Option S
  abandon_pages db now zero i available s = none
  abandon_pages db now (suc fuel) i available s = elim (ltb i available) [
    | false ↦ some s
    | true ↦ elim (find_by_filter_with_page (db.running s) (pos (suc i)) (pos 32)) [
      | failure code ↦ some s
      | value r ↦
          abandon_pages db now fuel (suc i) (available_pages r.total_count 32)
            (abandon_all db now r.items s)
    ]
  ]

  unfoldable pub abandoned_trigger_history_handler : RunningDatabase S → Time → ℕ → S → Option S
  abandoned_trigger_history_handler db now fuel s = abandon_pages db now fuel 0 1 s
