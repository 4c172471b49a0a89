-- ===== src/Examples/Scheduler.antt =====
-- Tests and uses of the theorems on the ticks of the order scheduler.
use finance_service.Scheduler.Shrink.{
  ShrinkServices, shrink_all, update_seller_finance_with_new_trigger_config,
}
use finance_service.Repository.Paging.{available_pages, find_by_filter_with_page}
use finance_service.Examples.Data.{finance}
use finance_service.Base.{
  Bool, true, false, Option, ◌∙◌, ◌≢◌, ◌==◌, ◌&&◌, if◌then◌else◌, ℕ, ◌+◌, ◌≡◌, refl, ap, none, some,
  List, [], ◌∷◌, length, take, drop, replicate, arith,
}
use finance_service.Base.Int.{pos, pos_part, ◌+ℤ◌, ◌-ℤ◌, +ℤ_parts, int64}
use finance_service.Base.Outcome.{ok, ErrorCode, Reply, value, failure}
use finance_service.Entities.{
  ObjectId, TriggerRunMode, FinanceTrigger, SellerFinance, TriggerHistory,
}
use finance_service.Repository.Triggers.{
  UpdateResult, found, find_by_name, update, save_history, next_version, first_version,
}
use finance_service.Scheduler.{fired, new_history, fire, do_process}
use finance_service.Scheduler.Fires.{Started, do_process-Started}
use finance_service.Scheduler.Once.{fire_once, do_process_rests}
use finance_service.Scheduler.Abandoned.{RunningDatabase, abandoned_trigger_history_handler}
use finance_service.Scheduler.Abandoned.Left.{HoldsRunning, abandoned_trigger_history_handler_lem}
use finance_service.Examples.Store.{
  Store, database, trigger_of, database-HoldsTriggers, daily, start, tick,
}

abbrev after_fire : Store
after_fire = record {
  trigger = next_version (pos 86_400_000_000_005) (fired (tick 1 5) daily);
  histories = first_version 0 (new_history (tick 1 5) daily) ∷ [];
}

abbrev run : TriggerHistory
run = first_version 0 (new_history (tick 1 5) daily)

fire_test : do_process (tick 1 5) database start ≡ ok (some run, after_fire)
unfolding do_process find_by_name fire update save_history ◌+ℤ◌
fire_test = refl

fire_first : fire (tick 1 5) database daily start ≡ ok (some run, after_fire)
unfolding fire update save_history ◌+ℤ◌
fire_first = refl

do_process-Started_example :
    (t : FinanceTrigger) × (database.find_trigger "seller" start ≡ found t)
    × Started (tick 1 5) database t start run after_fire
do_process-Started_example = do_process-Started database (tick 1 5) start after_fire run fire_test

-- another instance, which has read the trigger before it was fired
fire_once_example : (s : Store) × (fire (tick 1 9) database daily after_fire ≡ ok (none, s))
fire_once_example =
    fire_once database trigger_of database-HoldsTriggers (tick 1 5) (tick 1 9) daily start
      after_fire run fire_first

do_process_rests_example : do_process (tick 1 9) database after_fire ≡ ok (none, after_fire)
do_process_rests_example =
    do_process_rests database trigger_of database-HoldsTriggers (tick 1 5) (tick 1 9) daily start
      after_fire run refl refl fire_test
      (omega (
        arith,
        +ℤ_parts (pos 86_400_000_000_009) (pos 1_000_000),
        +ℤ_parts (pos 86_400_000_000_000) (pos 86_400_000_000_000),
      ))

abbrev is_running : TriggerRunMode → Bool
is_running TriggerRunMode.running = true
is_running _ = false

-- An update, seen on the list of the histories that run: the first one with this id and version is
-- replaced, and taken off the list if it runs no more.
abbrev put_running : Bool → TriggerHistory → List TriggerHistory → List TriggerHistory
put_running true h hs = h ∷ hs
put_running false h hs = hs

abbrev update_running :
    ObjectId → ℕ → TriggerHistory → List TriggerHistory → Option UpdateResult × List TriggerHistory
update_running id version h [] = (some (record { matched_count = 0; modified_count = 0 }), [])
update_running id version h (x ∷ xs) =
    let rest = update_running id version h xs in
    if (x.id == id) && (x.version == version)
    then (
      some (record { matched_count = 1; modified_count = 1 }),
      put_running (is_running h.run_mode) h xs,
    )
    else (rest.0, x ∷ rest.1)

not_running : (m : TriggerRunMode) → m ≢ TriggerRunMode.running → is_running m ≡ false
not_running TriggerRunMode.running h = absurd (h refl)
not_running _ h = refl

same_number : (n : ℕ) → (n == n) ≡ true
same_number n = ground arith

update_running-first :
    (h written : TriggerHistory) (rest s : List TriggerHistory)
    → s ≡ h ∷ rest
    → written.run_mode ≢ TriggerRunMode.running
    → (update_running h.id h.version written s).1 ≡ rest
update_running-first h written rest s e stopped =
    ap (λ xs. (update_running h.id h.version written xs).1) e
    ∙ rw (same_number h.id, same_number h.version, not_running written.run_mode stopped) refl

-- a database of which only the histories that run are seen
abbrev running_database : RunningDatabase (List TriggerHistory)
running_database = record {
  running = λ s. record {
    count = value (length s);
    find = λ skip n. value (take n (drop (pos_part skip) s));
  };
  update_history = update_running;
}

running_database-HoldsRunning : HoldsRunning running_database (λ s. s)
running_database-HoldsRunning = record {
  serves = λ s fits. record { count = refl; find = λ skip n. refl; fits = fits };
  leaves = λ h written rest s e same stopped. update_running-first h written rest s e stopped;
}

-- of forty histories eight are left
abandoned_trigger_history_handler_lem_example :
    (s : List TriggerHistory) × (abandoned_trigger_history_handler running_database
        (pos 9)
        3
        (replicate 40 run)
      ≡ some s)
    × (s ≡ drop 32 (replicate 40 run))
abandoned_trigger_history_handler_lem_example =
    abandoned_trigger_history_handler_lem running_database (λ s. s) running_database-HoldsRunning
      (pos 9) 1 (replicate 40 run) (omega arith)

-- a collection that holds no open finance, one of a page, and a Save that fails
abbrev shrinking : List SellerFinance → Reply SellerFinance → ShrinkServices ℕ
shrinking fs reply = record {
  open_finances = λ s. record {
    count = value (length fs);
    find = λ skip n. value (take n (drop (pos_part skip) fs));
  };
  save = λ f s. (reply, s + 1);
}

abbrev shorter : FinanceTrigger
shorter = record daily { duration = pos 24 }

shrink_test :
    update_seller_finance_with_new_trigger_config
      (shrinking (finance [] ∷ finance [] ∷ []) (value (finance [])))
      (pos 15)
      daily
      shorter
      3
      0
    ≡ some (ok (none, 2))
unfolding update_seller_finance_with_new_trigger_config find_by_filter_with_page available_pages
    shrink_all int64 ◌-ℤ◌ ◌+ℤ◌
shrink_test = refl

shrink_fails_test :
    update_seller_finance_with_new_trigger_config
      (shrinking (finance [] ∷ finance [] ∷ []) (failure ErrorCode.conflict))
      (pos 15)
      daily
      shorter
      3
      0
    ≡ some (ok (some ErrorCode.conflict, 1))
unfolding update_seller_finance_with_new_trigger_config find_by_filter_with_page available_pages
    shrink_all int64 ◌-ℤ◌ ◌+ℤ◌
shrink_fails_test = refl

longer_test :
    update_seller_finance_with_new_trigger_config
      (shrinking (finance [] ∷ []) (value (finance [])))
      (pos 15)
      shorter
      daily
      3
      0
    ≡ some (ok (none, 0))
unfolding update_seller_finance_with_new_trigger_config
longer_test = refl
