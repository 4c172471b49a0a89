-- ===== src/Scheduler/Fires.antt =====
-- Which ticks of the order scheduler start a run.
use finance_service.Base.{
  ◌≡◌, ◌≢◌, refl, Bool, true, false, not, inl, inr, Option, none, some, if◌then◌else◌, Bool-cases,
  arith,
}
use finance_service.Base.Int.{ltb_ℤ}
use finance_service.Base.Outcome.{ok, deref, ◌>>=◌, value, failure, not_found}
use finance_service.Entities.{Time, ObjectId, FinanceTrigger, TriggerHistory}
use finance_service.Repository.Triggers.{
  TriggerDatabase, UpdateResult, Found, found, no_document, find_error, reply_of, find_by_name,
  update, update_reply, next_version, save_history, after_insert, first_version,
}
use finance_service.Scheduler.{
  SchedulerEnv, fired, new_history, run_started, start_run, fire, fire_found, do_process,
}

-- What has happened when a run was started for a trigger that was read: it was enabled and due, it
-- was written with its next time over the version that was read, and the history of the run was
-- inserted.
pub record Started {S : Type 0} (e : SchedulerEnv) (db : TriggerDatabase S) (t : FinanceTrigger)
    (s : S) (h : TriggerHistory) (s' : S) : Type 0 where
  pub enabled : t.is_enable ≡ true
  pub at : Time
  pub due_at : t.trigger_at ≡ some at
  pub due : ltb_ℤ e.timestamp at ≡ false
  pub result : UpdateResult
  pub between : S
  pub updated :
      db.update_trigger t.name t.version (next_version e.update_time (fired e t)) s
      ≡ (some result, between)
  pub matched : result.matched_count ≡ 1
  pub id : ObjectId
  pub inserted :
      db.insert_history (first_version (db.new_object_id between) (new_history e t)) between
      ≡ (some id, s')
  pub history : h ≡ record (first_version (db.new_object_id between) (new_history e t)) { id = id }

module _ {S : Type 0} (db : TriggerDatabase S) where
  insert_starts :
      (new h : TriggerHistory) (s' : S) (x : Option ObjectId × S)
      → run_started (after_insert new x.0, x.1) ≡ (some h, s')
      → (id : ObjectId) × (x ≡ (some id, s')) × (h ≡ record new { id = id })
  insert_starts new h s' (none, s2) p = cc
  insert_starts new h s' (some id, s2) p = (id, cc, cc)

  choice_starts :
      (t : FinanceTrigger) (new h : TriggerHistory) (s s' : S) (b : Bool)
      → start_run db new (if b then value t else failure not_found, s) ≡ (some h, s')
      → (b ≡ true) × (run_started (save_history db new s) ≡ (some h, s'))
  choice_starts t new h s s' true p = (refl, p)
  choice_starts t new h s s' false p = cc

  update_starts :
      (t : FinanceTrigger) (new h : TriggerHistory) (s' : S) (x : Option UpdateResult × S)
      → start_run db new (update_reply t x.0, x.1) ≡ (some h, s')
      → (r : UpdateResult) × (s1 : S) × (x ≡ (some r, s1))
        × (r.matched_count ≡ 1)
        × (run_started (save_history db new s1) ≡ (some h, s'))
  update_starts t new h s' (none, s2) p = cc
  update_starts t new h s' (some r, s2) p =
      let (both, next) = choice_starts t new h s2 s' _ p in (r, s2, refl, ground arith, next)

  early_fires :
      (s s' : S) (h : TriggerHistory) (run : Option TriggerHistory × S) (b : Bool)
      → b ≡ true
      → ok (if b then (none, s) else run) ≢ ok (some h, s')
  early_fires s s' h run true e p = cc
  early_fires s s' h run false e p = cc

  due_fires :
      (s s' : S) (h : TriggerHistory) (run : Option TriggerHistory × S) (b : Bool)
      → b ≡ false
      → ok (if b then (none, s) else run) ≡ ok (some h, s')
      → run ≡ (some h, s')
  due_fires s s' h run true e p = cc
  due_fires s s' h run false e p = cc

  fire_due :
      (e : SchedulerEnv) (t : FinanceTrigger) (s s' : S) (h : TriggerHistory) (enable : Bool)
      (at : Option Time) (run : Option TriggerHistory × S)
      → (if not enable
          then ok (none, s)
          else (deref at >>= λ a. ok (if ltb_ℤ e.timestamp a then (none, s) else run)))
        ≡ ok (some h, s')
      → (enable ≡ true)
        × (a : Time) × (at ≡ some a)
        × (ltb_ℤ e.timestamp a ≡ false)
        × (run ≡ (some h, s'))
  fire_due e t s s' h false at run p = cc
  fire_due e t s s' h true none run p = cc
  fire_due e t s s' h true (some a) run p = elim (Bool-cases (ltb_ℤ e.timestamp a)) [
    | inl early ↦ absurd (early_fires s s' h run (ltb_ℤ e.timestamp a) early p)
    | inr due ↦ (refl, a, refl, due, due_fires s s' h run (ltb_ℤ e.timestamp a) due p)
  ]

  pub fire-Started :
      (e : SchedulerEnv) (t : FinanceTrigger) (s s' : S) (h : TriggerHistory)
      → fire e db t s ≡ ok (some h, s')
      → Started e db t s h s'
  unfolding fire update save_history
  fire-Started e t s s' h p =
      let (enabled, at, due_at, due, run) = fire_due e t s s' h t.is_enable t.trigger_at _ p in
      let (r, s1, updated, matched, saved) =
        update_starts (next_version e.update_time (fired e t)) (new_history e t) h s' _ run in
      let (id, inserted, history) =
        insert_starts (first_version (db.new_object_id s1) (new_history e t)) h s' _ saved in
      record {
        enabled = enabled;
        at = at;
        due_at = due_at;
        due = due;
        result = r;
        between = s1;
        updated = updated;
        matched = matched;
        id = id;
        inserted = inserted;
        history = history;
      }

  found-Started :
      (e : SchedulerEnv) (s s' : S) (h : TriggerHistory) (x : Found FinanceTrigger)
      → fire_found e db (reply_of x) s ≡ ok (some h, s')
      → (t : FinanceTrigger) × (x ≡ found t) × Started e db t s h s'
  found-Started e s s' h (found t) p = (t, refl, fire-Started e t s s' h p)
  found-Started e s s' h no_document p = cc
  found-Started e s s' h find_error p = cc

  -- When doProcess starts a run, then the trigger that it read was enabled and due, it was written
  -- with its next time over the version that was read, and the history of the run was inserted.
  pub do_process-Started :
      (e : SchedulerEnv) (s s' : S) (h : TriggerHistory)
      → do_process e db s ≡ ok (some h, s')
      → (t : FinanceTrigger) × (db.find_trigger e.finance_trigger_name s ≡ found t)
        × Started e db t s h s'
  unfolding do_process find_by_name
  do_process-Started e s s' h p =
      found-Started e s s' h (db.find_trigger e.finance_trigger_name s) p

  pub fire_returns :
      (e : SchedulerEnv) (t : FinanceTrigger) (s : S) (at : Time)
      → t.trigger_at ≡ some at
      → (o : Option TriggerHistory) × (s' : S) × (fire e db t s ≡ ok (o, s'))
  unfolding fire
  fire_returns e t s at has = elim (Bool-cases t.is_enable) [
    | inl enabled ↦ rw (enabled, has) (_, _, refl)
    | inr disabled ↦ rw disabled (_, _, refl)
  ]
