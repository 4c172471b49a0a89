-- ===== src/Scheduler/Missed/Stale.antt =====
-- missedFireTriggerHandler with a trigger that was updated after it was read, as SchedulerInit calls
-- it after it has disabled the former trigger or changed whether the trigger is enabled.
use mathlib.Core.Option
use finance_service.Base.{
  ℕ, zero, suc, ◌≡◌, ◌≢◌, refl, sym, ap, ◌∙◌, Bool, true, false, inl, inr, String, Option, none,
  some, Bool-cases,
}
use finance_service.Base.Int.{ℤ, pos, ◌+ℤ◌, ◌-ℤ◌, ◌<ℤ◌, ◌≤ℤ◌, ltb_ℤ}
use finance_service.Base.Outcome.{some-injective, ok, ErrorCode, Reply, value, failure}
use finance_service.Entities.{Time, FinanceTrigger, TriggerHistory}
use finance_service.Repository.Triggers.{
  TriggerDatabase, HoldsTriggers, update, save_history, count_with_filter,
}
use finance_service.Repository.Triggers.Versions.{update_reads, stale_fails}
use finance_service.Scheduler.{SchedulerEnv, point_text}
use finance_service.Scheduler.Missed.{
  Filled, Round, stop, go, Missed, zero_time, after_save, after_exists, fill_round, fill,
  active_interval, total_interval_count, after_trigger_update, close_by, close_trigger,
  missed_fire_trigger_handler,
}
use finance_service.Scheduler.Missed.Recorded.{fill_over, fill_due}
use finance_service.Scheduler.Missed.Loop.{fill_ends}
use finance_service.Scheduler.Missed.Handled.{positive_ne_zero}

module _ {S : Type 0} where
  state_of : Round S → S
  state_of (stop f) = f.state
  state_of (go count s) = s

  after_save_state :
      (at : Time) (count : ℕ) (x : Reply TriggerHistory × S)
      → state_of (after_save at count x) ≡ x.1
  unfolding state_of
  after_save_state at count (failure code, s) = refl
  after_save_state at count (value h, s) = refl

module _ {S : Type 0} (e : SchedulerEnv) (db : TriggerDatabase S)
    (trigger_of : String → S → Option FinanceTrigger) (holds : HoldsTriggers db trigger_of) where
  exists_keeps :
      (name : String) (t : FinanceTrigger) (at : Time) (count : ℕ) (s : S) (x : Reply Bool)
      → trigger_of name (state_of (after_exists e db t at count x s)) ≡ trigger_of name s
  unfolding state_of save_history
  exists_keeps name t at count s (failure code) = refl
  exists_keeps name t at count s (value true) = refl
  exists_keeps name t at count s (value false) =
      ap (trigger_of name) (after_save_state at count _) ∙ holds.keeps name _ s

  round_keeps :
      (name : String) (t : FinanceTrigger) (at : Time) (count : ℕ) (s : S)
      → trigger_of name (state_of (fill_round e db t at count s)) ≡ trigger_of name s
  unfolding fill_round
  round_keeps name t at count s = exists_keeps name t at count s _

  after_round_keeps :
      (name : String) (s : S) (again : ℕ → S → Option (Filled S)) (r : Round S) (f : Filled S)
      → trigger_of name (state_of r) ≡ trigger_of name s
      → ((count : ℕ) (s' : S)
          → again count s' ≡ some f
          → trigger_of name f.state ≡ trigger_of name s')
      → (elim r [ stop g ↦ some g | go count s' ↦ again count s' ]) ≡ some f
      → trigger_of name f.state ≡ trigger_of name s
  unfolding state_of
  after_round_keeps name s again (stop g) f kept later p =
      ap (λ (x : Filled S). trigger_of name x.state) (some-injective (sym p)) ∙ kept
  after_round_keeps name s again (go count s') f kept later p = later count s' p ∙ kept

  -- the loop leaves the triggers alone
  fill_keeps :
      (name : String) (t : FinanceTrigger) (interval : ℤ) (fuel : ℕ) (next latest : Time)
      (count : ℕ) (s : S) (f : Filled S)
      → fill e db t interval fuel next latest count s ≡ some f
      → trigger_of name f.state ≡ trigger_of name s
  unfolding fill
  fill_keeps name t interval zero next latest count s f p = cc
  fill_keeps name t interval (suc fuel) next latest count s f p =
      elim (Bool-cases (ltb_ℤ next e.timestamp)) [
        | inl due ↦
            after_round_keeps name s _ _ f (round_keeps name t next count s)
              (λ count' s' q. fill_keeps name t interval fuel (next +ℤ interval) next count' s' f q)
              (sym (fill_due e db t interval fuel next latest count s due) ∙ p)
        | inr over ↦
            ap (λ (x : Filled S). trigger_of name x.state)
              (some-injective (sym p ∙ fill_over e db t interval fuel next latest count s over))
      ]

  failed_update :
      (n : ℕ) (x : Reply FinanceTrigger × S) (code : ErrorCode) (s : S)
      → x ≡ (failure code, s)
      → (after_trigger_update n x).error ≢ none
  failed_update n (failure c, s') code s is p = cc
  failed_update n (value t, s') code s is p = cc

  closes_with_error :
      (t : FinanceTrigger) (f : Filled S) (read : FinanceTrigger) (r : Option ErrorCode)
      → trigger_of t.name f.state ≡ some read
      → read.version ≢ t.version
      → (close_by r e db t f).error ≢ none
  closes_with_error t f read (some code) is differs p = cc
  closes_with_error t f read none is differs p =
      let (code, s', failed) =
        stale_fails db trigger_of holds e.update_time
          (record t { latest_trigger_at = some f.latest; trigger_at = some f.next }) read f.state is
          differs in
      failed_update f.count _ code s' failed p

  missed_run :
      (fuel : ℕ) (t : FinanceTrigger) (point : Time) (n : ℕ) (s : S)
      → pos 0 <ℤ active_interval t
      → e.parse_time (point_text e t.created_at t) ≡ some point
      → db.count_triggered t.name s ≡ some n
      → ltb_ℤ (active_interval t) (e.timestamp -ℤ point) ≡ true
      → ltb_ℤ (pos n) (total_interval_count e t (active_interval t) point) ≡ true
      → missed_fire_trigger_handler fuel e db t s
        ≡ ok (
            Option.map
              (close_trigger e db t)
              (fill e db t (active_interval t) fuel (point +ℤ active_interval t) zero_time 0 s))
  unfolding missed_fire_trigger_handler count_with_filter
  missed_run fuel t point n s positive parsed count past less =
      rw (parsed, past, positive_ne_zero (active_interval t) positive, count, less) refl

  -- When the database holds one trigger of each name, a trigger was updated, and the handler is then
  -- called with the trigger in the version that was read before the update, with a positive interval,
  -- a trigger point that is a time of day and more than an interval ago, in a state where it was due
  -- more often than it has histories, and with fuel for the time from the first run that was due, then
  -- the handler returns, and what it returns is an error.
  pub stale_trigger_fails :
      (fuel : ℕ) (now : Time) (t t' u : FinanceTrigger) (point : Time) (n : ℕ) (s s1 : S)
      → update db now t s ≡ (value t', s1)
      → u.name ≡ t.name
      → u.version ≡ t.version
      → pos 0 <ℤ active_interval u
      → e.parse_time (point_text e u.created_at u) ≡ some point
      → e.timestamp ≤ℤ ((point +ℤ active_interval u) +ℤ pos fuel)
      → db.count_triggered u.name s1 ≡ some n
      → ltb_ℤ (active_interval u) (e.timestamp -ℤ point) ≡ true
      → ltb_ℤ (pos n) (total_interval_count e u (active_interval u) point) ≡ true
      → (m : Missed S) × (missed_fire_trigger_handler (suc fuel) e db u s1 ≡ ok (some m))
        × (m.error ≢ none)
  stale_trigger_fails fuel now t t' u point n s s1 updated named same positive parsed enough count
        past less =
      let (read, is, differs) = update_reads db trigger_of holds now t t' s s1 updated in
      let first = point +ℤ active_interval u in
      let (f, filled) =
        fill_ends e db u (active_interval u) fuel first zero_time 0 s1 positive enough in
      (
        close_trigger e db u f,
        missed_run (suc fuel) u point n s1 positive parsed count past less
            ∙ ap (λ o. ok (Option.map (close_trigger e db u) o)) filled,
        closes_with_error u f read f.error
            (fill_keeps u.name u (active_interval u) (suc fuel) first zero_time 0 s1 f filled
              ∙ ap (λ k. trigger_of k s1) named
              ∙ is)
            (λ equal. differs (equal ∙ same)),
      )
