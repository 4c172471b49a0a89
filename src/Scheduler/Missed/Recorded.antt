-- ===== src/Scheduler/Missed/Recorded.antt =====
-- What missedFireTriggerHandler leaves: which times have a history.
use finance_service.Base.{
  ℕ, zero, suc, ◌≡◌, ◌≢◌, refl, sym, ap, subst, ◌∙◌, Bool, true, false, inl, inr, Option, none,
  some, Bool-cases, arith,
}
use finance_service.Base.Int.{ℤ, pos, ◌+ℤ◌, ◌≤ℤ◌, ◌<ℤ◌, ltb_ℤ}
use finance_service.Base.Outcome.{some-injective, Reply, value, failure}
use finance_service.Entities.{Time, FinanceTrigger, TriggerHistory}
use finance_service.Repository.Triggers.{TriggerDatabase, HoldsHistories}
use finance_service.Scheduler.{SchedulerEnv}
use finance_service.Scheduler.Missed.{
  Filled, Round, stop, go, after_save, after_exists, fill_round, fill,
}
use finance_service.Scheduler.Missed.Loop.{fire_time, fire_time_later, IsFilled, round-IsFilled}

module _ {S : Type 0} (e : SchedulerEnv) (db : TriggerDatabase S) (t : FinanceTrigger)
    (interval : ℤ) where
  pub fill_over :
      (fuel : ℕ) (next latest : Time) (count : ℕ) (s : S)
      → ltb_ℤ next e.timestamp ≡ false
      → fill e db t interval (suc fuel) next latest count s
        ≡ some (record { count = count; next = next; latest = latest; error = none; state = s })
  unfolding fill
  fill_over fuel next latest count s over = rw (over, fill) refl

  pub fill_due :
      (fuel : ℕ) (next latest : Time) (count : ℕ) (s : S)
      → ltb_ℤ next e.timestamp ≡ true
      → fill e db t interval (suc fuel) next latest count s
        ≡ (elim (fill_round e db t next count s) [
          | stop f ↦ some f
          | go count' s' ↦ fill e db t interval fuel (next +ℤ interval) next count' s'
        ])
  unfolding fill
  fill_due fuel next latest count s due = rw (due, fill) refl

-- a round that returns has an error
module _ {S : Type 0} (e : SchedulerEnv) (db : TriggerDatabase S) (t : FinanceTrigger) where
  save_stops :
      (at : Time) (count : ℕ) (x : Reply TriggerHistory × S) (f : Filled S)
      → after_save at count x ≡ stop f
      → f.error ≢ none
  save_stops at count (failure code, s) f p q = cc
  save_stops at count (value h, s) f p q = cc

  exists_stops :
      (at : Time) (count : ℕ) (s : S) (x : Reply Bool) (f : Filled S)
      → after_exists e db t at count x s ≡ stop f
      → f.error ≢ none
  exists_stops at count s (failure code) f p q = cc
  exists_stops at count s (value true) f p q = cc
  exists_stops at count s (value false) f p q = save_stops at count _ f p q

  round_stops :
      (at : Time) (count : ℕ) (s : S) (f : Filled S)
      → fill_round e db t at count s ≡ stop f
      → f.error ≢ none
  unfolding fill_round
  round_stops at count s f p = exists_stops at count s _ f p

module _ {S : Type 0} (e : SchedulerEnv) (db : TriggerDatabase S) (t : FinanceTrigger)
    (interval : ℤ) (positive : pos 0 <ℤ interval) (Recorded : Time → S → Type 0)
    (holds : HoldsHistories db Recorded) where
  -- Every time that is due from this one on has a history in the end, no history is lost, and if
  -- every such time had one, then nothing was written.
  pub record IsComplete (next : Time) (count : ℕ) (s : S) (f : Filled S) : Type 0 where
    pub recorded :
        (k : ℕ)
        → fire_time next interval k <ℤ e.timestamp
        → Recorded (fire_time next interval k) f.state
    pub kept : (x : Time) → Recorded x s → Recorded x f.state
    pub over : e.timestamp ≤ℤ f.next
    pub idle :
        ((k : ℕ)
          → fire_time next interval k <ℤ e.timestamp
          → Recorded (fire_time next interval k) s)
        → (f.state ≡ s) × (f.count ≡ count)

  over-IsComplete :
      (next latest : Time) (count : ℕ) (s : S)
      → ltb_ℤ next e.timestamp ≡ false
      → IsComplete next count s
          (record { count = count; next = next; latest = latest; error = none; state = s })
  over-IsComplete next latest count s over = record {
    recorded = λ k lt. absurd (
        omega (
          arith,
          fire_time_later next interval k positive,
          (let le : e.timestamp ≤ℤ next = ground arith in le),
        ));
    kept = λ x r. r;
    over = ground arith;
    idle = λ all. (refl, refl);
  }

  round-IsComplete :
      (next : Time) (count count' : ℕ) (s s' : S) (f : Filled S)
      → next <ℤ e.timestamp
      → IsFilled e db t Recorded holds next count count' s s'
      → IsComplete (next +ℤ interval) count' s' f
      → IsComplete next count s f
  unfolding fire_time
  round-IsComplete next count count' s s' f due filled rest = record {
    recorded = λ k lt. recorded_at k lt;
    kept = λ x r. rest.kept x (filled.kept x r);
    over = rest.over;
    idle = λ all. elim filled.new [
      | inl (same, count_same) ↦
          let (state, number) = rest.idle (λ k lt.
            subst (Recorded (fire_time (next +ℤ interval) interval k)) (sym same)
              (all (suc k) lt)) in
          (state ∙ same, number ∙ count_same)
      | inr absent ↦ absurd (absent (all zero due))
    ];
  }
    where
      recorded_at :
          (k : ℕ)
          → fire_time next interval k <ℤ e.timestamp
          → Recorded (fire_time next interval k) f.state
      recorded_at zero lt = rest.kept next filled.recorded
      recorded_at (suc k) lt = rest.recorded k lt

  after_round :
      (next : Time) (count : ℕ) (s : S) (f : Filled S) (again : ℕ → S → Option (Filled S))
      (r : Round S)
      → next <ℤ e.timestamp
      → fill_round e db t next count s ≡ r
      → ((stopped : Filled S) → r ≡ stop stopped → stopped.error ≢ none)
      → ((count' : ℕ) (s' : S)
          → again count' s' ≡ some f
          → IsComplete (next +ℤ interval) count' s' f)
      → (elim r [ stop f ↦ some f | go count' s' ↦ again count' s' ]) ≡ some f
      → f.error ≡ none
      → IsComplete next count s f
  after_round next count s f again (stop stopped) due e1 fails rest p fine = absurd (
      fails stopped refl
        (ap (λ (o : Option (Filled S)). elim o [ some g ↦ g.error | none ↦ none ]) p ∙ fine))
  after_round next count s f again (go count' s') due e1 fails rest p fine =
      round-IsComplete next count count' s s' f due
        (round-IsFilled e db t Recorded holds next count count' s s' e1) (rest count' s' p)

  -- When the database finds the histories that it was given, the interval is positive and the loop of
  -- missedFireTriggerHandler ends without an error, then
  -- every time that was due has a history, no history is lost, newTriggeredAt is not before now, and
  -- if every such time had a history before, then the database is as it was and nothing was counted.
  pub fill-IsComplete :
      (fuel : ℕ) (next latest : Time) (count : ℕ) (s : S) (f : Filled S)
      → fill e db t interval fuel next latest count s ≡ some f
      → f.error ≡ none
      → IsComplete next count s f
  unfolding fill
  fill-IsComplete zero next latest count s f p fine = cc
  fill-IsComplete (suc fuel) next latest count s f p fine =
      elim (Bool-cases (ltb_ℤ next e.timestamp)) [
        | inl due ↦
            after_round next count s f _ _ (ground arith) refl (round_stops e db t next count s)
              (λ count' s' q. fill-IsComplete fuel (next +ℤ interval) next count' s' f q fine)
              (sym (fill_due e db t interval fuel next latest count s due) ∙ p) fine
        | inr over ↦
            subst (IsComplete next count s)
              (some-injective (sym (fill_over e db t interval fuel next latest count s over) ∙ p))
              (over-IsComplete next latest count s over)
      ]
