-- ===== src/Scheduler/Missed/Loop.antt =====
-- The loop of missedFireTriggerHandler over the times that were due.
use finance_service.Base.{
  ℕ, zero, suc, ◌≡◌, ◌⊎◌, refl, sym, ap, subst, ◌∙◌, false, inl, inr, Option, none, some,
  Bool-cases, arith,
}
use finance_service.Base.Int.{ℤ, pos, ◌+ℤ◌, ◌≤ℤ◌, ◌<ℤ◌, ltb_ℤ, +ℤ_parts}
use finance_service.Entities.{Time, ObjectId, FinanceTrigger, TriggerHistory}
use finance_service.Repository.Triggers.{
  TriggerDatabase, Found, found, no_document, find_error, exists_by_triggered_at, is_found,
  save_history, after_insert, first_version, HoldsHistories,
}
use finance_service.Scheduler.{SchedulerEnv}
use finance_service.Scheduler.Missed.{
  Filled, Round, stop, go, after_save, after_exists, missed_trigger, fill_round, fill,
}

-- the times that are due: one after each interval
unfoldable pub fire_time : Time → ℤ → ℕ → Time
fire_time first interval zero = first
fire_time first interval (suc k) = fire_time (first +ℤ interval) interval k

module _ {S : Type 0} (e : SchedulerEnv) (db : TriggerDatabase S) (t : FinanceTrigger)
    (interval : ℤ) where
  round_ends :
      (again : ℕ → S → Option (Filled S))
      → ((count : ℕ) (s : S) → (f : Filled S) × (again count s ≡ some f))
      → (r : Round S)
      → (f : Filled S) × ((elim r [ stop f ↦ some f | go count s ↦ again count s ]) ≡ some f)
  round_ends again ends (stop f) = (f, refl)
  round_ends again ends (go count s) = ends count s

  -- With an interval that is positive the loop ends.
  pub fill_ends :
      (fuel : ℕ) (next latest : Time) (count : ℕ) (s : S)
      → pos 0 <ℤ interval
      → e.timestamp ≤ℤ (next +ℤ pos fuel)
      → (f : Filled S) × (fill e db t interval (suc fuel) next latest count s ≡ some f)
  unfolding fill
  fill_ends zero next latest count s positive enough =
      let over : ltb_ℤ next e.timestamp ≡ false = ground (arith, +ℤ_parts next (pos 0)) in
      rw (over, fill) (_, refl)
  fill_ends (suc fuel) next latest count s positive enough =
      elim (Bool-cases (ltb_ℤ next e.timestamp)) [
        | inl due ↦
            rw (due, fill)
              (round_ends (λ c s'. fill e db t interval (suc fuel) (next +ℤ interval) next c s')
                (λ c s'. fill_ends fuel (next +ℤ interval) next c s' positive (
                  omega (
                    arith,
                    +ℤ_parts next interval,
                    +ℤ_parts next (pos (suc fuel)),
                    +ℤ_parts (next +ℤ interval) (pos fuel),
                  )))
                (fill_round e db t next count s))
        | inr over ↦ rw (over, fill) (_, refl)
      ]

pub fire_time_later :
    (first : Time) (interval : ℤ) (k : ℕ) → pos 0 <ℤ interval → first ≤ℤ fire_time first interval k
unfolding fire_time
fire_time_later first interval zero positive = omega arith
fire_time_later first interval (suc k) positive =
    omega (arith, +ℤ_parts first interval, fire_time_later (first +ℤ interval) interval k positive)

module _ {S : Type 0} (e : SchedulerEnv) (db : TriggerDatabase S) (t : FinanceTrigger)
    (Recorded : Time → S → Type 0) (holds : HoldsHistories db Recorded) where
  -- What a round that goes on leaves: the time is recorded, by a new history only if it was not.
  pub record IsFilled (at : Time) (count count' : ℕ) (s s' : S) : Type 0 where
    pub recorded : Recorded at s'
    pub kept : (x : Time) → Recorded x s → Recorded x s'
    pub new : ((s' ≡ s) × (count' ≡ count)) ⊎ (¬ Recorded at s)

  saved-IsFilled :
      (at : Time) (count count' : ℕ) (s s' : S) (new : TriggerHistory) (x : Option ObjectId × S)
      → new.triggered_at ≡ some at
      → db.insert_history new s ≡ x
      → ¬ Recorded at s
      → after_save at count (after_insert new x.0, x.1) ≡ go count' s'
      → IsFilled at count count' s s'
  saved-IsFilled at count count' s s' new (none, s2) dated e absent p = cc
  saved-IsFilled at count count' s s' new (some id, s2) dated e absent p =
      let same : s2 ≡ s' = cc in
      record {
        recorded = holds.inserts at new id s s' dated (e ∙ ap (λ x. (some id, x)) same);
        kept = λ x r.
            subst (Recorded x) (ap (λ (y : Option ObjectId × S). y.1) e ∙ same)
              (holds.keeps x new s r);
        new = inr absent;
      }

  exists-IsFilled :
      (at : Time) (count count' : ℕ) (s s' : S) (x : Found TriggerHistory)
      → db.find_triggered_at at s ≡ x
      → after_exists e db t at count (is_found x) s ≡ go count' s'
      → IsFilled at count count' s s'
  unfolding save_history
  exists-IsFilled at count count' s s' (found h) e p =
      let same : s ≡ s' = cc in
      record {
        recorded = subst (Recorded at) same (holds.finds at s h e);
        kept = λ x r. subst (Recorded x) same r;
        new = inl (sym same, cc);
      }
  exists-IsFilled at count count' s s' no_document found_none p =
      saved-IsFilled at count count' s s'
        (first_version (db.new_object_id s) (missed_trigger e t at)) _ refl refl
        (holds.misses at s found_none) p
  exists-IsFilled at count count' s s' find_error e p = cc

  pub round-IsFilled :
      (at : Time) (count count' : ℕ) (s s' : S)
      → fill_round e db t at count s ≡ go count' s'
      → IsFilled at count count' s s'
  unfolding fill_round exists_by_triggered_at
  round-IsFilled at count count' s s' p = exists-IsFilled at count count' s s' _ refl p
