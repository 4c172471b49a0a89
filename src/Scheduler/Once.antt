-- ===== src/Scheduler/Once.antt =====
-- How often the order scheduler starts a run.
use finance_service.Base.{
  ◌≡◌, refl, sym, ap, ◌∙◌, true, inl, inr, String, Option, none, some, Bool-cases, arith,
}
use finance_service.Base.Int.{pos, ◌+ℤ◌, ◌≤ℤ◌, ◌<ℤ◌, ltb_ℤ, +ℤ_parts}
use finance_service.Base.Outcome.{some-injective, ok}
use finance_service.Entities.{Time, ObjectId, FinanceTrigger, TriggerHistory}
use finance_service.Repository.Triggers.{
  TriggerDatabase, Found, found, no_document, find_error, reply_of, find_by_name, next_version,
  IsReadBack, HoldsTriggers,
}
use finance_service.Repository.Triggers.Versions.{version_moves}
use finance_service.Scheduler.{SchedulerEnv, next_trigger_at, fired, fire, fire_found, do_process}
use finance_service.Scheduler.Fires.{Started, fire-Started, fire_returns}

module _ {S : Type 0} (db : TriggerDatabase S) (trigger_of : String → S → Option FinanceTrigger)
    (holds : HoldsTriggers db trigger_of) where
  written :
      (e : SchedulerEnv) (t : FinanceTrigger) (s s' : S) (h : TriggerHistory)
      → Started e db t s h s'
      → (read : FinanceTrigger) × (trigger_of t.name s' ≡ some read)
        × IsReadBack (next_version e.update_time (fired e t)) read
  written e t s s' h st =
      let (old, read, was, same, is, back) =
        holds.matches t.version _ s st.between st.result st.updated st.matched in
      (
        read,
        ap (λ (x : Option ObjectId × S). trigger_of t.name x.1) (sym st.inserted)
            ∙ holds.keeps t.name _ st.between
            ∙ is,
        back,
      )

  second_starts_nothing :
      (e e' : SchedulerEnv) (t : FinanceTrigger) (s s' s2 : S) (h h2 : TriggerHistory)
      → Started e db t s h s'
      → Started e' db t s' h2 s2
      → ⊥
  second_starts_nothing e e' t s s' s2 h h2 st st2 =
      let (read, is, back) = written e t s s' h st in
      let (old, read2, was, same, is2, back2) =
        holds.matches t.version _ s' st2.between st2.result st2.updated st2.matched in
      version_moves t.version (
        sym back.version
        ∙ ap (λ (x : FinanceTrigger). x.version) (some-injective (sym is ∙ was))
        ∙ same)

  never_twice :
      (e e' : SchedulerEnv) (t : FinanceTrigger) (s s' : S) (h : TriggerHistory)
      (r : Option TriggerHistory × S)
      → Started e db t s h s'
      → fire e' db t s' ≡ ok r
      → (s2 : S) × (r ≡ (none, s2))
  never_twice e e' t s s' h (none, s2) st p = (s2, refl)
  never_twice e e' t s s' h (some h2, s2) st p =
      absurd (second_starts_nothing e e' t s s' s2 h h2 st (fire-Started db e' t s' s2 h2 p))

  -- When the database holds one trigger of each name, then of two instances of the scheduler that
  -- have read the same trigger, the second starts nothing once the first has started a run, whatever
  -- its clock and configuration say; it does not panic.
  pub fire_once :
      (e e' : SchedulerEnv) (t : FinanceTrigger) (s s' : S) (h : TriggerHistory)
      → fire e db t s ≡ ok (some h, s')
      → (s2 : S) × (fire e' db t s' ≡ ok (none, s2))
  fire_once e e' t s s' h p =
      let st = fire-Started db e t s s' h p in
      let (o, s2, q) = fire_returns db e' t s' st.at st.due_at in
      let (s3, same) = never_twice e e' t s s' h (o, s2) st q in (s3, q ∙ ap ok same)

  not_due :
      (e : SchedulerEnv) (t : FinanceTrigger) (s : S) (b : Time)
      → t.trigger_at ≡ some b
      → ltb_ℤ e.timestamp b ≡ true
      → fire e db t s ≡ ok (none, s)
  unfolding fire
  not_due e t s b has early = elim (Bool-cases t.is_enable) [
    | inl enabled ↦ rw (enabled, has, early) refl
    | inr disabled ↦ rw disabled refl
  ]

  early :
      (a b next : Time)
      → (a +ℤ pos 1_000_000) ≤ℤ next
      → next <ℤ (b +ℤ pos 1_000_000)
      → ltb_ℤ a b ≡ true
  early a b next le lt = ground (arith, +ℤ_parts a (pos 1_000_000), +ℤ_parts b (pos 1_000_000))

  rests :
      (e' : SchedulerEnv) (next : Time) (name : String) (s : S) (read : FinanceTrigger) (b : Time)
      (x : Found FinanceTrigger)
      → db.find_trigger name s ≡ x
      → trigger_of name s ≡ some read
      → read.trigger_at ≡ some b
      → next <ℤ (b +ℤ pos 1_000_000)
      → (e'.timestamp +ℤ pos 1_000_000) ≤ℤ next
      → fire_found e' db (reply_of x) s ≡ ok (none, s)
  rests e' next name s read b no_document asked is has lt le = refl
  rests e' next name s read b find_error asked is has lt le = refl
  rests e' next name s read b (found t) asked is has lt le =
      let same : t ≡ read = some-injective (sym (holds.finds name s t asked).0 ∙ is) in
      not_due e' t s b (ap (λ (x : FinanceTrigger). x.trigger_at) same ∙ has)
        (early e'.timestamp b next le lt)

  -- When the database holds one trigger of each name and a tick of the scheduler has started a run,
  -- then a next tick for the same name starts nothing and writes nothing until a millisecond before
  -- the next time of the trigger that was read: that time is the interval later than the tick in
  -- relative mode, and than the trigger point of its day in absolute mode.
  pub do_process_rests :
      (e e' : SchedulerEnv) (t : FinanceTrigger) (s s' : S) (h : TriggerHistory)
      → db.find_trigger e.finance_trigger_name s ≡ found t
      → e'.finance_trigger_name ≡ e.finance_trigger_name
      → do_process e db s ≡ ok (some h, s')
      → (e'.timestamp +ℤ pos 1_000_000) ≤ℤ next_trigger_at e t t.trigger_point_type
      → do_process e' db s' ≡ ok (none, s')
  unfolding do_process find_by_name
  do_process_rests e e' t s s' h asked name p le =
      let st : Started e db t s h s' =
        fire-Started db e t s s' h (ap (λ x. fire_found e db (reply_of x) s) (sym asked) ∙ p) in
      let (read, is, back) = written e t s s' h st in
      let (b, has, lt) = back.trigger_at _ refl in
      let named : t.name ≡ e'.finance_trigger_name = (holds.finds _ s t asked).1 ∙ sym name in
      rests e' _ e'.finance_trigger_name s' read b _ refl
        (ap (λ n. trigger_of n s') (sym named) ∙ is) has lt le
