-- ===== src/Examples/Store.antt =====
-- A small database of one trigger and its histories, with its laws, and a trigger to be stored in it.
use finance_service.Base.{
  ℕ, ◌+◌, ◌*◌, ◌≡◌, ◌≢◌, refl, sym, ap, subst, ◌∙◌, Bool, true, false, ◌&&◌, String, Option, none,
  some, List, [], ◌∷◌, length, ◌==◌, if◌then◌else◌, arith,
}
use finance_service.Base.Int.{pos, negsuc, ◌+ℤ◌, ◌<ℤ◌, +ℤ_parts, eqb_ℤ}
use finance_service.Entities.{
  Time, ObjectId, FinanceTrigger, TriggerHistory, TimeUnit, TriggerType, TriggerPointType,
  TriggerExecMode, TriggerJobExecType,
}
use finance_service.Repository.Triggers.{
  TriggerDatabase, UpdateResult, Found, found, no_document, IsReadBack, HoldsTriggers,
  HoldsHistories,
}
use finance_service.Scheduler.{SchedulerEnv}
use finance_service.Examples.Data.{both_true}
use text.Mathlib.Text.{◌==◌ as str_eq}
use text.Mathlib.TextEquality.{eq_iff}

-- one trigger, and the histories, the latest first
pub record Store : Type 0 where
  pub trigger : FinanceTrigger
  pub histories : List TriggerHistory

abbrev pub same_time : Option Time → Time → Bool
same_time none t = false
same_time (some a) t = eqb_ℤ a t

abbrev pub find_time : Time → List TriggerHistory → Found TriggerHistory
find_time t [] = no_document
find_time t (h ∷ hs) = if same_time h.triggered_at t then found h else find_time t hs

abbrev pub put : FinanceTrigger → Store → Bool → Option UpdateResult × Store
put t s true = (some (record { matched_count = 1; modified_count = 1 }), record s { trigger = t })
put t s false = (some (record { matched_count = 0; modified_count = 0 }), s)

abbrev pub database : TriggerDatabase Store
database = record {
  find_trigger = λ name s. if str_eq s.trigger.name name then found s.trigger else no_document;
  update_trigger = λ name v t s. put t s (str_eq s.trigger.name name && (s.trigger.version == v));
  new_object_id = λ s. length s.histories;
  insert_history = λ h s. (some h.id, record s { histories = h ∷ s.histories });
  find_triggered_at = λ t s. find_time t s.histories;
  count_triggered = λ name s. some (length s.histories);
}

abbrev pub trigger_of : String → Store → Option FinanceTrigger
trigger_of name s = if str_eq s.trigger.name name then some s.trigger else none

abbrev pub Recorded : Time → Store → Type 0
Recorded t s = (h : TriggerHistory) × (find_time t s.histories ≡ found h)

found-injective : {t u : FinanceTrigger} → found t ≡ found u → t ≡ u
found-injective e = cc

finds_named :
    (name : String) (t u : FinanceTrigger) (b : Bool)
    → str_eq t.name name ≡ b
    → (if b then found t else no_document) ≡ found u
    → ((if b then some t else none) ≡ some u) × (u.name ≡ name)
finds_named name t u true named e = (
  cc,
  ap (λ (x : FinanceTrigger). x.name) (found-injective (sym e)) ∙ (eq_iff t.name name).0 named,
)
finds_named name t u false named e = cc

later : (a : Time) → a <ℤ (a +ℤ pos 1_000_000)
later a = omega (arith, +ℤ_parts a (pos 1_000_000))

put_matches :
    (v : ℕ) (t : FinanceTrigger) (s s' : Store) (r : UpdateResult) (b : Bool)
    → (str_eq s.trigger.name t.name && (s.trigger.version == v)) ≡ b
    → put t s b ≡ (some r, s')
    → r.matched_count ≡ 1
    → (old read : FinanceTrigger) × (trigger_of t.name s ≡ some old)
      × (old.version ≡ v)
      × (trigger_of t.name s' ≡ some read)
      × IsReadBack t read
put_matches v t s s' r true test e one =
    let (named, same) = both_true (str_eq s.trigger.name t.name) (s.trigger.version == v) test in
    let state : record s { trigger = t } ≡ s' = ap (λ (x : Option UpdateResult × Store). x.1) e in
    let self : str_eq t.name t.name ≡ true = (eq_iff t.name t.name).1 refl in
    (
      s.trigger,
      t,
      rw named refl,
      ground arith,
      ap (trigger_of t.name) (sym state) ∙ rw self refl,
      record { version = refl; is_enable = refl; trigger_at = λ a at. (a, at, later a) },
    )
put_matches v t s s' r false test e one = absurd (ground arith)

pub database-HoldsTriggers : HoldsTriggers database trigger_of
database-HoldsTriggers = record {
  finds = λ name s t e. finds_named name s.trigger t (str_eq s.trigger.name name) refl e;
  matches = λ v t s s' r e one. put_matches v t s s' r _ refl e one;
  keeps = λ name h s. refl;
}

Recorded_later :
    (t : Time) (h : TriggerHistory) (hs : List TriggerHistory) (b : Bool)
    → ((x : TriggerHistory) × (find_time t hs ≡ found x))
    → (x : TriggerHistory) × ((if b then found h else find_time t hs) ≡ found x)
Recorded_later t h hs true (x, e) = (h, refl)
Recorded_later t h hs false (x, e) = (x, e)

eqb_same : (t : Time) → eqb_ℤ t t ≡ true
eqb_same (pos n) = ground arith
eqb_same (negsuc n) = ground arith

no_document-ne-found : {h : TriggerHistory} → no_document ≢ found h
no_document-ne-found e = cc

inserted :
    (t : Time) (h : TriggerHistory) (s s' : Store)
    → h.triggered_at ≡ some t
    → record s { histories = h ∷ s.histories } ≡ s'
    → Recorded t s'
inserted t h s s' dated e = subst (Recorded t) e (h, rw (dated, eqb_same t) refl)

put_keeps :
    (x : Time) (t : FinanceTrigger) (s : Store) (b : Bool) → Recorded x s → Recorded x (put t s b).1
put_keeps x t s true has = has
put_keeps x t s false has = has

pub database-HoldsHistories : HoldsHistories database Recorded
database-HoldsHistories = record {
  finds = λ t s h e. (h, e);
  misses = λ t s e has. no_document-ne-found (sym e ∙ has.1);
  inserts =
      λ t h id s s' dated e. inserted t h s s' dated (ap (λ (x : Option ObjectId × Store). x.1) e);
  keeps = λ t h s has. Recorded_later t h s.histories (same_time h.triggered_at t) has;
  unaffected = λ x name v t s has. put_keeps x t s _ has;
}

-- a trigger every day at midnight, made at the start of the epoch
abbrev pub daily : FinanceTrigger
daily = record {
  version = 7;
  doc_version = "1.0.0";
  name = "seller";
  group = "";
  cron = "";
  duration = pos 72;
  interval = pos 24;
  time_unit = TimeUnit.hour_unit;
  trigger_point = "00:00";
  trigger_point_type = TriggerPointType.absolute;
  latest_trigger_at = none;
  trigger_at = some (pos 86_400_000_000_000);
  type = TriggerType.seller_trigger;
  is_active = true;
  is_enable = true;
  test_mode = false;
  exec_mode = TriggerExecMode.sequential_trigger;
  job_exec_type = TriggerJobExecType.sync_job;
  created_at = pos 0;
  updated_at = pos 0;
  deleted_at = none;
}

abbrev pub start : Store
start = record { trigger = daily; histories = [] }

-- a tick so many nanoseconds after the start of this day
abbrev pub tick : ℕ → ℕ → SchedulerEnv
tick day ns = record {
  timestamp = pos (day * 86_400_000_000_000 + ns);
  update_time = pos (day * 86_400_000_000_000 + ns);
  format_date = λ t. "1970-01-02";
  parse_time = λ text. some (pos (day * 86_400_000_000_000));
  finance_trigger_name = "seller";
  finance_trigger_interval = pos 86_400_000_000_000;
}
