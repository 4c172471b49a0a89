-- ===== src/Repository/Triggers.antt =====
-- The repositories of the triggers and of their histories: FindByName and Update of
-- domain/model/repository/trigger, Save, ExistsByTriggeredAt and CountWithFilter of
-- domain/model/repository/triggerHistory, over the calls that they make of the MongoDB driver.
pub mod Versions
use finance_service.Base.{
  ℕ, ◌+◌, ◌%◌, ◌≡◌, Bool, true, false, ◌&&◌, String, Option, none, some, ◌==◌, if◌then◌else◌,
}
use finance_service.Base.Int.{pos, ◌+ℤ◌, ◌<ℤ◌}
use finance_service.Base.Outcome.{Reply, value, failure, not_found, internal_error}
use finance_service.Entities.{Time, ObjectId, FinanceTrigger, TriggerHistory}

-- FindOne: a document, no document, or an error of the request or of the decoding
pub data Found (A : Type 0) : Type 0 where
  found : A → Found A
  no_document : Found A
  find_error : Found A

-- the two counts of mongo.UpdateResult that the code reads
pub record UpdateResult : Type 0 where
  pub matched_count : ℕ
  pub modified_count : ℕ

-- The requests to the database, whose state is S. A name finds the trigger that is not deleted; an
-- update also asks for a version. `none` is an error.
pub record TriggerDatabase (S : Type 0) : Type 0 where
  pub find_trigger : String → S → Found FinanceTrigger
  pub update_trigger : String → ℕ → FinanceTrigger → S → Option UpdateResult × S
  pub new_object_id : S → ObjectId
  pub insert_history : TriggerHistory → S → Option ObjectId × S
  pub find_triggered_at : Time → S → Found TriggerHistory
  pub count_triggered : String → S → Option ℕ

abbrev pub reply_of : {A : Type 0} → Found A → Reply A
reply_of (found a) = value a
reply_of no_document = failure not_found
reply_of find_error = failure internal_error

unfoldable pub find_by_name : {S : Type 0} → TriggerDatabase S → String → S → Reply FinanceTrigger
find_by_name db name s = reply_of (db.find_trigger name s)

-- `updateResult.MatchedCount != 1 || updateResult.ModifiedCount != 1`
abbrev pub update_reply : {A : Type 0} → A → Option UpdateResult → Reply A
update_reply t none = failure internal_error
update_reply t (some r) =
    if (r.matched_count == 1) && (r.modified_count == 1) then value t else failure not_found

-- the document that Update writes; the version is a uint64
abbrev pub next_version : Time → FinanceTrigger → FinanceTrigger
next_version now t = record t {
  updated_at = now;
  version = (t.version + 1) % 18_446_744_073_709_551_616;
}

unfoldable pub update :
    {S : Type 0} → TriggerDatabase S → Time → FinanceTrigger → S → Reply FinanceTrigger × S
update db now t s =
    let (result, s') = db.update_trigger t.name t.version (next_version now t) s in
    (update_reply (next_version now t) result, s')

abbrev pub after_insert : TriggerHistory → Option ObjectId → Reply TriggerHistory
after_insert h none = failure internal_error
after_insert h (some id) = value (record h { id = id })

abbrev pub first_version : ObjectId → TriggerHistory → TriggerHistory
first_version id h = record h { version = 1; doc_version = "1.0.1"; id = id }

unfoldable pub save_history :
    {S : Type 0} → TriggerDatabase S → TriggerHistory → S → Reply TriggerHistory × S
save_history db h s =
    let new = first_version (db.new_object_id s) h in
    let (result, s') = db.insert_history new s in (after_insert new result, s')

abbrev pub is_found : Found TriggerHistory → Reply Bool
is_found (found h) = value true
is_found no_document = value false
is_found find_error = failure internal_error

unfoldable pub exists_by_triggered_at : {S : Type 0} → TriggerDatabase S → Time → S → Reply Bool
exists_by_triggered_at db t s = is_found (db.find_triggered_at t s)

abbrev pub count_reply : Option ℕ → Reply ℕ
count_reply none = failure internal_error
count_reply (some n) = value n

unfoldable pub count_with_filter : {S : Type 0} → TriggerDatabase S → String → S → Reply ℕ
count_with_filter db name s = count_reply (db.count_triggered name s)

-- What is kept of a trigger that is written and read back: a time loses less than a millisecond.
pub record IsReadBack (written read : FinanceTrigger) : Type 0 where
  pub version : read.version ≡ written.version
  pub is_enable : read.is_enable ≡ written.is_enable
  pub trigger_at :
      (a : Time)
      → written.trigger_at ≡ some a
      → (b : Time) × (read.trigger_at ≡ some b) × (a <ℤ (b +ℤ pos 1_000_000))

-- How the database answers requests about a trigger, whose stored document is `trigger_of`. There is
-- one for each name, by the unique index on it.
pub record HoldsTriggers {S : Type 0} (db : TriggerDatabase S)
    (trigger_of : String → S → Option FinanceTrigger) : Type 0 where
  pub finds :
      (name : String) (s : S) (t : FinanceTrigger)
      → db.find_trigger name s ≡ found t
      → (trigger_of name s ≡ some t) × (t.name ≡ name)
  -- an update that matched found the version that it asked for, and wrote the document
  pub matches :
      (version : ℕ) (t : FinanceTrigger) (s s' : S) (r : UpdateResult)
      → db.update_trigger t.name version t s ≡ (some r, s')
      → r.matched_count ≡ 1
      → (old read : FinanceTrigger) × (trigger_of t.name s ≡ some old)
        × (old.version ≡ version)
        × (trigger_of t.name s' ≡ some read)
        × IsReadBack t read
  -- histories stand in a collection of their own
  pub keeps :
      (name : String) (h : TriggerHistory) (s : S)
      → trigger_of name (db.insert_history h s).1 ≡ trigger_of name s

-- How the database answers requests about histories: whether a history of a time is recorded.
pub record HoldsHistories {S : Type 0} (db : TriggerDatabase S) (Recorded : Time → S → Type 0)
    : Type 0 where
  pub finds :
      (t : Time) (s : S) (h : TriggerHistory) → db.find_triggered_at t s ≡ found h → Recorded t s
  pub misses : (t : Time) (s : S) → db.find_triggered_at t s ≡ no_document → ¬ Recorded t s
  pub inserts :
      (t : Time) (h : TriggerHistory) (id : ObjectId) (s s' : S)
      → h.triggered_at ≡ some t
      → db.insert_history h s ≡ (some id, s')
      → Recorded t s'
  pub keeps :
      (t : Time) (h : TriggerHistory) (s : S) → Recorded t s → Recorded t (db.insert_history h s).1
  pub unaffected :
      (x : Time) (name : String) (version : ℕ) (t : FinanceTrigger) (s : S)
      → Recorded x s
      → Recorded x (db.update_trigger name version t s).1
