-- ===== src/Repository/Documents/Catalogue.antt =====
-- What the finance repository promises: a map from ids to finances, from which a deletion hides a finance
-- and a removal takes it.
use text.Mathlib.Text.{◌==◌ as str_eq}
use finance_service.Base.{
  ℕ, ◌≡◌, Bool, true, false, String, Option, none, some, List, [], ◌∷◌, if◌then◌else◌,
}
use finance_service.Base.Outcome.{Reply, value, failure, not_found}
use finance_service.Entities.{Time, SellerFinance}
use finance_service.Repository.Triggers.{Found, found, no_document}
use finance_service.Repository.Documents.{
  DocumentRequests, find_by_id, exists_by_id, delete_by_id, remove_by_id,
}

abbrev pub Catalogue : Type 0
Catalogue = String → Option SellerFinance

-- the document, unless it is deleted
abbrev pub unless_deleted : Option Time → SellerFinance → Option SellerFinance
unless_deleted none f = some f
unless_deleted (some t) f = none

abbrev pub live_in : Option SellerFinance → Option SellerFinance
live_in none = none
live_in (some f) = unless_deleted f.deleted_at f

abbrev pub set_at : String → Option SellerFinance → Catalogue → Catalogue
set_at fid f c key = if str_eq fid key then f else c key

abbrev pub reply_for : Option SellerFinance → Reply SellerFinance
reply_for none = failure not_found
reply_for (some f) = value f

abbrev pub exists_for : Option SellerFinance → Reply Bool
exists_for none = value false
exists_for (some f) = value true

pub data Command : Type 0 where
  find : String → Command
  exist : String → Command
  delete_at : Time → String → Command
  remove_at : String → Command

pub data Answer : Type 0 where
  finance_answer : Reply SellerFinance → Answer
  exists_answer : Reply Bool → Answer
  done_answer : Reply (Unit {0}) → Answer

-- a finance that was deleted at this time
abbrev pub deleted : Time → SellerFinance → SellerFinance
deleted now f = record f { deleted_at = some now }

-- A deletion of what the map holds for an id; `stored` is how the map holds a finance that was written.
abbrev pub hide :
    (SellerFinance → SellerFinance)
    → Time
    → String
    → Option SellerFinance
    → Catalogue
    → Answer × Catalogue
hide stored now fid none c = (finance_answer (failure not_found), c)
hide stored now fid (some f) c =
    (finance_answer (value (deleted now f)), set_at fid (some (stored (deleted now f))) c)

abbrev pub take_out : String → Option SellerFinance → Catalogue → Answer × Catalogue
take_out fid none c = (done_answer (failure not_found), c)
take_out fid (some f) c = (done_answer (value tt), set_at fid none c)

unfoldable pub expected : (SellerFinance → SellerFinance) → Command → Catalogue → Answer × Catalogue
expected stored (find fid) c = (finance_answer (reply_for (live_in (c fid))), c)
expected stored (exist fid) c = (exists_answer (exists_for (live_in (c fid))), c)
expected stored (delete_at now fid) c = hide stored now fid (live_in (c fid)) c
expected stored (remove_at fid) c = take_out fid (c fid) c

unfoldable pub all_expected :
    (SellerFinance → SellerFinance) → List Command → Catalogue → List Answer × Catalogue
unfolding expected
all_expected stored [] c = ([], c)
all_expected stored (command ∷ commands) c =
    let (answer, c') = expected stored command c in
    let (answers, c'') = all_expected stored commands c' in (answer ∷ answers, c'')

module _ {S : Type 0} (db : DocumentRequests S) where
  abbrev pub as_finance : Reply SellerFinance × S → Answer × S
  as_finance (r, s) = (finance_answer r, s)

  abbrev pub as_done : Reply (Unit {0}) × S → Answer × S
  as_done (r, s) = (done_answer r, s)

  -- a call of the repository
  unfoldable pub perform : Command → S → Answer × S
  unfolding find_by_id exists_by_id delete_by_id remove_by_id
  perform (find fid) s = (finance_answer (find_by_id db fid s), s)
  perform (exist fid) s = (exists_answer (exists_by_id db fid s), s)
  perform (delete_at now fid) s = as_finance (delete_by_id db now fid s)
  perform (remove_at fid) s = as_done (remove_by_id db fid s)

  unfoldable pub perform_all : List Command → S → List Answer × S
  unfolding perform
  perform_all [] s = ([], s)
  perform_all (command ∷ commands) s =
      let (answer, s') = perform command s in
      let (answers, s'') = perform_all commands s' in (answer ∷ answers, s'')

abbrev pub found_for : Option SellerFinance → Found SellerFinance
found_for none = no_document
found_for (some f) = found f

abbrev pub number_there : Option SellerFinance → ℕ
number_there none = 0
number_there (some f) = 1

-- A database that fails no request: it finds the document with the fid, which is not deleted, $set
-- writes that document, and DeleteOne takes the document with the fid, deleted or not.
pub record Keeps {S : Type 0} (db : DocumentRequests S) (stored : SellerFinance → SellerFinance)
    (docs : S → Catalogue) : Type 0 where
  pub named : (s : S) (fid : String) (f : SellerFinance) → docs s fid ≡ some f → f.fid ≡ fid
  pub finds : (s : S) (fid : String) → db.find_one fid s ≡ found_for (live_in (docs s fid))
  -- what is written keeps the time of its deletion
  pub keeps_deletion : (f : SellerFinance) → (stored f).deleted_at ≡ f.deleted_at
  -- a $set that deletes a document that is not deleted modifies it
  pub sets_answer :
      (s : S) (f old : SellerFinance) (now : Time)
      → live_in (docs s f.fid) ≡ some old
      → (db.update_one f.fid (deleted now f) s).0
        ≡ some (record { matched_count = 1; modified_count = 1 })
  pub sets :
      (s : S) (f old : SellerFinance) (now : Time) (key : String)
      → live_in (docs s f.fid) ≡ some old
      → docs (db.update_one f.fid (deleted now f) s).1 key
        ≡ set_at f.fid (some (stored (deleted now f))) (docs s) key
  pub removes_answer :
      (s : S) (fid : String) → (db.remove_one fid s).0 ≡ some (number_there (docs s fid))
  pub removes :
      (s : S) (fid key : String) → docs (db.remove_one fid s).1 key ≡ set_at fid none (docs s) key
