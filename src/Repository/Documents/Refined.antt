-- ===== src/Repository/Documents/Refined.antt =====
-- The repository behaves as the map of Repository.Documents.Catalogue.
use text.Mathlib.Text.{◌==◌ as str_eq}
use text.Mathlib.TextEquality.{eq_iff}
use finance_service.Base.{
  Bool, true, false, if◌then◌else◌, ◌≡◌, refl, sym, ap, ◌∙◌, String, Option, none, some, List, [],
  ◌∷◌,
}
use finance_service.Base.Outcome.{value}
use finance_service.Entities.{Time, SellerFinance}
use finance_service.Repository.Triggers.{reply_of, update_reply}
use finance_service.Repository.Documents.{
  DocumentRequests, marked, exists_reply, removed_reply, mark, delete_found, find_by_id,
  exists_by_id, delete_by_id, remove_by_id,
}
use finance_service.Repository.Documents.Catalogue.{
  Catalogue, deleted, unless_deleted, number_there, live_in, set_at, reply_for, exists_for, Command,
  find, exist, delete_at, remove_at, Answer, finance_answer, exists_answer, done_answer, hide,
  take_out, expected, all_expected, perform, perform_all, found_for, Keeps,
}

reply_found : (o : Option SellerFinance) → reply_of (found_for o) ≡ reply_for o
reply_found none = refl
reply_found (some f) = refl

exists_found : (o : Option SellerFinance) → exists_reply (found_for o) ≡ exists_for o
exists_found none = refl
exists_found (some f) = refl

unless_deleted-some :
    (deleted : Option Time) (g f : SellerFinance)
    → unless_deleted deleted g ≡ some f
    → ◌≡◌ {A = Option SellerFinance} (some g) (some f)
unless_deleted-some none g f h = h
unless_deleted-some (some t) g f h = cc

-- A document that is not deleted is the one that is there.
live_some : (o : Option SellerFinance) (f : SellerFinance) → live_in o ≡ some f → o ≡ some f
live_some none f h = cc
live_some (some g) f h = unless_deleted-some g.deleted_at g f h

pair_eq {ℓ κ} :
    {A : Type ℓ} {B : Type κ} {a b : A} {c d : B} → a ≡ b → c ≡ d → ◌≡◌ {A = A × B} (a, c) (b, d)
pair_eq e f = cc

-- Two maps that agree at every id are the same.
ext : (c d : Catalogue) → ((key : String) → c key ≡ d key) → c ≡ d
ext c d same = λ i key. same key i

if_none :
    (same : Bool) (o : Option SellerFinance)
    → (same ≡ true → o ≡ none)
    → (if same then none else o) ≡ o
if_none true o h = sym (h refl)
if_none false o h = refl

-- Nothing is taken from a map that holds nothing there.
take_nothing : (fid : String) (c : Catalogue) → c fid ≡ none → set_at fid none c ≡ c
take_nothing fid c h =
    ext (set_at fid none c) c
      (λ key. if_none (str_eq fid key) (c key) (λ same. ap c (sym ((eq_iff fid key).0 same)) ∙ h))

module _ {S : Type 0} (db : DocumentRequests S) (stored : SellerFinance → SellerFinance)
    (docs : S → Catalogue) (keeps : Keeps db stored docs) where
  -- A deletion of a finance that is there.
  mark-refines :
      (now : Time) (s : S) (f : SellerFinance)
      → live_in (docs s f.fid) ≡ some f
      → ((mark db (marked now f) s).0 ≡ value (deleted now f))
        × (docs (mark db (marked now f) s).1
            ≡ set_at f.fid (some (stored (deleted now f))) (docs s))
  mark-refines now s f there = (
    ap (update_reply (deleted now f)) (keeps.sets_answer s f f now there),
    ext _ _ (λ key. keeps.sets s f f now key there),
  )

  hide-refines :
      (now : Time) (fid : String) (s : S) (o : Option SellerFinance)
      → live_in (docs s fid) ≡ o
      → (
        finance_answer (delete_found db now (reply_for o) s).0,
        docs (delete_found db now (reply_for o) s).1,
      )
        ≡ hide stored now fid o (docs s)
  hide-refines now fid s none h = refl
  hide-refines now fid s (some f) h =
      let named = keeps.named s fid f (live_some (docs s fid) f h) in
      let (answer, written) = mark-refines now s f (ap (λ key. live_in (docs s key)) named ∙ h) in
      pair_eq (ap finance_answer answer)
        (written ∙ ap (λ key. set_at key (some (stored (deleted now f))) (docs s)) named)

  take_out-refines :
      (fid : String) (s : S) (o : Option SellerFinance)
      → docs s fid ≡ o
      → (done_answer (remove_by_id db fid s).0, docs (remove_by_id db fid s).1)
        ≡ take_out fid o (docs s)
  unfolding remove_by_id
  take_out-refines fid s none h =
      pair_eq
        (ap (λ r. done_answer (removed_reply r))
          (keeps.removes_answer s fid ∙ ap (λ o. some (number_there o)) h))
        (ext _ _ (keeps.removes s fid) ∙ take_nothing fid (docs s) h)
  take_out-refines fid s (some f) h =
      pair_eq
        (ap (λ r. done_answer (removed_reply r))
          (keeps.removes_answer s fid ∙ ap (λ o. some (number_there o)) h))
        (ext _ _ (keeps.removes s fid))

  perform-refines :
      (command : Command) (s : S)
      → ((perform db command s).0, docs (perform db command s).1) ≡ expected stored command (docs s)
  unfolding perform expected find_by_id exists_by_id delete_by_id
  perform-refines (find fid) s =
      pair_eq
        (ap (λ r. finance_answer (reply_of r)) (keeps.finds s fid)
          ∙ ap finance_answer (reply_found (live_in (docs s fid))))
        refl
  perform-refines (exist fid) s =
      pair_eq
        (ap (λ r. exists_answer (exists_reply r)) (keeps.finds s fid)
          ∙ ap exists_answer (exists_found (live_in (docs s fid))))
        refl
  perform-refines (delete_at now fid) s =
      let answered = ap reply_of (keeps.finds s fid) ∙ reply_found (live_in (docs s fid)) in
      ap (λ r. (finance_answer (delete_found db now r s).0, docs (delete_found db now r s).1))
        answered
      ∙ hide-refines now fid s (live_in (docs s fid)) refl
  perform-refines (remove_at fid) s = take_out-refines fid s (docs s fid) refl

all_performed :
    {S : Type 0} (db : DocumentRequests S) (stored : SellerFinance → SellerFinance)
    (docs : S → Catalogue)
    → Keeps db stored docs
    → (commands : List Command) (s : S)
    → ((perform_all db commands s).0, docs (perform_all db commands s).1)
      ≡ all_expected stored commands (docs s)
unfolding perform_all all_expected
all_performed db stored docs keeps [] s = refl
all_performed db stored docs keeps (command ∷ commands) s =
    ap (λ (r : List Answer × Catalogue). ((perform db command s).0 ∷ r.0, r.1))
      (all_performed db stored docs keeps commands (perform db command s).1)
    ∙ ap
        (λ (r : Answer × Catalogue).
          (r.0 ∷ (all_expected stored commands r.1).0, (all_expected stored commands r.1).1))
        (perform-refines db stored docs keeps command s)

live_deleted :
    (o : Option Time) (f : SellerFinance) (now : Time) → o ≡ some now → unless_deleted o f ≡ none
live_deleted none f now h = cc
live_deleted (some t) f now h = refl

-- Nothing live is left in the map where a finance was deleted.
hide-hides :
    (stored : SellerFinance → SellerFinance)
    → ((f : SellerFinance) → (stored f).deleted_at ≡ f.deleted_at)
    → (now : Time) (fid : String) (o : Option SellerFinance) (c : Catalogue) → live_in (c fid) ≡ o
    → live_in ((hide stored now fid o c).1 fid) ≡ none
hide-hides stored kept now fid none c h = h
hide-hides stored kept now fid (some f) c h = rw ((eq_iff fid fid).1 refl) (
    live_deleted (stored (deleted now f)).deleted_at (stored (deleted now f)) now
      (kept (deleted now f)))

-- With a database that fails no request, any sequence of searches by id, questions of existence,
-- deletions and removals by id gives the answers of the map, and leaves what the map holds then; and
-- after a deletion the map has nothing at this id that is not deleted, so that the finance is not found
-- and does not exist.
pub perform_all-refines :
    {S : Type 0} (db : DocumentRequests S) (stored : SellerFinance → SellerFinance)
    (docs : S → Catalogue)
    → Keeps db stored docs
    → (commands : List Command) (s : S)
    → (((perform_all db commands s).0, docs (perform_all db commands s).1)
        ≡ all_expected stored commands (docs s))
      × ((now : Time) (fid : String)
          → live_in (docs (perform db (delete_at now fid) s).1 fid) ≡ none)
unfolding expected
perform_all-refines db stored docs keeps commands s = (
  all_performed db stored docs keeps commands s,
  λ now fid.
      ap (λ (r : Answer × Catalogue). live_in (r.1 fid))
        (perform-refines db stored docs keeps (delete_at now fid) s)
      ∙ hide-hides stored keeps.keeps_deletion now fid (live_in (docs s fid)) (docs s) refl,
)
