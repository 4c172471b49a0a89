-- ===== src/Examples/Documents.antt =====
-- A database of finances as a map, and a finance that is deleted in it.
use text.Mathlib.Text.{◌==◌ as str_eq}
use text.Mathlib.TextEquality.{eq_iff}
use finance_service.Base.{
  ◌≡◌, refl, sym, ap, ◌∙◌, Bool, true, false, Option, none, some, String, List, [], ◌∷◌,
  if◌then◌else◌,
}
use finance_service.Base.Int.{pos}
use finance_service.Base.Outcome.{value, failure, not_found, some-injective}
use finance_service.Entities.{Time, SellerFinance}
use finance_service.Repository.Triggers.{no_document, UpdateResult}
use finance_service.Repository.Documents.{DocumentRequests, marked}
use finance_service.Repository.Documents.Catalogue.{
  Catalogue, live_in, set_at, Command, find, exist, delete_at, remove_at, Answer, finance_answer,
  exists_answer, done_answer, expected, all_expected, perform, perform_all, found_for, number_there,
  Keeps,
}
use finance_service.Repository.Documents.Refined.{perform_all-refines}
use finance_service.Examples.Data.{finance}

abbrev named : String → Option SellerFinance → Option SellerFinance
named fid none = none
named fid (some f) = some (record f { fid = fid })

-- what a map holds, each finance under its fid
abbrev docs : Catalogue → Catalogue
docs s fid = named fid (s fid)

abbrev set_if :
    String → SellerFinance → Option SellerFinance → Catalogue → Option UpdateResult × Catalogue
set_if fid f none s = (some (record { matched_count = 0; modified_count = 0 }), s)
set_if fid f (some old) s =
    (some (record { matched_count = 1; modified_count = 1 }), set_at fid (some f) s)

abbrev requests : DocumentRequests Catalogue
requests = record {
  find_one = λ fid s. found_for (live_in (docs s fid));
  count_live = λ s. some 0;
  update_one = λ fid f s. set_if fid f (live_in (docs s fid)) s;
  set_status = λ fid version status s. (no_document, s);
  delete_live = λ now s. (true, s);
  remove_one = λ fid s. (some (number_there (docs s fid)), set_at fid none s);
  remove_many = λ s. (true, λ key. none);
}

abbrev same : SellerFinance → SellerFinance
same f = f

named_lem :
    (fid : String) (o : Option SellerFinance) (f : SellerFinance)
    → named fid o ≡ some f
    → f.fid ≡ fid
named_lem fid none f h = cc
named_lem fid (some g) f h = ap (λ (x : SellerFinance). x.fid) (sym (some-injective h))

set_if-answer :
    (fid : String) (f old : SellerFinance) (o : Option SellerFinance) (s : Catalogue)
    → o ≡ some old
    → ((set_if fid f o s).0 ≡ some (record { matched_count = 1; modified_count = 1 }))
      × ((set_if fid f o s).1 ≡ set_at fid (some f) s)
set_if-answer fid f old o s h = rw h (refl, refl)

-- a finance under its own fid
own_name : (f : SellerFinance) (key : String) → f.fid ≡ key → named key (some f) ≡ some f
own_name f key e = ap (λ k. some (record f { fid = k })) (sym e)

set_at_lem :
    (f : SellerFinance) (key : String) (there : Bool) (s : Catalogue)
    → (there ≡ true → f.fid ≡ key)
    → named key (if there then some f else s key) ≡ (if there then some f else docs s key)
set_at_lem f key true s h = own_name f key (h refl)
set_at_lem f key false s h = refl

take_lem :
    (key : String) (there : Bool) (s : Catalogue)
    → named key (if there then none else s key) ≡ (if there then none else docs s key)
take_lem key true s = refl
take_lem key false s = refl

requests-Keeps : Keeps requests same docs
requests-Keeps = record {
  named = λ s fid f h. named_lem fid (s fid) f h;
  finds = λ s fid. refl;
  keeps_deletion = λ f. refl;
  sets_answer = λ s f old now there. (set_if-answer f.fid (marked now f) old _ s there).0;
  sets = λ s f old now key there.
      ap (λ x. docs x key) (set_if-answer f.fid (marked now f) old _ s there).1
      ∙ set_at_lem (marked now f) key (str_eq f.fid key) s (λ e. (eq_iff f.fid key).0 e);
  removes_answer = λ s fid. refl;
  removes = λ s fid key. take_lem key (str_eq fid key) s;
}

abbrev one : Catalogue
one fid = if str_eq "F" fid then some (finance []) else none

abbrev commands : List Command
commands =
    exist "F" ∷ delete_at (pos 30) "F" ∷ find "F" ∷ exist "F" ∷ remove_at "F" ∷ remove_at "F" ∷ []

-- The answers: the finance is there, deleted, no longer found, and its document is removed once.
abbrev answers : List Answer
answers =
    exists_answer (value true)
    ∷ finance_answer (value (marked (pos 30) (finance [])))
    ∷ finance_answer (failure not_found)
    ∷ exists_answer (value false)
    ∷ done_answer (value tt)
    ∷ done_answer (failure not_found)
    ∷ []

perform_all-refines_example :
    (((perform_all requests commands one).0, docs (perform_all requests commands one).1)
      ≡ all_expected same commands (docs one))
    × ((now : Time) (fid : String)
        → live_in (docs (perform requests (delete_at now fid) one).1 fid) ≡ none)
perform_all-refines_example = perform_all-refines requests same docs requests-Keeps commands one

answers_test : (all_expected same commands (docs one)).0 ≡ answers
unfolding all_expected expected
answers_test = refl
