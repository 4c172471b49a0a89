-- ===== src/Examples/Repository.antt =====
-- Tests and uses of the theorems on the repositories.
use finance_service.Base.{
  suc, zero, ℕ, ◌+◌, ◌*◌, ◌≡◌, refl, sym, ap, ◌∙◌, Bool, true, false, ◌&&◌, ◌||◌, String, Option,
  none, some, List, [], ◌∷◌, ◌++◌, length, take, drop, replicate, ◌==◌, if◌then◌else◌, arith,
}
use finance_service.Base.Text.{itoa}
use finance_service.Entities.{SellerFinance}
use finance_service.Repository.Triggers.{UpdateResult}
use finance_service.Repository.Finances.{
  FinanceDatabase, HoldsFinances, generate_id, mark_orders, mark_infos, new_finance, next_finance,
  insert, upsert, save,
}
use finance_service.Repository.Finances.Saved.{StoredNew, save-new, save_conflicts}
use finance_service.Examples.Data.{finance, order, info, item, both_true}
use text.Mathlib.Text.{◌==◌ as str_eq}
use text.Mathlib.TextEquality.{eq_iff}
use finance_service.Base.Int.{pos, pos_part, ltb_ℤ, int64}
use finance_service.Base.Outcome.{ErrorCode, value, failure, bad_request}
use finance_service.Repository.Paging.{
  Query, Interrupts, fetch_pages, find_by_filter_with_page, available_pages,
}
use finance_service.Repository.Paging.Found.{Serves, expected_page, find_by_filter_with_page_lem}
use finance_service.Repository.Paging.Fetched.{IsQuiet, fetch_pages_lem}

-- seventy documents: two pages of 64
abbrev docs : List ℕ
docs = replicate 64 1 ++ replicate 6 2

abbrev query : Query ℕ
query = record {
  count = value (length docs);
  find = λ skip n. value (take n (drop (pos_part skip) docs));
}

query-Serves : Serves query docs
query-Serves = record { count = refl; find = λ skip n. refl; fits = omega arith }

abbrev quiet : Interrupts
quiet = record { done = λ _. false; cut = λ _. none }

quiet_run : fetch_pages quiet (λ i. query) 4 0 1 ≡ some docs
unfolding fetch_pages find_by_filter_with_page available_pages int64
quiet_run = refl

-- the finances that the first page sent have left the filter when the second page is asked for
abbrev leaving : ℕ → Query ℕ
leaving zero = query
leaving (suc i) = record {
  count = value 6;
  find = λ skip n. value (take n (drop (pos_part skip) (replicate 6 2)));
}

-- the six others are not sent
leaving_run : fetch_pages quiet leaving 4 0 1 ≡ some (replicate 64 1)
unfolding fetch_pages find_by_filter_with_page available_pages int64
leaving_run = refl

-- the context ends after two finances were sent
abbrev short : Interrupts
short = record { done = λ _. false; cut = λ _. some 2 }

short_run : fetch_pages short (λ i. query) 4 0 1 ≡ some (take 2 docs)
unfolding fetch_pages find_by_filter_with_page available_pages int64
short_run = refl

find_by_filter_with_page_lem_example :
    (find_by_filter_with_page query (pos 2) (pos 64) ≡ expected_page docs 64 64)
    × ((ltb_ℤ (pos 0) (pos 1) || ltb_ℤ (pos 64) (pos 1)) ≡ true
        → find_by_filter_with_page query (pos 0) (pos 64) ≡ failure bad_request)
find_by_filter_with_page_lem_example =
    find_by_filter_with_page_lem query docs query-Serves 1 63 (pos 0) (pos 64)

fetch_pages_lem_example :
    (n : ℕ) × (fetch_pages short (λ i. query) 4 0 1 ≡ some (take n docs))
    × (IsQuiet short → take n docs ≡ docs)
fetch_pages_lem_example =
    fetch_pages_lem short (λ i. query) docs (λ i. query-Serves) 4 (omega arith)

-- a collection of one finance
abbrev replaced : SellerFinance → SellerFinance → Bool → Option UpdateResult × SellerFinance
replaced f s true = (some (record { matched_count = 1; modified_count = 1 }), f)
replaced f s false = (none, s)

abbrev one_finance : FinanceDatabase SellerFinance
one_finance = record {
  insert_finance = λ f s. (some 5, f);
  upsert_finance = λ fid v f s. replaced f s (str_eq s.fid fid && (s.version == v));
  order_id = λ s i j. 100 + 10 * i + j;
}

abbrev finance_of : String → SellerFinance → Option SellerFinance
finance_of fid s = if str_eq s.fid fid then some s else none

replaced_matches :
    (v : ℕ) (f s s' : SellerFinance) (r : UpdateResult) (b : Bool)
    → (str_eq s.fid f.fid && (s.version == v)) ≡ b
    → replaced f s b ≡ (some r, s')
    → r.matched_count ≡ 1
    → (old read : SellerFinance) × (finance_of f.fid s ≡ some old)
      × (old.version ≡ v)
      × (finance_of f.fid s' ≡ some read)
      × (read.version ≡ f.version)
replaced_matches v f s s' r true test e one =
    let (named, same) = both_true (str_eq s.fid f.fid) (s.version == v) test in
    let state : f ≡ s' = ap (λ (x : Option UpdateResult × SellerFinance). x.1) e in
    let self : str_eq f.fid f.fid ≡ true = (eq_iff f.fid f.fid).1 refl in
    (s, f, rw named refl, ground arith, ap (finance_of f.fid) (sym state) ∙ rw self refl, refl)
replaced_matches v f s s' r false test e one = cc

one_finance-HoldsFinances : HoldsFinances one_finance finance_of
one_finance-HoldsFinances = record {
  matches = λ v f s s' r e one. replaced_matches v f s s' r _ refl e one;
}

-- the finance of a seller whose id has digits to print
abbrev fresh : SellerFinance
fresh = record (finance (info (order 1 (item 1 "3" ∷ []) ∷ order 2 [] ∷ []) ∷ [])) {
  fid = "";
  seller_id = 9;
}

abbrev stored_fresh : SellerFinance
stored_fresh = record fresh {
  id = 5;
  fid = "97";
  version = 1;
  doc_version = "1.0.1";
  orders_info =
      info (
        record (order 1 (item 1 "3" ∷ [])) { fid = "97"; id = 100 }
        ∷ record (order 2 []) { fid = "97"; id = 101 }
        ∷ [])
      ∷ [];
}

save_test :
    save one_finance (pos 7_000) fresh (finance [])
    ≡ (value stored_fresh, record stored_fresh { id = fresh.id })
unfolding save insert new_finance mark_infos mark_orders generate_id itoa
save_test = refl

save-new_example :
    StoredNew one_finance
      (generate_id 9 (pos 7_000))
      fresh
      stored_fresh
      (finance [])
      (record stored_fresh { id = fresh.id })
save-new_example =
    save-new one_finance (pos 7_000) fresh stored_fresh (finance [])
      (record stored_fresh { id = fresh.id }) refl save_test

abbrev kept : SellerFinance
kept = record stored_fresh { id = fresh.id }

again_test :
    save one_finance (pos 8) kept kept
    ≡ (value (next_finance (pos 8) kept), next_finance (pos 8) kept)
unfolding save upsert
again_test = refl

save_conflicts_example :
    (code : ErrorCode) × (s : SellerFinance) × (save one_finance
        (pos 9)
        kept
        (next_finance (pos 8) kept)
      ≡ (failure code, s))
save_conflicts_example =
    save_conflicts one_finance finance_of one_finance-HoldsFinances (pos 8) (pos 9) kept
      (next_finance (pos 8) kept) kept kept (next_finance (pos 8) kept) refl again_test refl refl
