-- ===== src/Repository/Paging.antt =====
-- FindByFilterWithPage of the repositories, and the loops of findEligibleFinance and
-- findPaymentPendingFinance over the pages that it returns.
pub mod Found
pub mod Fetched
use mathlib.Core.Option
use finance_service.Base.{
  ℕ, zero, suc, ◌+◌, ◌-◌, ◌*◌, ◌/◌, ◌%◌, Bool, true, false, ◌||◌, not, Option, none, some, List, [],
  ◌++◌, take, ltb, ◌==◌, if◌then◌else◌,
}
use finance_service.Base.Int.{ℤ, pos, pos_part, ltb_ℤ, int64}
use finance_service.Base.Outcome.{Reply, value, failure, bad_request, not_found}

-- What a filter stands for in the database: CountWithFilter, and FindMany with a skip and a limit,
-- every document decoded.
pub record Query (A : Type 0) : Type 0 where
  pub count : Reply ℕ
  pub find : ℤ → ℕ → Reply (List A)

-- FinancePageableResult, HistoryPageableResult
pub record Pageable (A : Type 0) : Type 0 where
  pub items : List A
  pub total_count : ℕ

unfoldable pub available_pages : ℕ → ℕ → ℕ
available_pages total per_page =
    let pages = if not (total % per_page == 0) then total / per_page + 1 else total / per_page in
    if ltb total per_page then 1 else pages

module _ {A : Type 0} where
  abbrev pub listed : ℕ → Reply (List A) → Reply (Pageable A)
  listed total (failure e) = failure e
  listed total (value xs) = value (record { items = xs; total_count = total })

  -- the rest of the function, for a page and a page size that are positive
  abbrev pub counted : Query A → ℕ → ℕ → Reply ℕ → Reply (Pageable A)
  counted q page per_page (failure e) = failure e
  counted q page per_page (value total) =
      let offset = int64 (pos ((page - 1) * per_page)) in
      if total == 0
      then failure not_found
      else if ltb (available_pages total per_page) page
      then failure bad_request
      else if not (ltb_ℤ offset (pos total))
      then failure bad_request
      else listed total (q.find offset per_page)

  unfoldable pub find_by_filter_with_page : Query A → ℤ → ℤ → Reply (Pageable A)
  find_by_filter_with_page q page per_page =
      if ltb_ℤ page (pos 1) || ltb_ℤ per_page (pos 1)
      then failure bad_request
      else counted q (pos_part page) (pos_part per_page) q.count

-- When the context of a task ends: before a page is asked for, or in a page, after so many of its
-- finances were sent.
pub record Interrupts : Type 0 where
  pub done : ℕ → Bool
  pub cut : ℕ → Option ℕ

abbrev pub per_page : ℕ
per_page = 64

module _ {A : Type 0} where
  -- The loop from round i on, with availablePages as it then is: what is sent to the stream. Each round
  -- searches anew: `q i` is the collection as it is in round i. `none` means that the fuel ran out.
  unfoldable pub fetch_pages : Interrupts → (ℕ → Query A) → ℕ → ℕ → ℕ → Option (List A)
  fetch_pages c q zero i available = none
  fetch_pages c q (suc fuel) i available = elim (ltb i available) [
    | false ↦ some []
    | true ↦ elim (c.done i) [
      | true ↦ some []
      | false ↦ elim (find_by_filter_with_page (q i) (pos (suc i)) (pos per_page)) [
        | failure e ↦ some []
        | value r ↦ elim (c.cut i) [
          | some k ↦ some (take k r.items)
          | none ↦
              Option.map (λ xs. r.items ++ xs)
                (fetch_pages c q fuel (suc i) (available_pages r.total_count per_page))
        ]
      ]
    ]
  ]
