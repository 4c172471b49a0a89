-- ===== src/Repository/Paging/Found.antt =====
-- Which documents a page holds.
use native.Mathlib.Nat.{mod-lt}
use finance_service.Base.{
  ℕ, zero, suc, ◌+◌, ◌-◌, ◌*◌, ◌/◌, ◌%◌, ◌≤◌, ◌<◌, ◌≡◌, refl, ap, ◌∙◌, true, false, not, ◌||◌, inl,
  inr, List, length, take, drop, ltb, ◌==◌, if◌then◌else◌, Bool-cases, arith,
}
use finance_service.Base.Int.{ℤ, pos, ltb_ℤ, int64, int64_fits}
use finance_service.Base.Outcome.{Reply, value, failure, bad_request, not_found}
use finance_service.Repository.Paging.{
  Query, Pageable, available_pages, counted, listed, find_by_filter_with_page,
}

-- The filter matches these documents, in this order, and the database fails no request.
pub record Serves {A : Type 0} (q : Query A) (docs : List A) : Type 0 where
  pub count : q.count ≡ value (length docs)
  pub find : (skip limit : ℕ) → q.find (pos skip) limit ≡ value (take limit (drop skip docs))
  pub fits : length docs ≤ 9_223_372_036_854_775_807

ltb→le : (a b : ℕ) → ltb a b ≡ true → a ≤ 1 * b
ltb→le a b h = ground arith

ge_of_ltb : (a b : ℕ) → ltb a b ≡ false → b ≤ a
ge_of_ltb a b h = ground arith

lt→ltb_false : (a p : ℕ) → p < a → ltb a (suc p) ≡ false
lt→ltb_false a p h = ground arith

le→ltb : (a p : ℕ) → a ≤ p → ltb a (suc p) ≡ true
le→ltb a p h = ground arith

lt_of_mul : (a p n : ℕ) → p * suc n < a * suc n → p < a
lt_of_mul a p n h = grind arith

le_of_pred_mul : (a p n : ℕ) → 0 < a → (a - 1) * suc n < p * suc n → a ≤ p
le_of_pred_mul a p n pos_a h = let lt : a - 1 < p = lt_of_mul p (a - 1) n h in omega arith

some_page : (total m q r : ℕ) → q * m + r ≡ total → r < m → m ≤ total → 0 < q
some_page total m zero r e lt h = omega arith
some_page total m (suc q) r e lt h = omega arith

mul_facts : (q m : ℕ) → ((q + 1) * m ≡ q * m + m) × ((q + 1 - 1) * m ≡ q * m)
mul_facts q m = let e : q + 1 - 1 ≡ q = omega arith in (omega arith, ap (λ x. x * m) e)

mul_pred : (q m : ℕ) → 0 < q → (q - 1) * m + m ≡ q * m
mul_pred zero m h = omega arith
mul_pred (suc q) m h = let e : suc q - 1 ≡ q = omega arith in rw e (omega arith)

pages_of :
    (total m q r : ℕ)
    → 0 < m
    → q * m + r ≡ total
    → r < m
    → 0 < total
    → let a = if ltb total m then 1 else (if not (r == 0) then q + 1 else q) in
      (total ≤ a * m) × ((a - 1) * m < total) × (0 < a)
pages_of total m q r pm e lt h = elim (Bool-cases (ltb total m)) [
  | inl small ↦ rw small (ltb→le total m small, ground arith, omega arith)
  | inr big ↦
      let some_pages : 0 < q = some_page total m q r e lt (ge_of_ltb total m big) in
      elim (Bool-cases (r == 0)) [
        | inl whole ↦
            rw (big, whole)
              (let z : r ≡ 0 = ground arith in
                (omega (arith, mul_facts q m), omega (arith, mul_pred q m some_pages), some_pages))
        | inr part ↦
            rw (big, part)
              (let z : 0 < r = ground arith in
                (omega (arith, mul_facts q m), omega (arith, mul_facts q m), omega arith))
      ]
]

-- the last available page is the last one that begins before the end
pub available_pages_lem :
    (total n : ℕ)
    → 0 < total
    → (total ≤ available_pages total (suc n) * suc n)
      × ((available_pages total (suc n) - 1) * suc n < total)
      × (0 < available_pages total (suc n))
unfolding available_pages
available_pages_lem total n h =
    pages_of total (suc n) (total / suc n) (total % suc n) (omega arith) (grind arith)
      (mod-lt total (omega arith)) h

-- a page is available exactly if it begins before the end
module _ (total p n : ℕ) (some_docs : 0 < total) where
  pub page_available : p * suc n < total → ltb (available_pages total (suc n)) (suc p) ≡ false
  page_available h =
      let (enough, begun, least) = available_pages_lem total n some_docs in
      lt→ltb_false (available_pages total (suc n)) p
        (lt_of_mul (available_pages total (suc n)) p n (omega arith))

  pub page_beyond : total ≤ p * suc n → ltb (available_pages total (suc n)) (suc p) ≡ true
  page_beyond h =
      let (enough, begun, least) = available_pages_lem total n some_docs in
      le→ltb (available_pages total (suc n)) p
        (le_of_pred_mul (available_pages total (suc n)) p n least (omega arith))

offset_eq :
    (p n total : ℕ)
    → p * suc n < total
    → total ≤ 9_223_372_036_854_775_807
    → int64 (pos ((suc p - 1) * suc n)) ≡ pos (p * suc n)
offset_eq p n total h fits =
    let e : suc p - 1 ≡ p = omega arith in
    rw e (int64_fits (pos (p * suc n)) (omega arith) (omega arith))

ltb_ℤ-lt : (a b : ℕ) → a < b → ltb_ℤ (pos a) (pos b) ≡ true
ltb_ℤ-lt a b h = ground arith

ne_zero : (a : ℕ) → (a == 0) ≡ false → 0 < a
ne_zero a h = ground arith

positive : (a : ℕ) → ltb_ℤ (pos (suc a)) (pos 1) ≡ false
positive a = ground arith

module _ {A : Type 0} (docs : List A) where
  -- what a page of this size after so many documents should be
  abbrev pub expected_page : ℕ → ℕ → Reply (Pageable A)
  expected_page skip limit =
      if length docs == 0
      then failure not_found
      else if ltb skip (length docs)
      then value (record { items = take limit (drop skip docs); total_count = length docs })
      else failure bad_request

module _ {A : Type 0} (q : Query A) (docs : List A) (serves : Serves q docs) where
  counted_eq :
      (p n : ℕ)
      → counted q (suc p) (suc n) (value (length docs)) ≡ expected_page docs (p * suc n) (suc n)
  counted_eq p n = elim (Bool-cases (length docs == 0)) [
    | inl empty ↦ rw empty refl
    | inr some_docs ↦ elim (Bool-cases (ltb (p * suc n) (length docs))) [
      | inl inside ↦
          let lt : p * suc n < length docs = ground arith in
          rw
            (
              some_docs,
              inside,
              page_available (length docs) p n (ne_zero (length docs) some_docs) lt,
              offset_eq p n (length docs) lt serves.fits,
              ltb_ℤ-lt (p * suc n) (length docs) lt,
            )
            (ap (listed (length docs)) (serves.find (p * suc n) (suc n)))
      | inr outside ↦
          rw
            (
              some_docs,
              outside,
              page_beyond (length docs) p n (ne_zero (length docs) some_docs) (ground arith),
            )
            refl
    ]
  ]

  -- When the filter matches documents that the database holds in an order and no request fails, then
  -- FindByFilterWithPage at page p + 1 of n + 1 documents each gives not found if nothing matches,
  -- the documents number p * (n + 1) up to the next page with the total if the page begins before
  -- the end, and a bad request otherwise; a page or a page size that is not positive is a bad
  -- request.
  pub find_by_filter_with_page_lem :
      (p n : ℕ) (page per_page : ℤ)
      → (find_by_filter_with_page q (pos (suc p)) (pos (suc n))
          ≡ expected_page docs (p * suc n) (suc n))
        × ((ltb_ℤ page (pos 1) || ltb_ℤ per_page (pos 1)) ≡ true
            → find_by_filter_with_page q page per_page ≡ failure bad_request)
  unfolding find_by_filter_with_page
  find_by_filter_with_page_lem p n page per_page = (
    rw (positive p, positive n) (ap (counted q (suc p) (suc n)) serves.count ∙ counted_eq p n),
    λ bad. rw bad refl,
  )

  pub page_found :
      (i : ℕ)
      → i * 64 < length docs
      → find_by_filter_with_page q (pos (suc i)) (pos 64)
        ≡ value (record { items = take 64 (drop (i * 64) docs); total_count = length docs })
  page_found i h =
      let some_docs : (length docs == 0) ≡ false = ground arith in
      let inside : ltb (i * 64) (length docs) ≡ true = ground arith in
      (find_by_filter_with_page_lem i 63 (pos 0) (pos 0)).0 ∙ rw (some_docs, inside) refl

  pub page_missing :
      length docs ≡ 0 → find_by_filter_with_page q (pos 1) (pos 64) ≡ failure not_found
  page_missing e =
      let empty : (length docs == 0) ≡ true = ground arith in
      (find_by_filter_with_page_lem 0 63 (pos 0) (pos 0)).0 ∙ rw empty refl
