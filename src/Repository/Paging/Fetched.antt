-- ===== src/Repository/Paging/Fetched.antt =====
-- What the loops of findEligibleFinance and findPaymentPendingFinance send, over all pages.
use finance_service.Base.{
  ℕ, zero, suc, ◌+◌, ◌*◌, ◌≤◌, ◌<◌, ◌≡◌, ◌≢◌, refl, sym, ap, ◌∙◌, true, false, inl, inr, Option,
  none, some, List, [], ◌∷◌, ◌++◌, length, take, drop, ltb, Bool-cases, arith,
}
use mathlib.Core.Option
use mathlib.Core.List.{append-nil}
use native.Mathlib.Nat.{zero-add}
use finance_service.Repository.Paging.{Query, Interrupts, fetch_pages, available_pages}
use finance_service.Repository.Paging.Found.{
  Serves, page_found, page_missing, page_available, page_beyond,
}

-- the context of the task does not end
pub record IsQuiet (c : Interrupts) : Type 0 where
  pub not_done : (i : ℕ) → c.done i ≡ false
  pub not_cut : (i : ℕ) → c.cut i ≡ none

module _ {ℓ} {A : Type ℓ} where
  take-take : (k m : ℕ) (xs : List A) → (n : ℕ) × (take k (take m xs) ≡ take n xs)
  take-take zero m xs = (0, refl)
  take-take (suc k) zero xs = (0, refl)
  take-take (suc k) (suc m) [] = (0, refl)
  take-take (suc k) (suc m) (x ∷ xs) = let (n, e) = take-take k m xs in (suc n, ap (λ t. x ∷ t) e)

  take-nil : (k : ℕ) → take {A = A} k [] ≡ []
  take-nil zero = refl
  take-nil (suc k) = refl

  drop-nil : (k : ℕ) → drop {A = A} k [] ≡ []
  drop-nil zero = refl
  drop-nil (suc k) = refl

  take-add : (m n : ℕ) (xs : List A) → take m xs ++ take n (drop m xs) ≡ take (m + n) xs
  take-add zero n xs = rw zero-add refl
  take-add (suc m) n [] = rw (take-nil n, take-nil (suc m + n)) refl
  take-add (suc m) n (x ∷ xs) =
      let e : suc m + n ≡ suc (m + n) = omega arith in rw e (ap (λ t. x ∷ t) (take-add m n xs))

  drop-drop : (m n : ℕ) (xs : List A) → drop m (drop n xs) ≡ drop (n + m) xs
  drop-drop m zero xs = rw zero-add refl
  drop-drop m (suc n) [] = rw (drop-nil m, drop-nil (suc n + m)) refl
  drop-drop m (suc n) (x ∷ xs) =
      let e : suc n + m ≡ suc (n + m) = omega arith in rw e (drop-drop m n xs)

  take_all : (n : ℕ) (xs : List A) → length xs ≤ n → take n xs ≡ xs
  take_all zero [] h = refl
  take_all zero (x ∷ xs) h = absurd (omega arith)
  take_all (suc n) [] h = refl
  take_all (suc n) (x ∷ xs) h = ap (λ t. x ∷ t) (take_all n xs (omega arith))

still_open : (i a : ℕ) → ltb a (suc i) ≡ false → ltb i a ≡ true
still_open i a h = ground arith

still_last : (i a : ℕ) → ltb a (suc i) ≡ true → ltb i a ≡ false
still_last i a h = ground arith

some-ne-none : {k : ℕ} → some k ≢ none
some-ne-none h = cc

true-ne-false : true ≢ false
true-ne-false h = cc

module _ {A : Type 0} (c : Interrupts) (q : ℕ → Query A) (docs : List A)
    (serves : (i : ℕ) → Serves (q i) docs) where
  -- what is sent from a round on: so many of the documents that are left
  abbrev Sends : ℕ → Option (List A) → Type 0
  Sends i sent =
      (n : ℕ) × (sent ≡ some (take n (drop (i * 64) docs))) × (IsQuiet c → length docs ≤ n + i * 64)

  last_page :
      (i : ℕ)
      → length docs ≤ suc i * 64
      → (xs : List A) → xs ≡ take 64 (drop (i * 64) docs)
      → Sends i (some (xs ++ []))
  last_page i h xs e = (64, ap some (append-nil xs ∙ e), λ quiet. omega arith)

  more_pages :
      (i : ℕ) (rest : Option (List A))
      → Sends (suc i) rest
      → Sends i (Option.map (λ xs. take 64 (drop (i * 64) docs) ++ xs) rest)
  more_pages i rest (n, e, all) =
      let next : suc i * 64 ≡ i * 64 + 64 = omega arith in
      (
        64 + n,
        rw e (
            ap some (
              ap (λ k. take 64 (drop (i * 64) docs) ++ take n (drop k docs)) next
              ∙ ap (λ t. take 64 (drop (i * 64) docs) ++ take n t)
                  (sym (drop-drop 64 (i * 64) docs))
              ∙ take-add 64 n (drop (i * 64) docs))),
        λ quiet. omega (arith, all quiet),
      )

  loop_ends :
      (fuel i available : ℕ)
      → ltb i available ≡ false
      → fetch_pages c q (suc fuel) i available ≡ some []
  unfolding fetch_pages
  loop_ends fuel i available last = rw (last, fetch_pages) refl

  after_page :
      (fuel i : ℕ)
      → i * 64 < length docs
      → length docs + 64 < (i + suc fuel) * 64
      → ((suc i * 64 < length docs
          → ltb (suc i) (available_pages (length docs) 64) ≡ true
          → Sends (suc i) (fetch_pages c q fuel (suc i) (available_pages (length docs) 64))))
      → Sends i (
          Option.map
            (λ xs. take 64 (drop (i * 64) docs) ++ xs)
            (fetch_pages c q fuel (suc i) (available_pages (length docs) 64)))
  after_page zero i begun enough rest = absurd (omega arith)
  after_page (suc fuel) i begun enough rest = elim (Bool-cases (ltb (suc i * 64) (length docs))) [
    | inl inside ↦
        let lt : suc i * 64 < length docs = ground arith in
        more_pages i _ (
          rest lt (still_open (suc i) _ (page_available (length docs) (suc i) 63 (omega arith) lt)))
    | inr outside ↦
        let le : length docs ≤ suc i * 64 = ground arith in
        let last : ltb (suc i) (available_pages (length docs) 64) ≡ false =
          still_last (suc i) _ (page_beyond (length docs) (suc i) 63 (omega arith) le) in
        rw (loop_ends fuel (suc i) _ last) (last_page i le _ refl)
  ]

  cut_page :
      (i : ℕ)
      → (next : Option (List A)) → Sends i next
      → (k : Option ℕ) → c.cut i ≡ k
      → Sends i (elim k [ some k ↦ some (take k (take 64 (drop (i * 64) docs))) | none ↦ next ])
  cut_page i next sends none e = sends
  cut_page i next sends (some k) e =
      let (n, same) = take-take k 64 (drop (i * 64) docs) in
      (n, ap some same, λ quiet. absurd (some-ne-none (sym e ∙ quiet.not_cut i)))

  fetched_from :
      (fuel i available : ℕ)
      → i * 64 < length docs
      → ltb i available ≡ true
      → length docs + 64 < (i + fuel) * 64
      → Sends i (fetch_pages c q fuel i available)
  unfolding fetch_pages
  fetched_from zero i available begun open_page enough = absurd (omega arith)
  fetched_from (suc fuel) i available begun open_page enough =
      rw (open_page, fetch_pages)
        (elim (Bool-cases (c.done i)) [
          | inl done ↦
              rw done (0, refl, λ quiet. absurd (true-ne-false (sym done ∙ quiet.not_done i)))
          | inr live ↦
              rw (live, page_found (q i) docs (serves i) i begun)
                (cut_page i _
                  (after_page fuel i begun enough
                    (λ inside opened. fetched_from fuel (suc i) _ inside opened (omega arith)))
                  (c.cut i) refl)
        ])

  no_page : (fuel : ℕ) → length docs ≡ 0 → 0 < fuel → fetch_pages c q fuel 0 1 ≡ some []
  unfolding fetch_pages
  no_page zero empty enough = absurd (omega arith)
  no_page (suc fuel) empty enough = elim (Bool-cases (c.done 0)) [
    | inl done ↦ rw done refl
    | inr live ↦ rw (live, page_missing (q 0) docs (serves 0) empty) refl
  ]

  -- When in every round the filter matches the same documents in the same order, so that none of those
  -- that were sent leaves it while the loop runs, and no request fails, and the fuel covers the documents
  -- and a page more, then the loop over the pages ends and sends the first n documents in order, for some
  -- n, whenever the context ends; if the context does not end it sends all documents.
  pub fetch_pages_lem :
      (fuel : ℕ)
      → length docs + 64 < fuel * 64
      → (n : ℕ) × (fetch_pages c q fuel 0 1 ≡ some (take n docs)) × (IsQuiet c → take n docs ≡ docs)
  fetch_pages_lem fuel enough = elim (Bool-cases (ltb 0 (length docs))) [
    | inl some_docs ↦
        let (n, e, all) = fetched_from fuel 0 1 (ground arith) refl (omega arith) in
        (n, e, λ quiet. take_all n docs (omega (arith, all quiet)))
    | inr no_docs ↦
        (0, no_page fuel (ground arith) (omega arith), λ quiet. take_all 0 docs (ground arith))
  ]
