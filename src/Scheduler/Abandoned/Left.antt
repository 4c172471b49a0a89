-- ===== src/Scheduler/Abandoned/Left.antt =====
-- Which histories abandonedTriggerHistoryHandler leaves running.
use finance_service.Base.{
  ℕ, zero, suc, ◌*◌, ◌≤◌, ◌<◌, ◌≡◌, ◌≢◌, refl, ap, ◌∙◌, true, false, inl, inr, some, List, [], ◌∷◌,
  length, take, drop, length-drop, ltb, ◌==◌, Bool-cases, arith,
}
use finance_service.Base.Int.{pos}
use finance_service.Entities.{Time, TriggerHistory, TriggerRunMode}
use finance_service.Repository.Paging.{available_pages, find_by_filter_with_page}
use finance_service.Repository.Paging.Found.{Serves, expected_page, find_by_filter_with_page_lem}
use finance_service.Scheduler.Abandoned.{
  RunningDatabase, history_version, update_history, abandoned, abandon_all, abandon_pages,
  abandoned_trigger_history_handler,
}

-- The database lists the histories that run in an order that it keeps, and fails no request: an update
-- by the id and the version of the first of them with a document that does not run takes it, and it
-- alone, from the list.
pub record HoldsRunning {S : Type 0} (db : RunningDatabase S) (running : S → List TriggerHistory)
    : Type 0 where
  pub serves :
      (s : S) → length (running s) ≤ 9_223_372_036_854_775_807 → Serves (db.running s) (running s)
  pub leaves :
      (h written : TriggerHistory) (rest : List TriggerHistory) (s : S)
      → running s ≡ h ∷ rest
      → written.id ≡ h.id
      → written.run_mode ≢ TriggerRunMode.running
      → running (db.update_history h.id h.version written s).1 ≡ rest

empty_drop : {A : Type 0} (xs : List A) → length xs ≡ 0 → xs ≡ drop 32 xs
empty_drop [] e = refl
empty_drop (x ∷ xs) e = absurd (omega arith)

module _ {S : Type 0} (db : RunningDatabase S) (running : S → List TriggerHistory)
    (holds : HoldsRunning db running) (now : Time) where
  incomplete-ne-running : TriggerRunMode.incomplete ≢ TriggerRunMode.running
  incomplete-ne-running e = cc

  -- an abandoned history runs no more
  abandon_leaves :
      (h : TriggerHistory) (rest : List TriggerHistory) (s : S)
      → running s ≡ h ∷ rest
      → running (update_history db now (abandoned h) s).1 ≡ rest
  unfolding update_history
  abandon_leaves h rest s e =
      holds.leaves h (history_version now (abandoned h)) rest s e refl incomplete-ne-running

  abandon_all_leaves :
      (k : ℕ) (hs : List TriggerHistory) (s : S)
      → running s ≡ hs
      → running (abandon_all db now (take k hs) s) ≡ drop k hs
  unfolding abandon_all
  abandon_all_leaves zero hs s e = e
  abandon_all_leaves (suc k) [] s e = e
  abandon_all_leaves (suc k) (h ∷ hs) s e =
      abandon_all_leaves k hs (update_history db now (abandoned h) s).1 (abandon_leaves h hs s e)

  page_of :
      (i : ℕ) (s : S)
      → length (running s) ≤ 64
      → find_by_filter_with_page (db.running s) (pos (suc i)) (pos 32)
        ≡ expected_page (running s) (i * 32) 32
  page_of i s few =
      (find_by_filter_with_page_lem (db.running s) (running s) (holds.serves s (omega arith)) i 31
        (pos 0) (pos 0)).0

  no_page :
      (i : ℕ) (s : S) (fuel available : ℕ)
      → length (running s) ≤ 64
      → length (running s) ≤ i * 32
      → abandon_pages db now (suc fuel) i available s ≡ some s
  unfolding abandon_pages
  no_page i s fuel available few past = elim (Bool-cases (ltb i available)) [
    | inr closed ↦ rw (closed, abandon_pages) refl
    | inl open_page ↦ elim (Bool-cases (length (running s) == 0)) [
      | inl empty ↦
          rw (open_page, abandon_pages) (rw (page_of i s few, abandon_pages) (rw empty refl))
      | inr some_left ↦
          let beyond : ltb (i * 32) (length (running s)) ≡ false = ground arith in
          rw (open_page, abandon_pages)
            (rw (page_of i s few, abandon_pages) (rw (some_left, beyond) refl))
    ]
  ]

  first_page :
      (s : S) (fuel : ℕ)
      → length (running s) ≤ 64
      → 0 < length (running s)
      → abandon_pages db now (suc fuel) 0 1 s
        ≡ abandon_pages db now fuel 1
            (available_pages (length (running s)) 32)
            (abandon_all db now (take 32 (running s)) s)
  unfolding abandon_pages
  first_page s fuel few some_run =
      let some_left : (length (running s) == 0) ≡ false = ground arith in
      let inside : ltb 0 (length (running s)) ≡ true = ground arith in
      rw (page_of 0 s few, abandon_pages) (rw (some_left, inside) refl)

  -- When the database keeps the order of the histories that run and fails no request, then of up to
  -- 64 such histories the first 32 run no more after the handler, and all others are left running.
  pub abandoned_trigger_history_handler_lem :
      (fuel : ℕ) (s : S)
      → length (running s) ≤ 64
      → (s' : S) × (abandoned_trigger_history_handler db now (suc (suc fuel)) s ≡ some s')
        × (running s' ≡ drop 32 (running s))
  unfolding abandoned_trigger_history_handler
  abandoned_trigger_history_handler_lem fuel s few =
      elim (Bool-cases (ltb 0 (length (running s)))) [
        | inl some_run ↦
            let left : running (abandon_all db now (take 32 (running s)) s) ≡ drop 32 (running s) =
              abandon_all_leaves 32 (running s) s refl in
            (
              abandon_all db now (take 32 (running s)) s,
              first_page s (suc fuel) few (ground arith)
                  ∙ no_page 1 (abandon_all db now (take 32 (running s)) s) fuel _
                      (omega (arith, ap length left, length-drop 32 (running s)))
                      (omega (arith, ap length left, length-drop 32 (running s))),
              left,
            )
        | inr none_run ↦
            (s, no_page 0 s (suc fuel) 1 few (ground arith), empty_drop (running s) (ground arith))
      ]
