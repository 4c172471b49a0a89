-- ===== src/Payment/Tracking/Once.antt =====
-- Over all runs of the tracking task the payment service accepts at most one transfer for a finance.
use finance_service.Base.{
  ◌≡◌, ◌≢◌, refl, sym, subst, ap, ◌∙◌, ◌⊎◌, inl, inr, ℕ, suc, ◌+◌, ◌≤◌, Bool, true, false, Option,
  none, some, arith, Bool-cases, List, [], ◌∷◌, if◌then◌else◌,
}
use finance_service.Base.Int.{ltb_ℤ}
use finance_service.Base.Outcome.{
  Outcome, ok, err, panic, Reply, value, failure, deref, deref->>=, >>=-eq-ok, ok-injective,
}
use finance_service.Entities.{
  PaymentState, PaymentState-discrete, PaymentMode, FinancePayment, SellerFinance,
}
use finance_service.Payment.Services.{Services, PaymentRequest, PaymentResponse}
use finance_service.Payment.Process.{payment_request}
use finance_service.Payment.Tracking.{
  is_selected, Tracked, Run, next_stored, stored, after_request, after_result, track_status,
  by_mode, finance_payment_tracking, automatic_payment_handler, give_up_request, give_up_result,
}
use finance_service.Payment.Tracking.Progress.{is_selected-manual, is_selected-closed}
use finance_service.Payment.Tracking.Counted.{Counted, closes, counts, after_result-Counted}

-- how many of the requested transfers the payment service accepted
abbrev pub is_accepted : Reply PaymentResponse → ℕ
is_accepted (value r) = 1
is_accepted (failure e) = 0

abbrev pub accepted : Services → List PaymentRequest → ℕ
accepted s [] = 0
accepted s (q ∷ qs) = is_accepted (s.transfer q) + accepted s qs

-- how many are accepted over successive runs, up to one that panics
abbrev after_run : Run → SellerFinance → Outcome Tracked → (SellerFinance → ℕ) → ℕ
after_run r f (ok t) rest = accepted r.services t.requested + rest (next_stored r.is_saved f t)
after_run r f (err e) rest = 0
after_run r f panic rest = 0

unfoldable pub accepted_by_runs : List Run → SellerFinance → ℕ
accepted_by_runs [] f = 0
accepted_by_runs (r ∷ rs) f =
    let n = after_run r f (finance_payment_tracking r.services f) (accepted_by_runs rs) in
    if is_selected f.status f.payment_mode then n else 0

-- how many runs do not write what they passed to Save
abbrev pub one_unless : Bool → ℕ
one_unless true = 0
one_unless false = 1

abbrev pub unsaved : List Run → ℕ
unsaved [] = 0
unsaved (r ∷ rs) = one_unless r.is_saved + unsaved rs

-- the finance has a payment whose transfer was accepted, or the task no longer looks for it
abbrev pub IsStarted : SellerFinance → Type 0
IsStarted f =
    ((q : FinancePayment) × (f.payment ≡ some q) × (q.status ≢ PaymentState.none_state))
    ⊎ (is_selected f.status f.payment_mode ≡ false)

pending-ne-none : PaymentState.pending_state ≢ PaymentState.none_state
pending-ne-none e = cc

deref-eq-ok : {A : Type 0} (o : Option A) {a : A} → deref o ≡ ok a → o ≡ some a
deref-eq-ok none h = cc
deref-eq-ok (some b) h = ap some (ok-injective h)

-- a run accepts nothing, or one transfer, which starts the payment
abbrev AtMostOne : Services → Tracked → Type 0
AtMostOne s t = (accepted s t.requested ≡ 0) ⊎ ((accepted s t.requested ≡ 1) × IsStarted t.finance)

module _ (s : Services) (f : SellerFinance) (p : FinancePayment) where
  after_request_once :
      (q : PaymentRequest) (r : Reply PaymentResponse)
      → s.transfer q ≡ r
      → AtMostOne s (record {
        finance = after_request s f p q r;
        requested = q ∷ [];
        saves = after_request s f p q r ∷ [];
      })
  after_request_once q (failure e) h = inl (rw h refl)
  after_request_once q (value x) h = inr (rw h refl, inl (_, refl, pending-ne-none))

  none_round : (t : Tracked) → track_status PaymentState.none_state s f p ≡ ok t → AtMostOne s t
  unfolding track_status give_up_request
  none_round t e = elim (Bool-cases (ltb_ℤ p.retry_request s.retry_request_limit)) [
    | inl more ↦
        let (q, _, last) = >>=-eq-ok (payment_request f) _ (rw more at e) in
        subst (AtMostOne s) (ok-injective last) (after_request_once q (s.transfer q) refl)
    | inr ended ↦ subst (AtMostOne s) (ok-injective (rw ended at e)) (inl refl)
  ]

  -- a payment that was started requests no transfer again
  abbrev Quiet : Tracked → Type 0
  Quiet t = (accepted s t.requested ≡ 0) × IsStarted t.finance

  Counted-IsStarted :
      (g : SellerFinance) → p.status ≢ PaymentState.none_state → Counted f g p → IsStarted g
  Counted-IsStarted g st (closes closed) =
      inr (ap (λ x. is_selected x g.payment_mode) closed ∙ is_selected-closed g.payment_mode)
  Counted-IsStarted g st (counts q has same _ _ _) = inl (q, has, λ e. st (sym same ∙ e))

  started_round :
      (st : PaymentState) (t : Tracked)
      → p.status ≡ st
      → st ≢ PaymentState.none_state
      → f.payment ≡ some p
      → track_status st s f p ≡ ok t
      → Quiet t
  unfolding track_status give_up_result
  started_round PaymentState.none_state t same st has e = absurd (st refl)
  started_round PaymentState.pending_state t same st has e =
      elim (Bool-cases (ltb_ℤ p.retry_result s.retry_result_limit)) [
        | inl more ↦
            let (response, _, rest) = >>=-eq-ok (deref p.transfer_response) _ (rw more at e) in
            let (g, counted, last) = >>=-eq-ok (after_result s f p _) _ rest in
            subst Quiet (ok-injective last) (
              refl,
              Counted-IsStarted g (λ x. st (sym same ∙ x)) (after_result-Counted s f g p _ counted),
            )
        | inr ended ↦
            subst Quiet (ok-injective (rw ended at e)) (refl, inr (is_selected-manual f.status))
      ]
  started_round _ t same st has e =
      subst Quiet (ok-injective e) (refl, inl (p, has, λ x. st (sym same ∙ x)))

  -- one call of the handler of automatic payments
  pub automatic_round :
      (t : Tracked)
      → f.payment ≡ some p
      → track_status p.status s f p ≡ ok t
      → AtMostOne s t × (p.status ≢ PaymentState.none_state → Quiet t)
  automatic_round t has e = elim (PaymentState-discrete p.status PaymentState.none_state) [
    | yes new ↦
        (none_round t (sym (ap (λ st. track_status st s f p) new) ∙ e), λ st. absurd (st new))
    | no old ↦ let quiet = started_round p.status t refl old has e in (inl quiet.0, λ _. quiet)
  ]

selected_started :
    (f : SellerFinance) (p : FinancePayment)
    → is_selected f.status f.payment_mode ≡ true
    → f.payment ≡ some p
    → IsStarted f
    → p.status ≢ PaymentState.none_state
selected_started f p on has (inr off) = absurd (true-ne-false (sym on ∙ off))
  where
    true-ne-false : true ≢ false
    true-ne-false e = cc
selected_started f p on has (inl (q, had, st)) =
    let same : p ≡ q = some_injective (sym has ∙ had) in
    subst (λ x. x.status ≢ PaymentState.none_state) (sym same) st
  where
    some_injective : {a b : FinancePayment} → some a ≡ some b → a ≡ b
    some_injective e = cc

-- one run on a finance that the task looks for
finance_round :
    (s : Services) (f : SellerFinance) (t : Tracked)
    → is_selected f.status f.payment_mode ≡ true
    → finance_payment_tracking s f ≡ ok t
    → AtMostOne s t × (IsStarted f → (accepted s t.requested ≡ 0) × IsStarted t.finance)
unfolding finance_payment_tracking automatic_payment_handler
finance_round s f t on e =
    let (p, found, rest) = >>=-eq-ok (deref f.payment) _ e in
    let has = deref-eq-ok f.payment found in go p has p.mode rest
  where
    manual_round :
        ok (record { finance = f; requested = []; saves = [] }) ≡ ok t
        → AtMostOne s t × (IsStarted f → (accepted s t.requested ≡ 0) × IsStarted t.finance)
    manual_round h =
        subst
          (λ u. AtMostOne s u × (IsStarted f → (accepted s u.requested ≡ 0) × IsStarted u.finance))
          (ok-injective h) (inl refl, λ started. (refl, started))

    go :
        (p : FinancePayment)
        → f.payment ≡ some p
        → (m : PaymentMode) → by_mode m s f ≡ ok t
        → AtMostOne s t × (IsStarted f → (accepted s t.requested ≡ 0) × IsStarted t.finance)
    go p has PaymentMode.automatic h =
        let (once, quiet) = automatic_round s f p t has (sym (deref->>= f.payment _ has) ∙ h) in
        (once, λ started. quiet (selected_started f p on has started))
    go p has PaymentMode.manual h = manual_round h
    go p has PaymentMode.manual_request h = manual_round h
    go p has PaymentMode.manual_tracking h = manual_round h

stored-IsStarted : (f : SellerFinance) → IsStarted f → IsStarted (stored f)
unfolding stored
stored-IsStarted f started = started

next-IsStarted :
    (b : Bool) (f : SellerFinance) (t : Tracked)
    → IsStarted f
    → IsStarted t.finance
    → IsStarted (next_stored b f t)
next-IsStarted true f t before after = stored-IsStarted t.finance after
next-IsStarted false f t before after = before

-- A payment that was started is not started again by any run.
started_runs : (rs : List Run) (f : SellerFinance) → IsStarted f → accepted_by_runs rs f ≡ 0
unfolding accepted_by_runs
started_runs [] f started = refl
started_runs (r ∷ rs) f started = elim (Bool-cases (is_selected f.status f.payment_mode)) [
  | inr off ↦ rw off refl
  | inl on ↦ rw on (go (finance_payment_tracking r.services f) refl (started_runs rs) on)
]
  where
    go :
        (m : Outcome Tracked)
        → finance_payment_tracking r.services f ≡ m
        → ((g : SellerFinance) → IsStarted g → accepted_by_runs rs g ≡ 0)
        → is_selected f.status f.payment_mode ≡ true
        → after_run r f m (accepted_by_runs rs) ≡ 0
    go (err x) e rest on = refl
    go panic e rest on = refl
    go (ok t) e rest on =
        let (none_asked, again) = (finance_round r.services f t on e).1 started in
        let later =
          rest (next_stored r.is_saved f t) (next-IsStarted r.is_saved f t started again) in
        omega (arith, none_asked, later)

-- after a run that accepted one transfer
rest_after_one :
    (b : Bool) (rs : List Run) (f : SellerFinance) (t : Tracked)
    → ((g : SellerFinance) → accepted_by_runs rs g ≤ suc (unsaved rs))
    → IsStarted t.finance
    → accepted_by_runs rs (next_stored b f t) ≤ one_unless b + unsaved rs
rest_after_one true rs f t rest started =
    let none_later = started_runs rs (stored t.finance) (stored-IsStarted t.finance started) in
    omega (arith, none_later)
rest_after_one false rs f t rest started = let later = rest f in omega (arith, later)

at_most_once : (rs : List Run) (f : SellerFinance) → accepted_by_runs rs f ≤ suc (unsaved rs)
unfolding accepted_by_runs
at_most_once [] f = omega arith
at_most_once (r ∷ rs) f = elim (Bool-cases (is_selected f.status f.payment_mode)) [
  | inr off ↦ rw off (omega arith)
  | inl on ↦ rw on (go (at_most_once rs) (finance_payment_tracking r.services f) refl on)
]
  where
    go :
        ((g : SellerFinance) → accepted_by_runs rs g ≤ suc (unsaved rs))
        → (m : Outcome Tracked) → finance_payment_tracking r.services f ≡ m
        → is_selected f.status f.payment_mode ≡ true
        → after_run r f m (accepted_by_runs rs) ≤ suc (unsaved (r ∷ rs))
    go rest (err x) e on = omega arith
    go rest panic e on = omega arith
    go rest (ok t) e on = elim ((finance_round r.services f t on e).0) [
      | inl nothing ↦ let later = rest (next_stored r.is_saved f t) in omega (arith, nothing, later)
      | inr (one, started) ↦
          let later = rest_after_one r.is_saved rs f t rest started in omega (arith, one, later)
    ]

-- Over any number of runs of the tracking task on a finance, whatever the services answer, the payment
-- service accepts at most one transfer, and one more for each run whose Save does not write the finance:
-- so at most one if every Save succeeds; and none where the finance has a payment whose status is no
-- longer the initial one, or where the task does not look for the finance, whether or not the Saves
-- succeed.
pub accepted_by_runs_once :
    (rs : List Run) (f : SellerFinance)
    → (accepted_by_runs rs f ≤ suc (unsaved rs)) × (IsStarted f → accepted_by_runs rs f ≡ 0)
accepted_by_runs_once rs f = (at_most_once rs f, started_runs rs f)
