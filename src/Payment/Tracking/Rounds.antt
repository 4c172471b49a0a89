-- ===== src/Payment/Tracking/Rounds.antt =====
-- Successive runs of the tracking task on one finance end it, whatever the payment service answers.
use finance_service.Base.{
  ◌≡◌, refl, sym, ◌∙◌, inl, inr, ℕ, suc, ◌≤◌, ◌<◌, true, false, List, [], ◌∷◌, arith, Bool-cases,
  All, ◌+◌, Bool, ap,
}
use finance_service.Base.Int.{pos}
use finance_service.Base.Outcome.{ok, >>=-ok}
use finance_service.Entities.{PaymentState, FinancePayment, SellerFinance}
use finance_service.Payment.Process.{payment_request}
use finance_service.Payment.Tracking.{
  Tracked, Run, next_stored, stored, is_selected, track_run, finance_payment_tracking,
}
use finance_service.Payment.Tracking.Safety.{
  IsTrackable, finance_payment_tracking_eq, tracking-IsTrackable,
}
use finance_service.Payment.Tracking.Progress.{
  IsLive, left, Progress, ends, goes_on, track_status-Progress,
}

stored-IsTrackable : (f : SellerFinance) → IsTrackable f → IsTrackable (stored f)
unfolding stored payment_request
stored-IsTrackable f (p, has, payable) = (
  p,
  has,
  record {
    requestable = payable.requestable;
    pollable = payable.pollable;
    complete = payable.complete;
  },
)

stored-IsLive :
    (f : SellerFinance) (p : FinancePayment) (a b : ℕ) → IsLive f p a b → IsLive (stored f) p a b
unfolding stored
stored-IsLive f p a b live = record {
  has = live.has;
  mode = live.mode;
  waits = live.waits;
  requests = live.requests;
  polls = live.polls;
}

-- the two limits of the configuration, for every run
abbrev pub HasLimits : ℕ → ℕ → Run → Type 0
HasLimits l m r = (r.services.retry_request_limit ≡ pos l) × (r.services.retry_result_limit ≡ pos m)

-- how many runs write what they passed to Save
abbrev pub one_if : Bool → ℕ
one_if true = 1
one_if false = 0

abbrev pub saved_runs : List Run → ℕ
saved_runs [] = 0
saved_runs (r ∷ rs) = one_if r.is_saved + saved_runs rs

abbrev pub RunEnds : List Run → SellerFinance → Type 0
RunEnds ss f =
    (g : SellerFinance) × (track_run ss f ≡ ok g) × (is_selected g.status g.payment_mode ≡ false)

track_run-unselected :
    (ss : List Run) (f : SellerFinance)
    → is_selected f.status f.payment_mode ≡ false
    → track_run ss f ≡ ok f
unfolding track_run
track_run-unselected [] f h = refl
track_run-unselected (s ∷ ss) f h = rw h refl

track_run-selected :
    (s : Run) (ss : List Run) (f : SellerFinance) (t : Tracked)
    → is_selected f.status f.payment_mode ≡ true
    → finance_payment_tracking s.services f ≡ ok t
    → track_run (s ∷ ss) f ≡ track_run ss (next_stored s.is_saved f t)
unfolding track_run
track_run-selected s ss f t h e = rw h (>>=-ok (finance_payment_tracking s.services f) _ e)

left-pos : (st : PaymentState) (l m a b : ℕ) → 0 < left st l m a b
left-pos PaymentState.none_state l m a b = omega arith
left-pos _ l m a b = omega arith

-- the runs after one that made progress
rest_ends :
    (l m : ℕ) (ss : List Run)
    → ((f : SellerFinance) (p : FinancePayment) (a b : ℕ)
        → IsTrackable f
        → IsLive f p a b
        → left p.status l m a b ≤ saved_runs ss
        → RunEnds ss f)
    → (g : SellerFinance) (n : ℕ) → IsTrackable g
    → n ≤ suc (saved_runs ss)
    → Progress l m g n
    → RunEnds ss (stored g)
unfolding stored
rest_ends l m ss rest g n trackable enough (ends over) =
    (stored g, track_run-unselected ss (stored g) over, over)
rest_ends l m ss rest g n trackable enough (goes_on q a b live fewer) =
    rest (stored g) q a b (stored-IsTrackable g trackable) (stored-IsLive g q a b live)
      (omega arith)

-- Liveness of the automatic payment: from a live, trackable finance, with retry limits that fit an
-- int32, the runs of the tracking task end in a finance that the task no longer looks for, closed or
-- handed over to manual payment, if as many of them as there are retries left (two more at most)
-- succeed in their Save; the others may fail in theirs. No run dereferences nil, and the payment service
-- may answer anything.
pub tracking_ends :
    (l m : ℕ)
    → l ≤ 2_147_483_647
    → m ≤ 2_147_483_647
    → (ss : List Run) (f : SellerFinance) (p : FinancePayment) (a b : ℕ) → All (HasLimits l m) ss
    → IsTrackable f
    → IsLive f p a b
    → left p.status l m a b ≤ saved_runs ss
    → RunEnds ss f
tracking_ends l m fl fm [] f p a b limits trackable live enough =
    absurd (omega (arith, left-pos p.status l m a b))
tracking_ends l m fl fm (s ∷ ss) f p a b (here, limits) trackable live enough =
    elim (Bool-cases (is_selected f.status f.payment_mode)) [
      | inr off ↦ (f, track_run-unselected (s ∷ ss) f off, off)
      | inl on ↦
          let (t, ended, again) = tracking-IsTrackable s.services f trackable in
          let tracked =
            sym (finance_payment_tracking_eq s.services f p live.has live.mode) ∙ ended in
          let progress =
            track_status-Progress l m fl fm s.services here.0 here.1 f p a b live p.status t refl
              live.waits tracked in
          let ran = track_run-selected s ss f t on ended in
          elim (Bool-cases s.is_saved) [
            | inl saved ↦
                let count = ap one_if saved in
                let (g, rest, over) =
                  rest_ends l m ss (λ f' p' a' b'. tracking_ends l m fl fm ss f' p' a' b' limits)
                    t.finance (left p.status l m a b) again (omega (arith, count, enough))
                    progress in
                (g, ran ∙ ap (λ x. track_run ss (next_stored x f t)) saved ∙ rest, over)
            | inr lost ↦
                let count = ap one_if lost in
                let (g, rest, over) =
                  tracking_ends l m fl fm ss f p a b limits trackable live
                    (omega (arith, count, enough)) in
                (g, ran ∙ ap (λ x. track_run ss (next_stored x f t)) lost ∙ rest, over)
          ]
    ]
