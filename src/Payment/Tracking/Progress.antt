-- ===== src/Payment/Tracking/Progress.antt =====
-- Repeated tracking of one finance ends: after boundedly many rounds it is closed or manual.
use finance_service.Base.{
  ◌≡◌, refl, sym, subst, ap, ◌∙◌, ◌⊎◌, inl, inr, ℕ, ◌+◌, ◌-◌, ◌≤◌, ◌<◌, true, false, some, arith,
  Bool-cases,
}
use finance_service.Base.Int.{ℤ, pos, ◌+ℤ◌, ltb_ℤ, int32, int32_fits}
use finance_service.Base.Outcome.{ok, Reply, value, failure, deref, >>=-eq-ok, ok-injective}
use finance_service.Entities.{
  FinanceState, PaymentState, PaymentMode, FinancePayment, SellerFinance,
}
use finance_service.Payment.Services.{Services, PaymentRequest, PaymentResponse}
use finance_service.Payment.Process.{payment_request}
use finance_service.Payment.Tracking.{
  is_selected, Tracked, after_request, after_result, track_status, give_up_request, give_up_result,
}
use finance_service.Payment.Tracking.Counted.{Counted, closes, counts, after_result-Counted}

-- A finance that the task still looks for, with the numbers of its retries.
pub record IsLive (f : SellerFinance) (p : FinancePayment) (asked polled : ℕ) : Type 0 where
  pub has : f.payment ≡ some p
  pub mode : p.mode ≡ PaymentMode.automatic
  pub waits : (p.status ≡ PaymentState.none_state) ⊎ (p.status ≡ PaymentState.pending_state)
  pub requests : p.retry_request ≡ pos asked
  pub polls : p.retry_result ≡ pos polled

-- the retries that are left under the two limits
abbrev pub left : PaymentState → ℕ → ℕ → ℕ → ℕ → ℕ
left PaymentState.none_state l m a b = (l - a) + (m - b) + 2
left _ l m a b = (m - b) + 1

-- what a round leaves: a finance that is not looked for, or one with fewer retries left
pub data Progress (l m : ℕ) (g : SellerFinance) (n : ℕ) : Type 0 where
  ends : is_selected g.status g.payment_mode ≡ false → Progress l m g n
  goes_on :
      (q : FinancePayment) (a b : ℕ) → IsLive g q a b → left q.status l m a b < n → Progress l m g n

count_up : (n l : ℕ) → n < l → l ≤ 2_147_483_647 → int32 (pos n +ℤ pos 1) ≡ pos (n + 1)
unfolding ◌+ℤ◌
count_up n l h fits =
    let more : pos n +ℤ pos 1 ≡ pos (n + 1) = ground arith in
    ap int32 more ∙ int32_fits (pos (n + 1)) (omega arith) (omega arith)

pub is_selected-manual : (st : FinanceState) → is_selected st PaymentMode.manual ≡ false
is_selected-manual FinanceState.payment_process = refl
is_selected-manual _ = refl

pub is_selected-closed : (mode : PaymentMode) → is_selected FinanceState.closed mode ≡ false
is_selected-closed PaymentMode.automatic = refl
is_selected-closed _ = refl

below_limit : (x y : ℤ) (a l : ℕ) → x ≡ pos a → y ≡ pos l → ltb_ℤ x y ≡ true → a < l
below_limit x y a l hx hy h = ground arith

-- One round of a live finance, under limits l and m that fit an int32.
module _ (l m : ℕ) (l_fits : l ≤ 2_147_483_647) (m_fits : m ≤ 2_147_483_647) (s : Services)
    (request_limit : s.retry_request_limit ≡ pos l) (result_limit : s.retry_result_limit ≡ pos m)
    (f : SellerFinance) (p : FinancePayment) (a b : ℕ) (live : IsLive f p a b) where
  after_request-Progress :
      (q : PaymentRequest) (r : Reply PaymentResponse)
      → p.status ≡ PaymentState.none_state
      → a < l
      → Progress l m (after_request s f p q r) (left PaymentState.none_state l m a b)
  after_request-Progress q (failure e) st more =
      goes_on _ (a + 1) b
        (record {
          has = refl;
          mode = live.mode;
          waits = inl st;
          requests = ap (λ x. int32 (x +ℤ pos 1)) live.requests ∙ count_up a l more l_fits;
          polls = live.polls;
        })
        (rw st (omega arith))
  after_request-Progress q (value response) st more =
      goes_on _ a b
        (record {
          has = refl;
          mode = live.mode;
          waits = inr refl;
          requests = live.requests;
          polls = live.polls;
        })
        (omega arith)

  Counted_Progress :
      (g : SellerFinance)
      → p.status ≡ PaymentState.pending_state
      → b < m
      → Counted f g p
      → Progress l m g (left PaymentState.pending_state l m a b)
  Counted_Progress g st more (closes closed) =
      ends (ap (λ x. is_selected x g.payment_mode) closed ∙ is_selected-closed g.payment_mode)
  Counted_Progress g st more (counts q has same mode asked polled) =
      goes_on q a (b + 1)
        (record {
          has = has;
          mode = mode ∙ live.mode;
          waits = inr (same ∙ st);
          requests = asked ∙ live.requests;
          polls = polled ∙ ap (λ x. int32 (x +ℤ pos 1)) live.polls ∙ count_up b m more m_fits;
        })
        (subst (λ x. left x l m a (b + 1) < left PaymentState.pending_state l m a b)
          (sym (same ∙ st)) (omega arith))

  pub track_status-Progress :
      (st : PaymentState) (t : Tracked)
      → p.status ≡ st
      → (st ≡ PaymentState.none_state) ⊎ (st ≡ PaymentState.pending_state)
      → track_status st s f p ≡ ok t
      → Progress l m t.finance (left st l m a b)
  unfolding track_status give_up_request give_up_result
  track_status-Progress PaymentState.none_state t st waits e =
      elim (Bool-cases (ltb_ℤ p.retry_request s.retry_request_limit)) [
        | inl more ↦
            let (q, _, last) = >>=-eq-ok (payment_request f) _ (rw more at e) in
            let same = ap (λ (x : Tracked). x.finance) (ok-injective last) in
            subst (λ g. Progress l m g (left PaymentState.none_state l m a b)) same
              (after_request-Progress q (s.transfer q) st
                (below_limit _ _ a l live.requests request_limit more))
        | inr ended ↦
            let same = ap (λ (x : Tracked). x.finance) (ok-injective (rw ended at e)) in
            ends (
              ap (λ (g : SellerFinance). is_selected g.status g.payment_mode) (sym same)
              ∙ is_selected-manual f.status)
      ]
  track_status-Progress PaymentState.pending_state t st waits e =
      elim (Bool-cases (ltb_ℤ p.retry_result s.retry_result_limit)) [
        | inl more ↦
            let (response, _, rest) = >>=-eq-ok (deref p.transfer_response) _ (rw more at e) in
            let (g, counted, last) = >>=-eq-ok (after_result s f p _) _ rest in
            let same = ap (λ (x : Tracked). x.finance) (ok-injective last) in
            subst (λ g. Progress l m g (left PaymentState.pending_state l m a b)) same
              (Counted_Progress g st (below_limit _ _ b m live.polls result_limit more)
                (after_result-Counted s f g p _ counted))
        | inr ended ↦
            let same = ap (λ (x : Tracked). x.finance) (ok-injective (rw ended at e)) in
            ends (
              ap (λ (g : SellerFinance). is_selected g.status g.payment_mode) (sym same)
              ∙ is_selected-manual f.status)
      ]
  track_status-Progress _ t st (inl waits) e = cc
  track_status-Progress _ t st (inr waits) e = cc
