-- ===== src/Payment/Tracking/Counted.antt =====
-- What a reply to a poll of the payment's result changes: it closes the finance or counts the retry.
use finance_service.Base.{◌≡◌, refl, sym, ap, ◌∙◌, inl, inr, Option, none, some, Bool-cases}
use finance_service.Base.Int.{pos, ◌+ℤ◌, int32, eqb_ℤ}
use finance_service.Base.Outcome.{ok, Reply, value, failure, >>=-eq-ok, deref->>=, ok-injective}
use finance_service.Entities.{Time, TransferResult, FinanceState, FinancePayment, SellerFinance}
use finance_service.Payment.Services.{Services, TransferMoneyResult}
use finance_service.Payment.Tracking.{note_result, settle, after_result, is_result_changed}

-- After the reply to a poll the finance is closed, or only the retry was counted.
pub data Counted (f g : SellerFinance) (p : FinancePayment) : Type 0 where
  closes : g.status ≡ FinanceState.closed → Counted f g p
  counts :
      (q : FinancePayment)
      → g.payment ≡ some q
      → q.status ≡ p.status
      → q.mode ≡ p.mode
      → q.retry_request ≡ p.retry_request
      → q.retry_result ≡ int32 (p.retry_result +ℤ pos 1)
      → Counted f g p

settle-Counted :
    (r : TransferMoneyResult) (f g h : SellerFinance) (p q : FinancePayment)
    → g.payment ≡ some q
    → q.status ≡ p.status
    → q.mode ≡ p.mode
    → q.retry_request ≡ p.retry_request
    → q.retry_result ≡ p.retry_result
    → settle r g ≡ ok h
    → Counted f h p
unfolding settle
settle-Counted r f g h p q has st mode asked polled e =
    let ended = ok-injective (sym (deref->>= g.payment _ has) ∙ e) in
    elim (Bool-cases (eqb_ℤ r.pending (pos 0))) [
      | inl done ↦ closes (ap (λ (x : SellerFinance). x.status) (sym (rw done at ended)))
      | inr more ↦
          counts (record q { retry_result = int32 (q.retry_result +ℤ pos 1) })
            (ap (λ (x : SellerFinance). x.payment) (sym (rw more at ended))) st mode asked
            (ap (λ x. int32 (x +ℤ pos 1)) polled)
    ]

note_result_keeps :
    (t : Time) (r : TransferMoneyResult) (f g : SellerFinance) (p : FinancePayment)
    (o : Option TransferResult)
    → note_result t r f p o ≡ ok g
    → (q : FinancePayment) × (g.payment ≡ some q)
      × (q.status ≡ p.status)
      × (q.mode ≡ p.mode)
      × (q.retry_request ≡ p.retry_request)
      × (q.retry_result ≡ p.retry_result)
unfolding note_result
note_result_keeps t r f g p none e =
    (_, sym (ap (λ (x : SellerFinance). x.payment) (ok-injective e)), refl, refl, refl, refl)
note_result_keeps t r f g p (some old) e =
    let (b, _, last) = >>=-eq-ok (is_result_changed old r) _ e in
    (_, sym (ap (λ (x : SellerFinance). x.payment) (ok-injective last)), refl, refl, refl, refl)

pub after_result-Counted :
    (s : Services) (f g : SellerFinance) (p : FinancePayment) (r : Reply TransferMoneyResult)
    → after_result s f p r ≡ ok g
    → Counted f g p
unfolding after_result
after_result-Counted s f g p (failure c) e =
    counts _ (sym (ap (λ (x : SellerFinance). x.payment) (ok-injective e))) refl refl refl refl
after_result-Counted s f g p (value r) e =
    let (h, noted, ended) = >>=-eq-ok (note_result (s.clock 0) r f p p.transfer_result) _ e in
    let (q, has, st, mode, asked, polled) =
      note_result_keeps (s.clock 0) r f h p p.transfer_result noted in
    settle-Counted r f h g p q has st mode asked polled ended
