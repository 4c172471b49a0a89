-- ===== src/Payment/Tracking/Polled.antt =====
-- What the handler of a payment's result leaves, whatever the payment service answers.
use finance_service.Base.{
  ◌≡◌, ◌≢◌, refl, sym, ◌∙◌, subst, Option, none, some, Bool, arith, List, [], ◌∷◌, ◌++◌,
  if◌then◌else◌, true, false, Bool-cases, inl, inr,
}
use finance_service.Base.Int.{ℤ, pos, eqb_ℤ, ◌+ℤ◌, int32}
use text.Mathlib.Text.{◌==◌ as str_eq}
use finance_service.Base.Text.{itoa}
use finance_service.Base.Outcome.{Outcome, ok, Reply, value, failure, ◌>>=◌}
use finance_service.Entities.{
  Money, Time, FinanceState, PaymentState, TransferResult, FinancePayment, PaymentRef, current,
  SellerFinance,
}
use finance_service.Payment.Services.{Services, TransferMoneyResult}
use finance_service.Payment.Tracking.{
  new_result, update_result, final_status, differs_or, is_result_changed, note_result, settle,
  after_result,
}

-- all four amounts of a transfer result are there
pub record HasAmounts (r : TransferResult) : Type 0 where
  pub total : (m : Money) × (r.total_transfer ≡ some m)
  pub success : (m : Money) × (r.success_transfer ≡ some m)
  pub pending : (m : Money) × (r.pending_transfer ≡ some m)
  pub failed : (m : Money) × (r.failed_transfer ≡ some m)

abbrev Total : Outcome Bool → Type 0
Total m = (b : Bool) × (m ≡ ok b)

differs_or-Total :
    (o : Option Money) (x : ℤ) (rest : Outcome Bool)
    → (m : Money) × (o ≡ some m)
    → Total rest
    → Total (differs_or o x rest)
differs_or-Total none x rest (m, e) t = cc
differs_or-Total (some n) x rest (m, e) t = elim (Bool-cases (str_eq n.amount (itoa x))) [
  | inl same ↦ rw same t
  | inr other ↦ rw other (true, refl)
]

is_result_changed-Total :
    (old : TransferResult) (r : TransferMoneyResult)
    → HasAmounts old
    → Total (is_result_changed old r)
unfolding is_result_changed
is_result_changed-Total old r h = differs_or-Total _ _ _ h.total (
    differs_or-Total _ _ _ h.success
      (differs_or-Total _ _ _ h.pending (differs_or-Total _ _ _ h.failed (false, refl))))

-- What a poll of the payment service's result does, with the parts of the finance that it keeps.
pub record Polled (f g : SellerFinance) (p : FinancePayment) : Type 0 where
  pub payment : FinancePayment
  pub has : g.payment ≡ some payment
  pub invoice : g.invoice ≡ f.invoice
  pub seller_info : g.seller_info ≡ f.seller_info
  pub fid : g.fid ≡ f.fid
  pub seller_id : g.seller_id ≡ f.seller_id
  pub mode : payment.mode ≡ p.mode
  pub response : payment.transfer_response ≡ p.transfer_response
  pub started : payment.status ≢ PaymentState.none_state
  pub complete : (r : TransferResult) → payment.transfer_result ≡ some r → HasAmounts r

new_result-HasAmounts : (t : Time) (r : TransferMoneyResult) → HasAmounts (new_result t r)
unfolding new_result
new_result-HasAmounts t r = record {
  total = (_, refl);
  success = (_, refl);
  pending = (_, refl);
  failed = (_, refl);
}

update_result-HasAmounts :
    (t : Time) (r : TransferMoneyResult) (old : TransferResult) → HasAmounts (update_result t r old)
unfolding update_result
update_result-HasAmounts t r old = record {
  total = (_, refl);
  success = (_, refl);
  pending = (_, refl);
  failed = (_, refl);
}

some-HasAmounts :
    (a : TransferResult) → HasAmounts a → (r : TransferResult) → some a ≡ some r → HasAmounts r
some-HasAmounts a h r e = let same : a ≡ r = cc in subst HasAmounts same h

pub pending-ne-none :
    (p : FinancePayment)
    → p.status ≡ PaymentState.pending_state
    → p.status ≢ PaymentState.none_state
pending-ne-none p h e = cc

-- A finance that differs from f at most in its payment, history, status and time of update.
kept_Polled :
    (f : SellerFinance) (p q : FinancePayment) (history : List PaymentRef) (st : FinanceState)
    (at : Time)
    → q.mode ≡ p.mode
    → q.transfer_response ≡ p.transfer_response
    → q.status ≢ PaymentState.none_state
    → ((r : TransferResult) → q.transfer_result ≡ some r → HasAmounts r)
    → Polled f
        (record f { payment = some q; payment_history = history; status = st; updated_at = at })
        p
kept_Polled f p q history st at mode response started complete = record {
  payment = q;
  has = refl;
  invoice = refl;
  seller_info = refl;
  fid = refl;
  seller_id = refl;
  mode = mode;
  response = response;
  started = started;
  complete = complete;
}

note_result-Polled :
    (t : Time) (r : TransferMoneyResult) (f : SellerFinance) (p : FinancePayment)
    (o : Option TransferResult)
    → p.status ≡ PaymentState.pending_state
    → ((old : TransferResult) → o ≡ some old → HasAmounts old)
    → (g : SellerFinance) × (note_result t r f p o ≡ ok g) × Polled f g p
unfolding note_result
note_result-Polled t r f p none waiting complete = (
  _,
  refl,
  kept_Polled f p (record p { transfer_result = some (new_result t r); updated_at = t })
      (f.payment_history ++ (current ∷ [])) f.status f.updated_at refl refl
      (pending-ne-none p waiting) (some-HasAmounts _ (new_result-HasAmounts t r)),
)
note_result-Polled t r f p (some old) waiting complete =
    let (b, e) = is_result_changed-Total old r (complete old refl) in
    let q = record p { transfer_result = some (update_result t r old); updated_at = t } in
    let history = if b then f.payment_history ++ (current ∷ []) else f.payment_history in
    (
      record f { payment = some q; payment_history = history },
      rw (e, ◌>>=◌) refl,
      kept_Polled f p q history f.status f.updated_at refl refl (pending-ne-none p waiting)
          (some-HasAmounts _ (update_result-HasAmounts t r old)),
    )

final_status-ne-none : (r : TransferMoneyResult) → final_status r ≢ PaymentState.none_state
unfolding final_status
final_status-ne-none r h = ground arith

-- what was kept stays kept when only payment and status change again
Polled-trans :
    (f g : SellerFinance) (p q : FinancePayment) (st : FinanceState) (polled : Polled f g p)
    → q.mode ≡ polled.payment.mode
    → q.transfer_response ≡ polled.payment.transfer_response
    → q.transfer_result ≡ polled.payment.transfer_result
    → q.status ≢ PaymentState.none_state
    → Polled f (record g { payment = some q; status = st }) p
Polled-trans f g p q st polled mode response result started = record {
  payment = q;
  has = refl;
  invoice = polled.invoice;
  seller_info = polled.seller_info;
  fid = polled.fid;
  seller_id = polled.seller_id;
  mode = mode ∙ polled.mode;
  response = response ∙ polled.response;
  started = started;
  complete = λ r e. polled.complete r (sym result ∙ e);
}

settle-Polled :
    (r : TransferMoneyResult) (f g : SellerFinance) (p : FinancePayment)
    → Polled f g p
    → (h : SellerFinance) × (settle r g ≡ ok h) × Polled f h p
unfolding settle
settle-Polled r f g p polled =
    let done = record polled.payment { status = final_status r } in
    let more = record polled.payment {
      retry_result = int32 (polled.payment.retry_result +ℤ pos 1);
    } in
    elim (Bool-cases (eqb_ℤ r.pending (pos 0))) [
      | inl e ↦ (
        record g { payment = some done; status = FinanceState.closed },
        rw (polled.has, ◌>>=◌, e) refl,
        Polled-trans f g p done FinanceState.closed polled refl refl refl (final_status-ne-none r),
      )
      | inr e ↦ (
        record g { payment = some more },
        rw (polled.has, ◌>>=◌, e) refl,
        Polled-trans f g p more g.status polled refl refl refl polled.started,
      )
    ]

pub after_result-Polled :
    (s : Services) (f : SellerFinance) (p : FinancePayment) (r : Reply TransferMoneyResult)
    → p.status ≡ PaymentState.pending_state
    → ((old : TransferResult) → p.transfer_result ≡ some old → HasAmounts old)
    → (g : SellerFinance) × (after_result s f p r ≡ ok g) × Polled f g p
unfolding after_result
after_result-Polled s f p (failure e) waiting complete = (
  _,
  refl,
  kept_Polled f p
      (record p { retry_result = int32 (p.retry_result +ℤ pos 1); updated_at = s.clock 0 })
      f.payment_history f.status (s.clock 0) refl refl (pending-ne-none p waiting) complete,
)
after_result-Polled s f p (value r) waiting complete =
    let (g, noted, polled) =
      note_result-Polled (s.clock 0) r f p p.transfer_result waiting complete in
    let (h, ended, kept) = settle-Polled r f g p polled in (h, rw (noted, ◌>>=◌) ended, kept)
