-- ===== src/Payment/Process/Stored.antt =====
-- What ExecutePipeline has checked of a finance that it passes to Save.
use finance_service.Base.{◌≡◌, refl, ap, ◌∙◌, Option, some, none, List, [], ◌∷◌, All}
use finance_service.Base.Int.{pos, int64}
use finance_service.Base.Text.{itoa}
use finance_service.Base.Outcome.{
  Outcome, ok, err, panic, Reply, value, failure, deref, >>=-eq-ok, ok-injective,
}
use finance_service.Entities.{
  ObjectId, OrderInfo, SellerFinance, SellerProfile, TriggerHistory, TriggerExecResult,
}
use finance_service.Decimals.{Decimals}
use finance_service.Payment.Services.{Services}
use finance_service.Payment.Invoice.{finance_invoice_calculation}
use finance_service.Payment.Process.{
  Processed, skipped, saved, unsaved, with_profile, is_success, check_history,
  finance_trigger_validation, start_if_automatic, or_skip, store, execute_pipeline,
}

-- the trigger run that collected these orders succeeded
abbrev pub IsCollected : Services → OrderInfo → Type 0
IsCollected s i =
    (id : ObjectId) × (h : TriggerHistory) × (i.trigger_history_id ≡ some id)
    × (s.history id ≡ value h)
    × (h.exec_result ≡ TriggerExecResult.success)

pub deref-eq-ok : {A : Type 0} (o : Option A) {a : A} → deref o ≡ ok a → o ≡ some a
deref-eq-ok none h = cc
deref-eq-ok (some b) h = ap some (ok-injective h)

check_history_success :
    (r : Reply TriggerHistory)
    → check_history r ≡ ok tt
    → (h : TriggerHistory) × (r ≡ value h) × (h.exec_result ≡ TriggerExecResult.success)
check_history_success (failure e) ended = cc
check_history_success (value h) ended = (h, refl, go h.exec_result ended)
  where
    go : (e : TriggerExecResult) → is_success e ≡ ok tt → e ≡ TriggerExecResult.success
    go TriggerExecResult.success g = refl
    go TriggerExecResult.none_result g = cc
    go TriggerExecResult.fail g = cc
    go TriggerExecResult.partial g = cc

-- The validation passes only if the trigger run of every order info succeeded.
pub validation-IsCollected :
    (s : Services) (infos : List OrderInfo)
    → finance_trigger_validation s infos ≡ ok tt
    → All (IsCollected s) infos
unfolding finance_trigger_validation
validation-IsCollected s [] h = tt
validation-IsCollected s (i ∷ is) h =
    let (id, found, rest) = >>=-eq-ok (deref i.trigger_history_id) _ h in
    let (_, checked, others) = >>=-eq-ok (check_history (s.history id)) _ rest in
    let (history, replied, success) = check_history_success (s.history id) checked in
    (
      (id, history, deref-eq-ok i.trigger_history_id found, replied, success),
      validation-IsCollected s is others,
    )

-- a round that ended in Save: each step before it succeeded
pub record Passed (D : Type 0) ⦃d : Decimals D⦄ (s : Services) (f g : SellerFinance) : Type 0 where
  pub profile : SellerProfile
  pub known : with_profile f.seller_info (s.profile (itoa (int64 (pos f.seller_id)))) ≡ ok profile
  pub collected : All (IsCollected s) f.orders_info
  pub invoiced : SellerFinance
  pub calculated :
      finance_invoice_calculation D (record f { seller_info = some profile }) ≡ ok invoiced
  pub started : start_if_automatic s invoiced.payment_mode invoiced ≡ ok g

-- what Save was called with
abbrev pub sent_to_save : Processed → Option SellerFinance
sent_to_save skipped = none
sent_to_save (unsaved g) = some g
sent_to_save (saved g h) = some g

or_skip-eq-ok :
    {A : Type 0} (m : Outcome A) (k : A → Outcome Processed) (r : Processed) (g : SellerFinance)
    → or_skip m k ≡ ok r
    → sent_to_save r ≡ some g
    → (a : A) × (m ≡ ok a) × (k a ≡ ok r)
or_skip-eq-ok (ok a) k r g h sent = (a, refl, h)
or_skip-eq-ok (err e) k skipped g h sent = cc
or_skip-eq-ok (err e) k (unsaved x) g h sent = cc
or_skip-eq-ok (err e) k (saved x y) g h sent = cc
or_skip-eq-ok panic k r g h sent = cc

pub execute_pipeline_lem :
    (D : Type 0) ⦃d : Decimals D⦄ (s : Services) (f g : SellerFinance) (r : Processed)
    → execute_pipeline D s f ≡ ok r
    → sent_to_save r ≡ some g
    → Passed D s f g
unfolding execute_pipeline
execute_pipeline_lem D s f g r h sent =
    let (p, known, h₁) =
      or_skip-eq-ok (with_profile f.seller_info (s.profile (itoa (int64 (pos f.seller_id))))) _ r g
        h sent in
    let (_, valid, h₂) = or_skip-eq-ok (finance_trigger_validation s f.orders_info) _ r g h₁ sent in
    let (i, calculated, h₃) =
      or_skip-eq-ok (finance_invoice_calculation D (record f { seller_info = some p })) _ r g h₂
        sent in
    let (x, started, h₄) = >>=-eq-ok (start_if_automatic s i.payment_mode i) _ h₃ in
    record {
      profile = p;
      known = known;
      collected = validation-IsCollected s f.orders_info valid;
      invoiced = i;
      calculated = calculated;
      started = started ∙ ap ok (store-sent x (s.save x) (ok-injective h₄));
    }
  where
    store-sent : (x : SellerFinance) (a : Reply SellerFinance) → store x a ≡ r → x ≡ g
    store-sent x (failure e) same = some_injective (ap sent_to_save same ∙ sent)
      where
        some_injective : {a b : SellerFinance} → some a ≡ some b → a ≡ b
        some_injective e = cc
    store-sent x (value y) same = some_injective (ap sent_to_save same ∙ sent)
      where
        some_injective : {a b : SellerFinance} → some a ≡ some b → a ≡ b
        some_injective e = cc

-- Where a finance reaches Save, every one of its order infos names a trigger history that the history
-- repository finds, and whose run was a success.
pub execute_pipeline-IsCollected :
    (D : Type 0) ⦃d : Decimals D⦄ (s : Services) (f g : SellerFinance) (r : Processed)
    → execute_pipeline D s f ≡ ok r
    → sent_to_save r ≡ some g
    → All (IsCollected s) f.orders_info
execute_pipeline-IsCollected D s f g r h sent = (execute_pipeline_lem D s f g r h sent).collected
