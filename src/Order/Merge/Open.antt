-- ===== src/Order/Merge/Open.antt =====
-- Which finance createUpdateFinance adds the orders to, and what it saves.
use finance_service.Order.Merge.Items.{added_orders, merge_orders-added}
use finance_service.Base.{
  ℕ, ◌≡◌, refl, sym, ap, ◌∙◌, subst, Bool, true, false, Option, none, some, List, [], ◌∷◌, ◌++◌,
  not, All, if◌then◌else◌, Bool-cases, inl, inr, ◌⊎◌,
}
use finance_service.Base.Int.{◌+ℤ◌, ◌-ℤ◌, ltb_ℤ}
use finance_service.Base.Outcome.{ErrorCode, ok, Reply, value, failure, >>=-ok, deref->>=, foldm}
use finance_service.Entities.{Time, FinanceState, OrderInfo, SellerOrder, SellerFinance}
use finance_service.Order.Merge.{
  OrderServices, Merged, keep_first, find_open, first_orders, new_order_info, merge_orders,
  new_seller_finance, add_orders, update_finance, create_finance, update_or_create, by_found,
  create_update_finance, after_update, after_create,
}

abbrev pub HasEnd : SellerFinance → Type 0
HasEnd f = (t : Time) × (f.end_at ≡ some t)

-- the finance's window is not over
abbrev pub is_open : Time → SellerFinance → Bool
is_open now f = elim f.end_at [ none ↦ false | some end ↦ not (ltb_ℤ end now) ]

abbrev pub first_open : Time → List SellerFinance → Option SellerFinance
first_open now [] = none
first_open now (f ∷ fs) = let rest = first_open now fs in if is_open now f then some f else rest

is_open_eq :
    (now : Time) (f : SellerFinance) (t : Time)
    → f.end_at ≡ some t
    → is_open now f ≡ not (ltb_ℤ t now)
is_open_eq now f t e = rw e refl

find_open-some :
    (now : Time) (f : SellerFinance) (fs : List SellerFinance)
    → All HasEnd fs
    → foldm (find_open now) (some f) fs ≡ ok (some f)
unfolding find_open foldm
find_open-some now f [] h = refl
find_open-some now f (g ∷ gs) ((t, e), h) =
    >>=-ok (find_open now (some f) g) _ (deref->>= g.end_at _ e) ∙ find_open-some now f gs h

find_open-first_open :
    (now : Time) (fs : List SellerFinance)
    → All HasEnd fs
    → foldm (find_open now) none fs ≡ ok (first_open now fs)
unfolding find_open foldm
find_open-first_open now [] h = refl
find_open-first_open now (g ∷ gs) ((t, e), h) = elim (Bool-cases (not (ltb_ℤ t now))) [
  | inl open_still ↦
      >>=-ok (find_open now none g) _
        (deref->>= g.end_at _ e ∙ ap (λ b. ok (keep_first none g b)) open_still)
      ∙ find_open-some now g gs h
      ∙ ap (λ b. ok (if b then some g else first_open now gs))
          (sym (is_open_eq now g t e ∙ open_still))
  | inr over ↦
      >>=-ok (find_open now none g) _
        (deref->>= g.end_at _ e ∙ ap (λ b. ok (keep_first none g b)) over)
      ∙ find_open-first_open now gs h
      ∙ ap (λ b. ok (if b then some g else first_open now gs)) (sym (is_open_eq now g t e ∙ over))
]

-- whether a service replied with a value
abbrev pub is_value : {A : Type 0} → Reply A → Bool
is_value (value a) = true
is_value (failure e) = false

-- one order info with these orders and the name and history of the trigger
abbrev pub run_info : OrderServices → List SellerOrder → OrderInfo
run_info s os = record {
  trigger_name = s.trigger_history.trigger_name;
  trigger_history_id = some s.trigger_history.id;
  orders = os;
}

new_order_info-run_info :
    (s : OrderServices) (os : List SellerOrder) → new_order_info s os ≡ run_info s os
unfolding new_order_info
new_order_info-run_info s os = refl

-- What is saved where a finance is there to add orders to.
pub record IsAdded (s : OrderServices) (f : SellerFinance) (os : List SellerOrder) (m : Merged)
    : Type 0 where
  pub saved : m.saves ≡ record f { orders_info = f.orders_info ++ (run_info s os ∷ []) } ∷ []
  pub result :
      m.outcome.result
      ≡ is_value (s.save (record f { orders_info = f.orders_info ++ (run_info s os ∷ []) }))

after_update-IsAdded :
    (g : SellerFinance) (r : Reply SellerFinance)
    → ((after_update g r).saves ≡ g ∷ []) × ((after_update g r).outcome.result ≡ is_value r)
after_update-IsAdded g (value x) = (refl, refl)
after_update-IsAdded g (failure e) = (refl, refl)

-- the first open finance, if there is one, decides
found_eq :
    (s : OrderServices) (new : SellerFinance) (fs : List SellerFinance) (i : OrderInfo)
    (is : List OrderInfo) (o : Option SellerFinance)
    → s.found ≡ value fs
    → All HasEnd fs
    → first_open s.timestamp fs ≡ o
    → new.orders_info ≡ i ∷ is
    → create_update_finance s new ≡ update_or_create s new.seller_id i.orders o
unfolding create_update_finance
found_eq s new fs i is o found ends first infos =
    ap (by_found s new) found
    ∙ >>=-ok (foldm (find_open s.timestamp) none fs) _
        (find_open-first_open s.timestamp fs ends ∙ ap ok first)
    ∙ >>=-ok (first_orders new.orders_info) _ (ap first_orders infos)

-- no finance is found, or none that is open
abbrev pub NoneOpen : OrderServices → Type 0
NoneOpen s =
    (s.found ≡ failure ErrorCode.not_found)
    ⊎ ((fs : List SellerFinance) × (s.found ≡ value fs)
        × All HasEnd fs
        × (first_open s.timestamp fs ≡ none))

created_eq :
    (s : OrderServices) (new : SellerFinance) (i : OrderInfo) (is : List OrderInfo)
    → NoneOpen s
    → new.orders_info ≡ i ∷ is
    → create_update_finance s new ≡ create_finance s new.seller_id i.orders
unfolding create_update_finance
created_eq s new i is (inl missing) infos =
    ap (by_found s new) missing ∙ >>=-ok (first_orders new.orders_info) _ (ap first_orders infos)
created_eq s new i is (inr (fs, found, ends, over)) infos =
    found_eq s new fs i is none found ends over infos

after_create-saves :
    (g : SellerFinance) (r : Reply SellerFinance)
    → ((after_create g r).saves ≡ g ∷ []) × ((after_create g r).outcome.result ≡ is_value r)
after_create-saves g (value x) = (refl, refl)
after_create-saves g (failure e) = (refl, refl)

new_seller_finance_lem :
    (s : OrderServices) (t : Time) (seller : ℕ) (os : List SellerOrder)
    → let g = new_seller_finance s t seller os in
      (g.seller_id ≡ seller)
      × (g.status ≡ FinanceState.order_collection)
      × (g.orders_info ≡ run_info s os ∷ [])
      × (g.start_at ≡ some (t -ℤ s.finance_trigger_interval))
      × (g.end_at ≡ some (t -ℤ s.finance_trigger_interval +ℤ s.finance_trigger_duration))
unfolding new_seller_finance
new_seller_finance_lem s t seller os =
    (refl, refl, ap (λ i. i ∷ []) (new_order_info-run_info s os), refl, refl)

-- Where finances of the seller are found, all with an end, and one of them is open at the time of the
-- run, the first open one gets what the run's orders add in turn: an order of an oid that the finance
-- does not hold is added whole, and of another one as many copies as it has items that the stored orders
-- of its oid do not hold, each copy with the last of these items alone. If this is not empty, it is
-- appended as one order info with the trigger's name and history, nothing else of the finance is changed,
-- it alone is saved, once, and the result is a success exactly if Save succeeds; if it is empty, nothing
-- is saved and the result is no success.
pub create_update_finance-open :
    (s : OrderServices) (new f : SellerFinance) (fs : List SellerFinance) (i : OrderInfo)
    (is : List OrderInfo)
    → s.found ≡ value fs
    → All HasEnd fs
    → first_open s.timestamp fs ≡ some f
    → new.orders_info ≡ i ∷ is
    → (m : Merged) × (create_update_finance s new ≡ ok m)
      × ((o : SellerOrder) (os : List SellerOrder)
          → added_orders f.fid f.orders_info i.orders ≡ o ∷ os
          → IsAdded s f (o ∷ os) m)
      × (added_orders f.fid f.orders_info i.orders ≡ []
          → (m.saves ≡ []) × (m.outcome.result ≡ false))
unfolding create_update_finance update_finance new_order_info
create_update_finance-open s new f fs i is found ends first infos = (
  update_finance s f i.orders,
  found_eq s new fs i is (some f) found ends first infos,
  λ o os merged.
      let (saved, result) = after_update-IsAdded (added o os) (s.save (added o os)) in
      subst (IsAdded s f (o ∷ os)) (sym (ap (add_orders s f) (as_added ∙ merged)))
        (record { saved = saved; result = result }),
  λ empty.
      subst (λ (m : Merged). (m.saves ≡ []) × (m.outcome.result ≡ false))
        (sym (ap (add_orders s f) (as_added ∙ empty))) (refl, refl),
)
  where
    added : SellerOrder → List SellerOrder → SellerFinance
    added o os = record f { orders_info = f.orders_info ++ (new_order_info s (o ∷ os) ∷ []) }

    as_added : merge_orders f.fid f.orders_info i.orders ≡ added_orders f.fid f.orders_info i.orders
    as_added = merge_orders-added f.fid f.orders_info i.orders

-- Where no finance of the seller is found, or, with every one found having an end, none is open at the
-- time of the run, a new finance is saved, once: it collects orders, holds all the orders of the run in
-- one order info with the trigger's name and history, and its window starts an interval before the trigger's time and lasts for the
-- configured duration.
pub create_update_finance-new :
    (s : OrderServices) (new : SellerFinance) (t : Time) (i : OrderInfo) (is : List OrderInfo)
    → NoneOpen s
    → s.trigger_history.triggered_at ≡ some t
    → new.orders_info ≡ i ∷ is
    → (m : Merged) × (g : SellerFinance) × (create_update_finance s new ≡ ok m)
      × (m.saves ≡ g ∷ [])
      × (m.outcome.result ≡ is_value (s.save g))
      × (g.seller_id ≡ new.seller_id)
      × (g.status ≡ FinanceState.order_collection)
      × (g.orders_info ≡ run_info s i.orders ∷ [])
      × (g.start_at ≡ some (t -ℤ s.finance_trigger_interval))
      × (g.end_at ≡ some (t -ℤ s.finance_trigger_interval +ℤ s.finance_trigger_duration))
unfolding create_update_finance create_finance
create_update_finance-new s new t i is found at infos =
    let g = new_seller_finance s t new.seller_id i.orders in
    let (saved, result) = after_create-saves g (s.save g) in
    let (seller, status, infos_of, start, end) =
      new_seller_finance_lem s t new.seller_id i.orders in
    (
      after_create g (s.save g),
      g,
      created_eq s new i is found infos ∙ deref->>= s.trigger_history.triggered_at _ at,
      saved,
      result,
      seller,
      status,
      infos_of,
      start,
      end,
    )
