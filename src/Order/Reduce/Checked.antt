-- ===== src/Order/Reduce/Checked.antt =====
-- What reduceOrders has checked of the orders that it returns.
use finance_service.Base.{
  ℕ, ◌≡◌, ◌≢◌, refl, sym, ap, ◌∙◌, subst, Bool, true, false, Option, none, some, List, [], ◌∷◌,
  ◌++◌, ◌⊎◌, inl, inr, All, arith, Bool-cases, ◌==◌,
}
use finance_service.Base.Int.{ℤ, pos, ltb_ℤ}
use finance_service.Base.Outcome.{Reply, value, failure}
use finance_service.Entities.{SellerItem, SellerOrder}
use finance_service.Order.Results.{ErrorType}
use finance_service.Order.Reduce.{
  OrderCounts, Collected, next, stop, Step, keep_item, valid_items, keep_valid, check_items,
  after_count, finish_reduce, dropped, collect_order, collect_all, reduce_orders,
}

-- no stored order of the seller holds this item
abbrev pub IsNew : OrderCounts → ℕ → ℕ → SellerItem → Type 0
IsNew k seller oid i =
    (n : ℤ) × (k.count_items seller oid i.sid ≡ value n) × (ltb_ℤ (pos 0) n ≡ false)

-- One order of the result, for the seller of the finance: it is the seller's (or names no seller), its
-- shipping counts as paid exactly if a finance of the seller holds its oid, and with the prevention of
-- duplicates it has an item, and no stored order holds any of its items.
pub record IsChecked (k : OrderCounts) (seller : ℕ) (o : SellerOrder) : Type 0 where
  pub belongs : (o.seller_id ≡ 0) ⊎ (o.seller_id ≡ seller)
  pub shipping :
      (n : ℤ) × (k.count_orders o.seller_id o.oid ≡ value n)
      × (o.is_already_shipping_payed ≡ ltb_ℤ (pos 0) n)
  pub fresh : k.prevent_duplicates ≡ true → All (IsNew k o.seller_id o.oid) o.items

keep_item-IsNew :
    (k : OrderCounts) (seller oid : ℕ) (i : SellerItem) (r : Reply ℤ)
    (rest : Option (List SellerItem)) (js : List SellerItem)
    → k.count_items seller oid i.sid ≡ r
    → ((is : List SellerItem) → rest ≡ some is → All (IsNew k seller oid) is)
    → keep_item i r rest ≡ some js
    → All (IsNew k seller oid) js
keep_item-IsNew k seller oid i (failure e) rest js counted others h = cc
keep_item-IsNew k seller oid i (value n) none js counted others h = cc
keep_item-IsNew k seller oid i (value n) (some is) js counted others h =
    elim (Bool-cases (ltb_ℤ (pos 0) n)) [
      | inl stored ↦ others js (rw stored at h)
      | inr new ↦
          subst (All (IsNew k seller oid)) (some_injective (rw new at h))
            ((n, counted, new), others is refl)
    ]
  where
    some_injective : {a b : List SellerItem} → some a ≡ some b → a ≡ b
    some_injective e = cc

valid_items-IsNew :
    (k : OrderCounts) (seller oid : ℕ) (is js : List SellerItem)
    → valid_items k seller oid is ≡ some js
    → All (IsNew k seller oid) js
unfolding valid_items
valid_items-IsNew k seller oid [] [] h = tt
valid_items-IsNew k seller oid [] (j ∷ js) h = cc
valid_items-IsNew k seller oid (i ∷ is) js h =
    keep_item-IsNew k seller oid i (k.count_items seller oid i.sid) (valid_items k seller oid is) js
      refl (valid_items-IsNew k seller oid is) h

-- the seller of the finance is set once
other_seller :
    (k : OrderCounts) (s s' : ℕ) (os : List SellerOrder)
    → (s ≡ 0) ⊎ (s ≡ s')
    → All (IsChecked k s) os
    → All (IsChecked k s') os
other_seller k s s' [] h all = tt
other_seller k s s' (o ∷ os) h (c, all) = (
  record { belongs = either c.belongs h; shipping = c.shipping; fresh = c.fresh },
  other_seller k s s' os h all,
)
  where
    either :
        (o.seller_id ≡ 0) ⊎ (o.seller_id ≡ s)
        → (s ≡ 0) ⊎ (s ≡ s')
        → (o.seller_id ≡ 0) ⊎ (o.seller_id ≡ s')
    either (inl e) g = inl e
    either (inr e) (inl g) = inl (e ∙ g)
    either (inr e) (inr g) = inr (e ∙ g)

All-append :
    {A : Type 0} (P : A → Type 0) (xs : List A) (y : A) → All P xs → P y → All P (xs ++ (y ∷ []))
All-append P [] y h p = (p, tt)
All-append P (x ∷ xs) y (q, h) p = (q, All-append P xs y h p)

abbrev AllChecked : OrderCounts → Collected → Type 0
AllChecked k c = All (IsChecked k c.seller_id) c.orders

next_injective : {c c' : Collected} → next c ≡ next c' → c ≡ c'
next_injective h = cc

keep_valid_checks :
    (k : OrderCounts) (c c' : Collected) (o : SellerOrder) (r : Option (List SellerItem))
    → AllChecked k c
    → ((js : List SellerItem) → r ≡ some js → IsChecked k c.seller_id (record o { items = js }))
    → keep_valid c o r ≡ next c'
    → AllChecked k c'
keep_valid_checks k c c' o none all checked h = cc
keep_valid_checks k c c' o (some []) all checked h = subst (AllChecked k) (next_injective h) all
keep_valid_checks k c c' o (some (j ∷ js)) all checked h =
    subst (AllChecked k) (next_injective h)
      (All-append (IsChecked k c.seller_id) c.orders _ all (checked (j ∷ js) refl))

check_items_checks :
    (k : OrderCounts) (c c' : Collected) (o : SellerOrder)
    → AllChecked k c
    → (o.seller_id ≡ 0) ⊎ (o.seller_id ≡ c.seller_id)
    → (n : ℤ) × (k.count_orders o.seller_id o.oid ≡ value n)
      × (o.is_already_shipping_payed ≡ ltb_ℤ (pos 0) n)
    → check_items k c o ≡ next c'
    → AllChecked k c'
unfolding check_items
check_items_checks k c c' o all belongs shipping h = elim (Bool-cases k.prevent_duplicates) [
  | inl on ↦
      keep_valid_checks k c c' o _ all
        (λ js valid. record {
          belongs = belongs;
          shipping = shipping;
          fresh = λ _. valid_items-IsNew k o.seller_id o.oid o.items js valid;
        })
        (rw on at h)
  | inr off ↦ subst (AllChecked k) (next_injective (rw off at h)) (
      All-append (IsChecked k c.seller_id) c.orders o all (record {
        belongs = belongs;
        shipping = shipping;
        fresh = λ on. absurd (false_ne_true (sym off ∙ on));
      }))
]
  where
    false_ne_true : false ≢ true
    false_ne_true e = cc

after_count_checks :
    (k : OrderCounts) (c c' : Collected) (o : SellerOrder) (r : Reply ℤ)
    → k.count_orders o.seller_id o.oid ≡ r
    → AllChecked k c
    → (o.seller_id ≡ 0) ⊎ (o.seller_id ≡ c.seller_id)
    → after_count k c o r ≡ next c'
    → AllChecked k c'
after_count_checks k c c' o (failure e) counted all belongs h = cc
after_count_checks k c c' o (value n) counted all belongs h =
    check_items_checks k c c' (record o { is_already_shipping_payed = ltb_ℤ (pos 0) n }) all belongs
      (n, counted, refl) h

collect_order_checks :
    (k : OrderCounts) (c c' : Collected) (o : SellerOrder)
    → AllChecked k c
    → collect_order k c o ≡ next c'
    → AllChecked k c'
unfolding collect_order
collect_order_checks k c c' o all h = elim (Bool-cases (c.seller_id == 0)) [
  | inl none_yet ↦
      let first : after_count k (record c { seller_id = o.seller_id }) o
            (k.count_orders o.seller_id o.oid)
          ≡ next c' =
        rw none_yet at h in
      let zero_id : c.seller_id ≡ 0 = ground arith in
      after_count_checks k (record c { seller_id = o.seller_id }) c' o _ refl
        (other_seller k c.seller_id o.seller_id c.orders (inl zero_id) all) (inr refl) first
  | inr set ↦ elim (Bool-cases (c.seller_id == o.seller_id)) [
    | inl same ↦
        let more : after_count k c o (k.count_orders c.seller_id o.oid) ≡ next c' =
          rw (set, same) at h in
        let seller : c.seller_id ≡ o.seller_id = ground arith in
        after_count_checks k c c' o _ (ap (λ x. k.count_orders x o.oid) (sym seller)) all
          (inr (sym seller)) more
    | inr other ↦ let stopped : stop ErrorType.data_error ≡ next c' = rw (set, other) at h in cc
  ]
]

collect_all_checks :
    (k : OrderCounts) (c c' : Collected) (os : List (Bool × SellerOrder))
    → All (IsChecked k c.seller_id) c.orders
    → collect_all k c os ≡ next c'
    → All (IsChecked k c'.seller_id) c'.orders
unfolding collect_all
collect_all_checks k c c' [] all h =
    let same : c ≡ c' = cc in subst (λ x. All (IsChecked k x.seller_id) x.orders) same all
collect_all_checks k c c' ((true, o) ∷ os) all h = cc
collect_all_checks k c c' ((false, o) ∷ os) all h =
    go (λ d. collect_all_checks k d c' os) (collect_order k c o) refl h
  where
    go :
        ((d : Collected) → AllChecked k d → collect_all k d os ≡ next c' → AllChecked k c')
        → (m : Step) → collect_order k c o ≡ m
        → elim m [ next d ↦ collect_all k d os | stop e ↦ stop e ] ≡ next c'
        → AllChecked k c'
    go rest (next d) e g = rest d (collect_order_checks k c d o all e) g
    go rest (stop x) e g = cc

-- Where reduceOrders returns a finance, it has at least one order, and every one of its orders belongs
-- to its seller or names no seller, has its shipping marked as paid exactly if a finance of its seller
-- holds its oid already, and, with the prevention of duplicates, holds only items that no stored order
-- of the seller holds.
pub reduce_orders-IsChecked :
    (k : OrderCounts) (os : List (Bool × SellerOrder)) (c : Collected)
    → reduce_orders k os ≡ inl c
    → (c.orders ≢ []) × All (IsChecked k c.seller_id) c.orders
unfolding reduce_orders
reduce_orders-IsChecked k os c h = go (collect_all k start os) refl h
  where
    start : Collected
    start = record { seller_id = 0; orders = [] }

    by_orders :
        (d : Collected) (xs : List SellerOrder)
        → d.orders ≡ xs
        → elim xs [ [] ↦ inr (dropped ErrorType.data_error) | _ ∷ _ ↦ inl d ] ≡ inl c
        → (c.orders ≢ []) × (d ≡ c)
    by_orders d [] e g = cc
    by_orders d (x ∷ xs) e g =
        let same : d ≡ c = cc in
        (
          λ empty.
              let bad : x ∷ xs ≡ [] = sym e ∙ ap (λ (y : Collected). y.orders) same ∙ empty in cc,
          same,
        )

    go :
        (m : Step)
        → collect_all k start os ≡ m
        → finish_reduce m ≡ inl c
        → (c.orders ≢ []) × AllChecked k c
    go (stop x) e g = cc
    go (next d) e g =
        let (some_order, same) = by_orders d d.orders refl g in
        (some_order, subst (AllChecked k) same (collect_all_checks k start d os tt e))
