-- ===== src/Payment/Invoice/Due/Summed.antt =====
-- The sums of the calculation are the sums over what the finance holds.
use finance_service.Base.{◌≡◌, sym, ap, ◌∙◌, subst, List, [], ◌∷◌, ◌++◌}
use finance_service.Base.Outcome.{Outcome, ok, deref, traverse, >>=-eq-ok, >>=-ok, ok-injective}
use finance_service.Entities.{SellerOrder, OrderInfo, SellerFinance}
use finance_service.Decimals.{Decimals}
use finance_service.Calculation.{
  SellerOrderCalc, OrderInfoCalc, SellerFinanceCalc, finance_calc_factory,
}
use finance_service.Calculation.{read_item, read_order, read_order_info}
use finance_service.Payment.Invoice.Sums.{
  orders_of, items_of, sum, share_of, commission_of, sso_of, vat_of, shipment_of, expected_totals,
}
use finance_service.Payment.Invoice.Due.{
  stored_orders, stored_items, share_due, commission_due, sso_due, vat_due, shipment_due,
  due_totals,
}
use finance_service.Payment.Invoice.Due.Read.{item_back, order_back}

traverse-++ :
    {A B : Type 0} (f : A → Outcome B) (xs zs : List A) (ys ws : List B)
    → traverse f xs ≡ ok ys
    → traverse f zs ≡ ok ws
    → traverse f (xs ++ zs) ≡ ok (ys ++ ws)
unfolding traverse
traverse-++ f [] zs ys ws h g = g ∙ ap (λ t. ok (t ++ ws)) (ok-injective h)
traverse-++ f (x ∷ xs) zs ys ws h g =
    let (y, hy, h1) = >>=-eq-ok (f x) _ h in
    let (rest, hr, last) = >>=-eq-ok (traverse f xs) _ h1 in
    >>=-ok (f x) _ hy
    ∙ >>=-ok (traverse f (xs ++ zs)) _ (traverse-++ f xs zs rest ws hr g)
    ∙ ap (λ t. ok (t ++ ws)) (ok-injective last)

module _ {D : Type 0} ⦃d : Decimals D⦄ where
  open d use {add}

  -- every order is read, in order
  orders_back :
      (is : List OrderInfo) (cs : List (OrderInfoCalc D))
      → traverse read_order_info is ≡ ok cs
      → traverse read_order (stored_orders is) ≡ ok (orders_of cs)
  unfolding traverse read_order_info
  orders_back [] cs h = ap (λ x. ok (orders_of x)) (ok-injective h)
  orders_back (i ∷ is) cs h =
      let (c, hc, h1) = >>=-eq-ok (read_order_info i) _ h in
      let (rest, hr, last) = >>=-eq-ok (traverse read_order_info is) _ h1 in
      let (history, _, h2) = >>=-eq-ok (deref i.trigger_history_id) _ hc in
      let (orders, ho, made) = >>=-eq-ok (traverse read_order i.orders) _ h2 in
      traverse-++ read_order i.orders (stored_orders is) orders (orders_of rest) ho
        (orders_back is rest hr)
      ∙ ap (λ (x : OrderInfoCalc D). ok (x.orders ++ orders_of rest)) (ok-injective made)
      ∙ ap (λ x. ok (orders_of x)) (ok-injective last)

  -- every item is read, in order
  items_back :
      (os : List SellerOrder) (cs : List (SellerOrderCalc D))
      → traverse read_order os ≡ ok cs
      → traverse read_item (stored_items os) ≡ ok (items_of cs)
  unfolding traverse
  items_back [] cs h = ap (λ x. ok (items_of x)) (ok-injective h)
  items_back (o ∷ os) cs h =
      let (c, hc, h1) = >>=-eq-ok (read_order o) _ h in
      let (rest, hr, last) = >>=-eq-ok (traverse read_order os) _ h1 in
      traverse-++ read_item o.items (stored_items os) c.items (items_of rest)
        ((order_back o c hc).1) (items_back os rest hr)
      ∙ ap (λ x. ok (items_of x)) (ok-injective last)

  sum_back :
      {A B : Type 0} (f : A → Outcome B) (w : B → D) (v : A → D)
      → ((x : A) (y : B) → f x ≡ ok y → w y ≡ v x)
      → (xs : List A) (ys : List B) → traverse f xs ≡ ok ys
      → sum w ys ≡ sum v xs
  unfolding traverse
  sum_back f w v back [] ys h = ap (sum w) (sym (ok-injective h))
  sum_back f w v back (x ∷ xs) ys h =
      let (y, hy, h1) = >>=-eq-ok (f x) _ h in
      let (rest, hr, last) = >>=-eq-ok (traverse f xs) _ h1 in
      ap (sum w) (sym (ok-injective last))
      ∙ (λ k. add (back x y hy k) (sum_back f w v back xs rest hr k))

  -- two sums over the items, and two over the orders
  pair_back :
      {A B : Type 0} (f : A → Outcome B) (w : B → D × D) (v : A → D × D)
      → ((x : A) (y : B) → f x ≡ ok y → w y ≡ v x)
      → (xs : List A) (ys : List B) → traverse f xs ≡ ok ys
      → (sum (λ y. (w y).0) ys ≡ sum (λ x. (v x).0) xs)
        × (sum (λ y. (w y).1) ys ≡ sum (λ x. (v x).1) xs)
  pair_back f w v back xs ys h = (
    sum_back f (λ y. (w y).0) (λ x. (v x).0) (λ x y e. ap (λ (p : D × D). p.0) (back x y e)) xs ys
        h,
    sum_back f (λ y. (w y).1) (λ x. (v x).1) (λ x y e. ap (λ (p : D × D). p.1) (back x y e)) xs ys
        h,
  )

  -- The sums over what the calculation has read are the sums over what the finance holds.
  totals_back :
      (is : List OrderInfo) (cs : List (OrderInfoCalc D))
      → traverse read_order_info is ≡ ok cs
      → expected_totals cs ≡ due_totals is
  totals_back is cs h =
      let orders = orders_back is cs h in
      let items = items_back (stored_orders is) (orders_of cs) orders in
      let shipping =
        pair_back read_order shipment_of shipment_due (λ x y e. (order_back x y e).0) _ _ orders in
      let share = pair_back read_item share_of share_due (λ x y e. (item_back x y e).0) _ _ items in
      let commission =
        pair_back read_item commission_of commission_due (λ x y e. (item_back x y e).1) _ _ items in
      let sso = pair_back read_item sso_of sso_due (λ x y e. (item_back x y e).2) _ _ items in
      let vat = pair_back read_item vat_of vat_due (λ x y e. (item_back x y e).3) _ _ items in
      λ k. record {
        sso_raw = sso.0 k;
        sso_roundup = sso.1 k;
        vat_raw = vat.0 k;
        vat_roundup = vat.1 k;
        commission_raw = commission.0 k;
        commission_roundup = commission.1 k;
        share_raw = add (share.0 k) (shipping.0 k);
        share_roundup = add (share.1 k) (shipping.1 k);
        shipment_raw = shipping.0 k;
        shipment_roundup = shipping.1 k;
      }

  -- What the calculation of a finance sums up is what the finance holds.
  pub factory-due_totals :
      (f : SellerFinance) (c : SellerFinanceCalc D)
      → finance_calc_factory f ≡ ok c
      → expected_totals c.orders_info ≡ due_totals f.orders_info
  unfolding finance_calc_factory
  factory-due_totals f c h =
      let (infos, e, last) = >>=-eq-ok (traverse read_order_info f.orders_info) _ h in
      subst (λ (x : SellerFinanceCalc D). expected_totals x.orders_info ≡ due_totals f.orders_info)
        (ok-injective last) (totals_back f.orders_info infos e)
