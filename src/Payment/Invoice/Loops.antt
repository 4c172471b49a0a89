-- ===== src/Payment/Invoice/Loops.antt =====
-- The loops of financeInvoiceCalculation add up the weights of the items and of the orders.
use mathlib.Core.Path.{fun_ext}
use finance_service.Base.{◌≡◌, refl, sym, ap, ◌∙◌, List, [], ◌∷◌, ◌++◌}
use finance_service.Base.Outcome.{Outcome, ok, err, panic, ◌>>=◌, foldm, >>=-eq-ok}
use finance_service.Decimals.{Decimals, IsExact}
use finance_service.Calculation.{SellerItemCalc, SellerOrderCalc, OrderInfoCalc}
use finance_service.Payment.Invoice.{Totals, add_item, add_shipping, add_order, add_order_info}
use finance_service.Payment.Invoice.Sums.{orders_of, items_of, sum}

foldm-append :
    {S A : Type 0} (f : S → A → Outcome S) (xs ys : List A) (s : S)
    → foldm f s (xs ++ ys) ≡ (foldm f s xs >>= λ s'. foldm f s' ys)
unfolding foldm
foldm-append f [] ys s = refl
foldm-append {S} f (x ∷ xs) ys s = go (f s x) (foldm-append f xs ys)
  where
    go :
        (r : Outcome S)
        → ((s' : S) → foldm f s' (xs ++ ys) ≡ (foldm f s' xs >>= λ u. foldm f u ys))
        → (r >>= λ s'. foldm f s' (xs ++ ys)) ≡ (r >>= (λ s'. foldm f s' xs) >>= λ u. foldm f u ys)
    go (ok s') rest = rest s'
    go (err e) rest = refl
    go panic rest = refl

-- a variable that no round of a loop changes
foldm_keep :
    {S A : Type 0} {D : Type 0} (f : S → A → Outcome S) (p : S → D)
    → ((s s' : S) (x : A) → f s x ≡ ok s' → p s' ≡ p s)
    → (xs : List A) (s s' : S) → foldm f s xs ≡ ok s'
    → p s' ≡ p s
unfolding foldm
foldm_keep f p keep [] s s' h = let same : s' ≡ s = cc in ap p same
foldm_keep f p keep (x ∷ xs) s s' h =
    let (m, first, rest) = >>=-eq-ok (f s x) _ h in
    foldm_keep f p keep xs m s' rest ∙ keep s m x first

module _ {D : Type 0} ⦃d : Decimals D⦄ where
  -- the two outer loops are one loop over all orders
  foldm-orders_of :
      (infos : List (OrderInfoCalc D)) (t : Totals D)
      → foldm add_order_info t infos ≡ foldm add_order t (orders_of infos)
  unfolding foldm add_order_info
  foldm-orders_of [] t = refl
  foldm-orders_of (i ∷ is) t =
      ap (λ k. add_order_info t i >>= k) (fun_ext λ s'. foldm-orders_of is s')
      ∙ sym (foldm-append add_order i.orders (orders_of is) t)

module _ {D : Type 0} ⦃d : Decimals D⦄ (exact : IsExact D) where
  open d use {zero, add}
  open exact use {zero-add, add-zero, add_assoc}

  sum-append :
      {A : Type 0} (w : A → D) (xs ys : List A) → sum w (xs ++ ys) ≡ add (sum w xs) (sum w ys)
  sum-append w [] ys = sym (zero-add (sum w ys))
  sum-append w (x ∷ xs) ys =
      ap (add (w x)) (sum-append w xs ys) ∙ sym (add_assoc (w x) (sum w xs) (sum w ys))

  sum-items_of :
      (w : SellerItemCalc D → D) (os : List (SellerOrderCalc D))
      → sum (λ o. sum w o.items) os ≡ sum w (items_of os)
  sum-items_of w [] = refl
  sum-items_of w (o ∷ os) =
      ap (add (sum w o.items)) (sum-items_of w os) ∙ sym (sum-append w o.items (items_of os))

  -- a loop whose rounds each add a weight to one of its variables adds the sum of the weights
  foldm-sum :
      {S A : Type 0} (f : S → A → Outcome S) (p : S → D) (w : A → D)
      → ((s s' : S) (x : A) → f s x ≡ ok s' → p s' ≡ add (p s) (w x))
      → (xs : List A) (s s' : S) → foldm f s xs ≡ ok s'
      → p s' ≡ add (p s) (sum w xs)
  unfolding foldm
  foldm-sum f p w step [] s s' h = let same : s' ≡ s = cc in ap p same ∙ sym (add-zero (p s))
  foldm-sum f p w step (x ∷ xs) s s' h =
      let (m, first, rest) = >>=-eq-ok (f s x) _ h in
      foldm-sum f p w step xs m s' rest
      ∙ ap (λ y. add y (sum w xs)) (step s m x first)
      ∙ add_assoc (p s) (w x) (sum w xs)

  -- a total of the items: the loops add the weight of every item
  pub item_total :
      (p : Totals D → D) (w : SellerItemCalc D → D)
      → ((t t' : Totals D) (i : SellerItemCalc D) → add_item t i ≡ ok t' → p t' ≡ add (p t) (w i))
      → ((t : Totals D) (o : SellerOrderCalc D) → p (add_shipping t o) ≡ p t)
      → (infos : List (OrderInfoCalc D)) (t t' : Totals D) → foldm add_order_info t infos ≡ ok t'
      → p t' ≡ add (p t) (sum w (items_of (orders_of infos)))
  unfolding add_order
  item_total p w item keep infos t t' h =
      foldm-sum add_order p (λ o. sum w o.items) order (orders_of infos) t t'
        (sym (foldm-orders_of infos t) ∙ h)
      ∙ ap (add (p t)) (sum-items_of w (orders_of infos))
    where
      order :
          (s s' : Totals D) (o : SellerOrderCalc D)
          → add_order s o ≡ ok s'
          → p s' ≡ add (p s) (sum w o.items)
      order s s' o e =
          let (m, items, last) = >>=-eq-ok (foldm add_item s o.items) _ e in
          let same : s' ≡ add_shipping m o = cc in
          ap p same ∙ keep m o ∙ foldm-sum add_item p w item o.items s m items

  -- a total of the orders: the loops add the weight of every order
  pub order_total :
      (p : Totals D → D) (v : SellerOrderCalc D → D)
      → ((t t' : Totals D) (i : SellerItemCalc D) → add_item t i ≡ ok t' → p t' ≡ p t)
      → ((t : Totals D) (o : SellerOrderCalc D) → p (add_shipping t o) ≡ add (p t) (v o))
      → (infos : List (OrderInfoCalc D)) (t t' : Totals D) → foldm add_order_info t infos ≡ ok t'
      → p t' ≡ add (p t) (sum v (orders_of infos))
  unfolding add_order
  order_total p v keep ship infos t t' h =
      foldm-sum add_order p v order (orders_of infos) t t' (sym (foldm-orders_of infos t) ∙ h)
    where
      order :
          (s s' : Totals D) (o : SellerOrderCalc D) → add_order s o ≡ ok s' → p s' ≡ add (p s) (v o)
      order s s' o e =
          let (m, items, last) = >>=-eq-ok (foldm add_item s o.items) _ e in
          let same : s' ≡ add_shipping m o = cc in
          ap p same
          ∙ ship m o
          ∙ ap (λ y. add y (v o)) (foldm_keep add_item p keep o.items s m items)
