-- ===== src/Converter/Rows/Shipments.antt =====
-- Which rows the collection has: one of a purchase for each item, and one of a shipment for each order
-- that its seller still has to be paid for.
use finance_service.Base.{
  ℕ, ◌≡◌, refl, sym, ap, ◌∙◌, subst, Bool, true, false, ◌||◌, inl, inr, Bool-cases, Option, none,
  some, List, [], ◌∷◌, ◌++◌, String, if◌then◌else◌,
}
use finance_service.Base.Outcome.{ok, deref, >>=-eq-ok, ok-injective}
use finance_service.Entities.{Time, SellerItem, FinanceState}
use finance_service.Server.Convert.Items.{convert_pointed_money}
use finance_service.Converter.Rows.{
  SellerOrderItem, SellerOrderItemInfo, FinanceOrderItem, PaymentType, ItemRow, uncalculated_row,
  shipment_row, purchase_row,
}
use finance_service.Converter.Rows.Collection.{has_key, shipment_rows, calculated_rows}

-- a number in front of others, where its row is of the kind that is looked for
abbrev pub keep : PaymentType → PaymentType → ℕ → List ℕ → List ℕ
keep PaymentType.shipment PaymentType.shipment n ns = n ∷ ns
keep PaymentType.purchase PaymentType.purchase n ns = n ∷ ns
keep _ _ n ns = ns

-- the numbers of the orders that the rows of one kind are of, in the order of the rows
abbrev pub orders_of : PaymentType → List ItemRow → List ℕ
orders_of kind [] = []
orders_of kind (r ∷ rs) = keep kind r.payment_type r.order_id (orders_of kind rs)

keep-append :
    (kind of : PaymentType) (n : ℕ) (xs ys : List ℕ)
    → keep kind of n (xs ++ ys) ≡ keep kind of n xs ++ ys
keep-append PaymentType.shipment PaymentType.shipment n xs ys = refl
keep-append PaymentType.shipment PaymentType.purchase n xs ys = refl
keep-append PaymentType.purchase PaymentType.shipment n xs ys = refl
keep-append PaymentType.purchase PaymentType.purchase n xs ys = refl

pub orders_of-append :
    (kind : PaymentType) (xs ys : List ItemRow)
    → orders_of kind (xs ++ ys) ≡ orders_of kind xs ++ orders_of kind ys
orders_of-append kind [] ys = refl
orders_of-append kind (x ∷ xs) ys =
    ap (keep kind x.payment_type x.order_id) (orders_of-append kind xs ys)
    ∙ keep-append kind x.payment_type x.order_id (orders_of kind xs) (orders_of kind ys)

-- the order of an item, and its number
abbrev pub order_in : Option SellerOrderItemInfo → Option SellerOrderItem
order_in none = none
order_in (some info) = info.order

abbrev pub number_of : Option SellerOrderItem → List ℕ
number_of none = []
number_of (some o) = o.oid ∷ []

abbrev pub numbers : List FinanceOrderItem → List ℕ
numbers [] = []
numbers (f ∷ fs) = number_of (order_in f.order_info) ++ numbers fs

-- the number of the item's order, where the finance is calculated and the shipment is not paid yet
abbrev pub owed_in : FinanceState → Option SellerOrderItem → List ℕ
owed_in FinanceState.order_collection o = []
owed_in _ none = []
owed_in _ (some o) = if o.is_already_shipping_payed then [] else o.oid ∷ []

abbrev pub owed : List FinanceOrderItem → List ℕ
owed [] = []
owed (f ∷ fs) = owed_in f.status (order_in f.order_info) ++ owed fs

purchase_row_lem :
    (format : Time → String) (o : SellerOrderItem) (i : SellerItem) (r : ItemRow)
    → purchase_row format o i ≡ ok r
    → (r.payment_type ≡ PaymentType.purchase) × (r.order_id ≡ o.oid)
unfolding purchase_row
purchase_row_lem format o i r h =
    let (invoice, _, h1) = >>=-eq-ok (deref i.invoice) _ h in
    let (share, _, h2) = >>=-eq-ok (deref invoice.share) _ h1 in
    let (sso, _, h3) = >>=-eq-ok (deref invoice.sso) _ h2 in
    let (vat, _, h4) = >>=-eq-ok (deref invoice.vat) _ h3 in
    let (commission, _, h5) = >>=-eq-ok (deref invoice.commission) _ h4 in
    let (created, _, last) = >>=-eq-ok (deref o.order_created_at) _ h5 in
    subst (λ x. (x.payment_type ≡ PaymentType.purchase) × (x.order_id ≡ o.oid)) (ok-injective last)
      (refl, refl)

pub uncalculated_row_lem :
    (format : Time → String) (o : SellerOrderItem) (i : SellerItem) (r : ItemRow)
    → uncalculated_row format o i ≡ ok r
    → (r.payment_type ≡ PaymentType.purchase) × (r.order_id ≡ o.oid)
unfolding uncalculated_row
uncalculated_row_lem format o i r h =
    let (created, _, last) = >>=-eq-ok (deref o.order_created_at) _ h in
    subst (λ x. (x.payment_type ≡ PaymentType.purchase) × (x.order_id ≡ o.oid)) (ok-injective last)
      (refl, refl)

shipment_row_lem :
    (format : Time → String) (o : SellerOrderItem) (i : SellerItem) (r : ItemRow)
    → shipment_row format o i ≡ ok r
    → (r.payment_type ≡ PaymentType.shipment) × (r.order_id ≡ o.oid)
unfolding shipment_row
shipment_row_lem format o i r h =
    let (created, _, h1) = >>=-eq-ok (deref o.order_created_at) _ h in
    let (fee, _, last) = >>=-eq-ok (convert_pointed_money o.roundup_shipping_net) _ h1 in
    subst (λ x. (x.payment_type ≡ PaymentType.shipment) × (x.order_id ≡ o.oid)) (ok-injective last)
      (refl, refl)

-- the numbers without the ones that were there before
unfoldable pub first_seen : List ℕ → List ℕ → List ℕ
unfolding has_key
first_seen history [] = []
first_seen history (x ∷ xs) =
    let rest = first_seen (x ∷ history) xs in
    elim (has_key x history) [ true ↦ first_seen history xs | false ↦ x ∷ rest ]

-- what the rows r and the next history show of an order with number n, whose shipment is owed or not
pub record Shown (history owing : List ℕ) (n : ℕ) (r : List ItemRow × List ℕ) : Type 0 where
  pub purchased : orders_of PaymentType.purchase r.0 ≡ n ∷ []
  pub shipped :
      (more : List ℕ)
      → first_seen history (owing ++ more)
        ≡ orders_of PaymentType.shipment r.0 ++ first_seen r.1 more

pub first_seen_nil : (history : List ℕ) → first_seen history [] ≡ []
unfolding first_seen
first_seen_nil history = refl

pub first_seen_old :
    (n : ℕ) (history more : List ℕ)
    → has_key n history ≡ true
    → first_seen history (n ∷ more) ≡ first_seen history more
unfolding first_seen
first_seen_old n history more h =
    ap
      (λ (b : Bool). elim b as (λ _. List ℕ) [
        | true ↦ first_seen history more
        | false ↦ n ∷ first_seen (n ∷ history) more
      ])
      h

pub first_seen_new :
    (n : ℕ) (history more : List ℕ)
    → has_key n history ≡ false
    → first_seen history (n ∷ more) ≡ n ∷ first_seen (n ∷ history) more
unfolding first_seen
first_seen_new n history more h =
    ap
      (λ (b : Bool). elim b as (λ _. List ℕ) [
        | true ↦ first_seen history more
        | false ↦ n ∷ first_seen (n ∷ history) more
      ])
      h

-- what is left to be seen, by whether the shipment is paid and whether its order was seen
first_seen_step :
    (payed : Bool) (n : ℕ) (history more : List ℕ)
    → first_seen history ((if payed then [] else n ∷ []) ++ more)
      ≡ (if payed || has_key n history then [] else n ∷ [])
        ++ first_seen (if payed || has_key n history then history else n ∷ history) more
first_seen_step true n history more = refl
first_seen_step false n history more = elim (Bool-cases (has_key n history)) [
  | inl seen ↦ first_seen_old n history more seen ∙ rw seen refl
  | inr new ↦ first_seen_new n history more new ∙ rw new refl
]

shipment_rows_lem :
    (format : Time → String) (skip : Bool) (history : List ℕ) (o : SellerOrderItem) (i : SellerItem)
    (r : List ItemRow × List ℕ)
    → shipment_rows format skip history o i ≡ ok r
    → (orders_of PaymentType.purchase r.0 ≡ [])
      × (orders_of PaymentType.shipment r.0 ≡ (if skip then [] else o.oid ∷ []))
      × (r.1 ≡ (if skip then history else o.oid ∷ history))
unfolding shipment_rows
shipment_rows_lem format true history o i r h =
    subst
      (λ (x : List ItemRow × List ℕ).
        (orders_of PaymentType.purchase x.0 ≡ [])
        × (orders_of PaymentType.shipment x.0 ≡ [])
        × (x.1 ≡ history))
      (ok-injective h) (refl, refl, refl)
shipment_rows_lem format false history o i r h =
    let (row, e, last) = >>=-eq-ok (shipment_row format o i) _ h in
    let (kind, number) = shipment_row_lem format o i row e in
    subst
      (λ (x : List ItemRow × List ℕ).
        (orders_of PaymentType.purchase x.0 ≡ [])
        × (orders_of PaymentType.shipment x.0 ≡ o.oid ∷ [])
        × (x.1 ≡ o.oid ∷ history))
      (ok-injective last) (rw (kind, number) (refl, refl, refl))

pub append_nil : (xs : List ℕ) → xs ++ [] ≡ xs
append_nil [] = refl
append_nil (x ∷ xs) = ap (λ rest. x ∷ rest) (append_nil xs)

-- A row of a purchase at the end.
purchase_last :
    (rows : List ItemRow) (row : ItemRow) (n : ℕ)
    → (row.payment_type ≡ PaymentType.purchase) × (row.order_id ≡ n)
    → (orders_of PaymentType.purchase (rows ++ row ∷ [])
        ≡ orders_of PaymentType.purchase rows ++ n ∷ [])
      × (orders_of PaymentType.shipment (rows ++ row ∷ []) ≡ orders_of PaymentType.shipment rows)
purchase_last rows row n (kind, number) = (
  orders_of-append PaymentType.purchase rows (row ∷ [])
      ∙ ap (λ ns. orders_of PaymentType.purchase rows ++ ns) (rw (kind, number) refl),
  orders_of-append PaymentType.shipment rows (row ∷ [])
      ∙ ap (λ ns. orders_of PaymentType.shipment rows ++ ns) (rw kind refl)
      ∙ append_nil (orders_of PaymentType.shipment rows),
)

pub calculated_rows_lem :
    (format : Time → String) (history : List ℕ) (o : SellerOrderItem) (i : SellerItem)
    (r : List ItemRow × List ℕ)
    → calculated_rows format history o i ≡ ok r
    → Shown history (if o.is_already_shipping_payed then [] else o.oid ∷ []) o.oid r
unfolding calculated_rows
calculated_rows_lem format history o i r h =
    let (shipped, e, h1) =
      >>=-eq-ok
        (shipment_rows format (o.is_already_shipping_payed || has_key o.oid history) history o i) _
        h in
    let (row, er, last) = >>=-eq-ok (purchase_row format o i) _ h1 in
    let (none_bought, ships, next) = shipment_rows_lem format _ history o i shipped e in
    let (bought, sent) = purchase_last shipped.0 row o.oid (purchase_row_lem format o i row er) in
    subst
      (λ (x : List ItemRow × List ℕ).
        Shown history (if o.is_already_shipping_payed then [] else o.oid ∷ []) o.oid x)
      (ok-injective last)
      (record {
        purchased = bought ∙ ap (λ x. x ++ o.oid ∷ []) none_bought;
        shipped = λ more.
            first_seen_step o.is_already_shipping_payed o.oid history more
            ∙ sym (
                ap (λ ns. ns ++ first_seen shipped.1 more) (sent ∙ ships)
                ∙ ap
                    (λ seen.
                      (if o.is_already_shipping_payed || has_key o.oid history
                        then []
                        else o.oid ∷ [])
                      ++ first_seen seen more)
                    next);
      })
