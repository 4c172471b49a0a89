-- ===== src/Converter/Rows/Owed.antt =====
-- The rows of the whole collection.
use finance_service.Base.{
  ℕ, ◌≡◌, refl, sym, ap, ◌∙◌, subst, Bool, true, false, not, ◌&&◌, ◌||◌, ◌==◌, inl, inr, Bool-cases,
  some, List, [], ◌∷◌, ◌++◌, String, arith,
}
use finance_service.Base.Outcome.{ok, >>=-eq-ok, ok-injective}
use finance_service.Entities.{Time, SellerItem, FinanceState}
use finance_service.Server.Convert.Read.Items.{pointed}
use finance_service.Converter.Rows.{
  SellerOrderItem, FinanceOrderItem, PaymentType, ItemRow, uncalculated_row,
}
use finance_service.Converter.Rows.Collection.{
  order_and_item, has_key, item_rows, all_rows, ItemCollection, convert_order_items, head_status,
}
use finance_service.Converter.Rows.Shipments.{
  orders_of, orders_of-append, order_in, number_of, numbers, owed_in, owed, first_seen,
  first_seen_nil, first_seen_old, first_seen_new, Shown, calculated_rows_lem, uncalculated_row_lem,
}

uncalculated-Shown :
    (format : Time → String) (history : List ℕ) (o : SellerOrderItem) (i : SellerItem)
    (r : List ItemRow × List ℕ)
    → item_rows format FinanceState.order_collection history o i ≡ ok r
    → Shown history [] o.oid r
unfolding item_rows
uncalculated-Shown format history o i r h =
    let (row, e, last) = >>=-eq-ok (uncalculated_row format o i) _ h in
    let (kind, number) = uncalculated_row_lem format o i row e in
    subst (λ (x : List ItemRow × List ℕ). Shown history [] o.oid x) (ok-injective last)
      (record { purchased = rw (kind, number) refl; shipped = λ more. rw kind refl })

item_rows-Shown :
    (format : Time → String) (status : FinanceState) (history : List ℕ) (o : SellerOrderItem)
    (i : SellerItem) (r : List ItemRow × List ℕ)
    → item_rows format status history o i ≡ ok r
    → Shown history (owed_in status (some o)) o.oid r
unfolding item_rows
item_rows-Shown format FinanceState.order_collection history o i r h =
    uncalculated-Shown format history o i r h
item_rows-Shown format FinanceState.payment_process history o i r h =
    calculated_rows_lem format history o i r h
item_rows-Shown format FinanceState.closed history o i r h =
    calculated_rows_lem format history o i r h

order_and_item_lem :
    (f : FinanceOrderItem) (found : SellerOrderItem × SellerItem)
    → order_and_item f ≡ ok found
    → order_in f.order_info ≡ some found.0
unfolding order_and_item
order_and_item_lem f found h =
    let (info, there, h1) = pointed f.order_info _ h in
    let (order, ordered, h2) = pointed info.order _ h1 in
    let (item, _, last) = pointed order.item _ h2 in
    rw there (ordered ∙ ap (λ (x : SellerOrderItem × SellerItem). some x.0) (ok-injective last))

-- The rows of one item in front of the rows of the others.
rows_step :
    (f : FinanceOrderItem) (fs : List FinanceOrderItem) (o : SellerOrderItem) (history : List ℕ)
    (own : List ItemRow × List ℕ) (rest : List ItemRow)
    → order_in f.order_info ≡ some o
    → Shown history (owed_in f.status (some o)) o.oid own
    → orders_of PaymentType.purchase rest ≡ numbers fs
    → orders_of PaymentType.shipment rest ≡ first_seen own.1 (owed fs)
    → (orders_of PaymentType.purchase (own.0 ++ rest) ≡ numbers (f ∷ fs))
      × (orders_of PaymentType.shipment (own.0 ++ rest) ≡ first_seen history (owed (f ∷ fs)))
rows_step f fs o history own rest there shown bought sent = (
  orders_of-append PaymentType.purchase own.0 rest
      ∙ ap (λ ns. ns ++ orders_of PaymentType.purchase rest) shown.purchased
      ∙ ap (λ ns. o.oid ∷ ns) bought
      ∙ ap (λ x. number_of x ++ numbers fs) (sym there),
  orders_of-append PaymentType.shipment own.0 rest
      ∙ ap (λ ns. orders_of PaymentType.shipment own.0 ++ ns) sent
      ∙ sym (shown.shipped (owed fs))
      ∙ ap (λ x. first_seen history (owed_in f.status x ++ owed fs)) (sym there),
)

-- what all the rows show
all_rows_lem :
    (format : Time → String) (history : List ℕ) (fs : List FinanceOrderItem) (rows : List ItemRow)
    → all_rows format history fs ≡ ok rows
    → (orders_of PaymentType.purchase rows ≡ numbers fs)
      × (orders_of PaymentType.shipment rows ≡ first_seen history (owed fs))
unfolding all_rows first_seen
all_rows_lem format history [] rows h =
    subst
      (λ (x : List ItemRow).
        (orders_of PaymentType.purchase x ≡ []) × (orders_of PaymentType.shipment x ≡ []))
      (ok-injective h) (refl, refl)
all_rows_lem format history (f ∷ fs) rows h =
    let (found, ef, h1) = >>=-eq-ok (order_and_item f) _ h in
    let (own, eo, h2) = >>=-eq-ok (item_rows format f.status history found.0 found.1) _ h1 in
    let (rest, er, last) = >>=-eq-ok (all_rows format own.1 fs) _ h2 in
    let (bought, sent) = all_rows_lem format own.1 fs rest er in
    let shown = item_rows-Shown format f.status history found.0 found.1 own eo in
    let there = order_and_item_lem f found ef in
    subst
      (λ (x : List ItemRow).
        (orders_of PaymentType.purchase x ≡ numbers (f ∷ fs))
        × (orders_of PaymentType.shipment x ≡ first_seen history (owed (f ∷ fs))))
      (ok-injective last) (rows_step f fs found.0 history own rest there shown bought sent)

-- no number twice
unfoldable pub unique : List ℕ → Bool
unfolding has_key
unique [] = true
unique (n ∷ ns) = not (has_key n ns) && unique ns

same_number : (n k : ℕ) → (n == k) ≡ true → n ≡ k
same_number n k h = ground arith

seen_key : (e a b : Bool) → (e ≡ true → b ≡ true) → (a && not b) ≡ ((e || a) && not b)
seen_key true true b h = rw (h refl) refl
seen_key true false b h = rw (h refl) refl
seen_key false a b h = refl

new_key : (e a b : Bool) → (e ≡ true → b ≡ false) → (e || (a && not (e || b))) ≡ ((e || a) && not b)
new_key true a b h = rw (h refl) refl
new_key false a b h = refl

-- A number is among those first seen if it is there and was not seen before.
has_key-first_seen :
    (k : ℕ) (history ns : List ℕ)
    → has_key k (first_seen history ns) ≡ (has_key k ns && not (has_key k history))
unfolding has_key
has_key-first_seen k history [] = ap (has_key k) (first_seen_nil history)
has_key-first_seen k history (n ∷ ns) = elim (Bool-cases (has_key n history)) [
  | inl seen ↦
      ap (has_key k) (first_seen_old n history ns seen)
      ∙ has_key-first_seen k history ns
      ∙ seen_key (n == k) (has_key k ns) (has_key k history)
          (λ same. subst (λ x. has_key x history ≡ true) (same_number n k same) seen)
  | inr new ↦
      ap (has_key k) (first_seen_new n history ns new)
      ∙ ap (λ b. (n == k) || b) (has_key-first_seen k (n ∷ history) ns)
      ∙ new_key (n == k) (has_key k ns) (has_key k history)
          (λ same. subst (λ x. has_key x history ≡ false) (same_number n k same) new)
]

seen_false : (e a b : Bool) → e ≡ true → (a && not (e || b)) ≡ false
seen_false e true b h = rw h refl
seen_false e false b h = refl

unseen : (n : ℕ) (history ns : List ℕ) → has_key n (first_seen (n ∷ history) ns) ≡ false
unfolding has_key
unseen n history ns =
    has_key-first_seen n (n ∷ history) ns
    ∙ seen_false (n == n) (has_key n ns) (has_key n history) (ground arith)

unique-first_seen : (history ns : List ℕ) → unique (first_seen history ns) ≡ true
unfolding unique
unique-first_seen history [] = ap unique (first_seen_nil history)
unique-first_seen history (n ∷ ns) = elim (Bool-cases (has_key n history)) [
  | inl seen ↦ ap unique (first_seen_old n history ns seen) ∙ unique-first_seen history ns
  | inr new ↦
      ap unique (first_seen_new n history ns new)
      ∙ rw (unseen n history ns) (unique-first_seen (n ∷ history) ns)
]

and_true : (k : ℕ) (a : Bool) → (a && not (has_key k [])) ≡ a
unfolding has_key
and_true k true = refl
and_true k false = refl

-- Where the conversion succeeds, it makes one row of a purchase for each item, in order, and the rows of
-- shipments are of different orders: of just those that have an item whose finance is calculated and
-- whose shipment is not paid yet.
pub convert_order_items_rows :
    (format : Time → String) (fs : List FinanceOrderItem) (c : ItemCollection)
    → convert_order_items format fs ≡ ok c
    → (orders_of PaymentType.purchase c.items ≡ numbers fs)
      × (unique (orders_of PaymentType.shipment c.items) ≡ true)
      × ((k : ℕ) → has_key k (orders_of PaymentType.shipment c.items) ≡ has_key k (owed fs))
unfolding convert_order_items
convert_order_items_rows format fs c h =
    let (status, _, h1) = >>=-eq-ok (head_status fs) _ h in
    let (rows, er, last) = >>=-eq-ok (all_rows format [] fs) _ h1 in
    let (bought, sent) = all_rows_lem format [] fs rows er in
    subst
      (λ (x : ItemCollection).
        (orders_of PaymentType.purchase x.items ≡ numbers fs)
        × (unique (orders_of PaymentType.shipment x.items) ≡ true)
        × ((k : ℕ) → has_key k (orders_of PaymentType.shipment x.items) ≡ has_key k (owed fs)))
      (ok-injective last)
      (
        bought,
        ap unique sent ∙ unique-first_seen [] (owed fs),
        λ k.
            ap (has_key k) sent
            ∙ has_key-first_seen k [] (owed fs)
            ∙ and_true k (has_key k (owed fs)),
      )
