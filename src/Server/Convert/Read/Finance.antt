-- ===== src/Server/Convert/Read/Finance.antt =====
-- Reading the message of a whole finance.
use finance_service.Base.{
  ◌≡◌, refl, sym, ap, ◌∙◌, subst, Option, none, some, List, [], ◌∷◌, map, String,
}
use finance_service.Base.Outcome.{Outcome, ok, optional, traverse, >>=-eq-ok, ok-injective}
use finance_service.Entities.{
  Time, Invoice, SellerItem, SellerOrder, OrderInfo, SellerProfile, SellerFinance,
}
use finance_service.Server.Messages.{ProfileMessage, OrderMessage, FinanceMessage, ItemMessage}
use finance_service.Server.Convert.Items.{convert_pointed_money, convert_item}
use finance_service.Server.Convert.{
  convert_profile, convert_optional_invoice, convert_payment, convert_pointed_time, convert_order,
  convert_orders, convert_finance, convert_finance_to_rpc,
}
use finance_service.Server.Convert.Read.{decode_optional, decode_item}
use finance_service.Server.Convert.Read.Items.{
  optional_money, pointed_money, item_back, traverse_back, pointed,
}
use finance_service.Server.Convert.Read.Payments.{
  decode_payment, payment_view, pointed_time, payment_back, finance_state_back,
}
use finance_service.Server.Convert.Read.Views.{
  decode_invoice, decode_profile, profile_view, decode_order, order_view, decode_finance,
  first_orders, finance_view,
}

invoice_back :
    (o : Option Invoice) → decode_optional decode_invoice (convert_optional_invoice o) ≡ o
invoice_back none = refl
invoice_back (some i) =
    rw
      (
        optional_money i.sso_raw_total,
        optional_money i.sso_roundup_total,
        optional_money i.vat_raw_total,
        optional_money i.vat_roundup_total,
        optional_money i.commission_raw_total,
        optional_money i.commission_roundup_total,
        optional_money i.share_raw_total,
        optional_money i.share_roundup_total,
        optional_money i.shipment_raw_total,
        optional_money i.shipment_roundup_total,
      )
      refl

pair_eq {ℓ κ} :
    {A : Type ℓ} {B : Type κ} {a b : A} {c d : B} → a ≡ b → c ≡ d → ◌≡◌ {A = A × B} (a, c) (b, d)
pair_eq e f = cc

profile_back :
    (s : SellerProfile) (m : ProfileMessage)
    → convert_profile s ≡ ok m
    → decode_profile m ≡ profile_view s
unfolding convert_profile
profile_back s m h =
    let (general, eg, h1) = pointed s.general_info _ h in
    let (finance, ef, last) = pointed s.finance_data _ h1 in
    subst (λ x. decode_profile x ≡ profile_view s) (ok-injective last) (pair_eq (sym eg) (sym ef))

-- A thing behind a pointer that may be nil is read back where the thing is.
optional_back {ℓ κ μ} :
    {A : Type ℓ} {B : Type κ} {C : Type μ} (f : A → Outcome B) (read : B → C) (view : A → C)
    → ((x : A) (y : B) → f x ≡ ok y → read y ≡ view x)
    → (o : Option A) (m : Option B) → optional f o ≡ ok m
    → decode_optional read m ≡ decode_optional view o
optional_back f read view back none m h = ap (decode_optional read) (sym (ok-injective h))
optional_back f read view back (some x) m h =
    let (y, e, last) = >>=-eq-ok (f x) _ h in
    subst (λ z. decode_optional read z ≡ some (view x)) (ok-injective last) (ap some (back x y e))

map_id {ℓ} : {A : Type ℓ} (xs : List A) → map (λ x. x) xs ≡ xs
map_id [] = refl
map_id (x ∷ xs) = ap (λ rest. x ∷ rest) (map_id xs)

items_back :
    (items : List SellerItem) (m : List ItemMessage)
    → traverse convert_item items ≡ ok m
    → map decode_item m ≡ items
items_back items m h =
    traverse_back convert_item decode_item (λ i. i) item_back items m h ∙ map_id items

module _ (format : Time → String) where
  order_back :
      (o : SellerOrder) (m : OrderMessage)
      → convert_order format o ≡ ok m
      → decode_order m ≡ order_view format o
  unfolding convert_order
  order_back o m h =
      let (m1, e1, h1) = >>=-eq-ok (convert_pointed_money o.shipment_amount) _ h in
      let (m2, e2, h2) = >>=-eq-ok (convert_pointed_money o.raw_shipping_net) _ h1 in
      let (m3, e3, h3) = >>=-eq-ok (convert_pointed_money o.roundup_shipping_net) _ h2 in
      let (t1, f1, h4) = >>=-eq-ok (convert_pointed_time format o.order_created_at) _ h3 in
      let (t2, f2, h5) = >>=-eq-ok (convert_pointed_time format o.sub_pkg_created_at) _ h4 in
      let (t3, f3, h6) = >>=-eq-ok (convert_pointed_time format o.sub_pkg_updated_at) _ h5 in
      let (items, es, last) = >>=-eq-ok (traverse convert_item o.items) _ h6 in
      subst (λ x. decode_order x ≡ order_view format o) (ok-injective last)
        (rw
          (
            pointed_money o.shipment_amount m1 e1,
            pointed_money o.raw_shipping_net m2 e2,
            pointed_money o.roundup_shipping_net m3 e3,
            items_back o.items items es,
            pointed_time format o.order_created_at t1 f1,
            pointed_time format o.sub_pkg_created_at t2 f2,
            pointed_time format o.sub_pkg_updated_at t3 f3,
          )
          refl)

  orders_back :
      (infos : List OrderInfo) (m : List OrderMessage)
      → convert_orders format infos ≡ ok m
      → map decode_order m ≡ map (order_view format) (first_orders infos)
  unfolding convert_orders
  orders_back [] m h = ap (map decode_order) (sym (ok-injective h))
  orders_back (info ∷ infos) m h =
      traverse_back (convert_order format) decode_order (order_view format) order_back info.orders m
        h

  finance_back :
      (f : SellerFinance) (m : FinanceMessage)
      → convert_finance format f ≡ ok m
      → decode_finance m ≡ finance_view format f
  unfolding convert_finance decode_finance finance_view
  finance_back f m h =
      let (start, e1, h1) = >>=-eq-ok (convert_pointed_time format f.start_at) _ h in
      let (end, e2, h2) = >>=-eq-ok (convert_pointed_time format f.end_at) _ h1 in
      let (profile, ep, h3) = >>=-eq-ok (optional convert_profile f.seller_info) _ h2 in
      let (payment, e4, h4) = >>=-eq-ok (optional (convert_payment format) f.payment) _ h3 in
      let (orders, eo, last) = >>=-eq-ok (convert_orders format f.orders_info) _ h4 in
      subst (λ x. decode_finance x ≡ finance_view format f) (ok-injective last)
        (rw
          (
            optional_back convert_profile _ _ profile_back f.seller_info profile ep,
            invoice_back f.invoice,
            orders_back f.orders_info orders eo,
            optional_back (convert_payment format) decode_payment (payment_view format)
                (payment_back format) f.payment payment e4,
            finance_state_back f.status,
            pointed_time format f.start_at start e1,
            pointed_time format f.end_at end e2,
          )
          refl)

-- Where the conversion of a list of finances succeeds, its messages read, one by one and in order, as
-- the finances do: the same id, seller, invoice, seller's information and state, the payment with its
-- request, response, result (but for the result's total) and state, the times as formatted texts, and
-- the orders of the first order info, each with its number, amounts, items and times; the later order
-- infos are not there.
pub convert_finance_to_rpc-read :
    (format : Time → String) (fs : List SellerFinance) (m : List FinanceMessage)
    → convert_finance_to_rpc format fs ≡ ok m
    → map decode_finance m ≡ map (finance_view format) fs
unfolding convert_finance_to_rpc
convert_finance_to_rpc-read format fs m h =
    traverse_back (convert_finance format) decode_finance (finance_view format)
      (finance_back format) fs m h
