-- ===== src/Server/Convert/Read/Items.antt =====
-- The message of an item reads as the item.
use finance_service.Base.{◌≡◌, refl, sym, ap, subst, Option, none, some, List, [], ◌∷◌, map, String}
use finance_service.Base.Outcome.{
  Outcome, ok, ◌>>=◌, deref, optional, traverse, >>=-eq-ok, ok-injective,
}
use finance_service.Entities.{
  Money, ItemShare, ItemCommission, ItemSso, ItemVat, ItemInvoice, Attribute, SellerItem,
}
use finance_service.Server.Messages.{MoneyMessage, ShareMessage, ItemInvoiceMessage, ItemMessage}
use finance_service.Server.Convert.Items.{
  convert_optional_money, convert_pointed_money, convert_share, convert_optional_commission,
  convert_optional_sso, convert_optional_vat, convert_item_invoice, convert_attribute, convert_item,
}
use finance_service.Server.Convert.Read.{
  decode_money, decode_optional, decode_share, decode_commission, decode_sso, decode_vat,
  decode_item_invoice, decode_attribute, decode_item,
}

-- Money that may be absent comes back as it was.
pub optional_money :
    (o : Option Money) → decode_optional decode_money (convert_optional_money o) ≡ o
optional_money none = refl
optional_money (some m) = refl

commission_back :
    (o : Option ItemCommission)
    → decode_optional decode_commission (convert_optional_commission o) ≡ o
commission_back none = refl
commission_back (some c) =
    rw
      (
        optional_money c.raw_unit_price,
        optional_money c.roundup_unit_price,
        optional_money c.raw_total_price,
        optional_money c.roundup_total_price,
      )
      refl

sso_back : (o : Option ItemSso) → decode_optional decode_sso (convert_optional_sso o) ≡ o
sso_back none = refl
sso_back (some c) =
    rw
      (
        optional_money c.raw_unit_price,
        optional_money c.roundup_unit_price,
        optional_money c.raw_total_price,
        optional_money c.roundup_total_price,
      )
      refl

vat_back : (o : Option ItemVat) → decode_optional decode_vat (convert_optional_vat o) ≡ o
vat_back none = refl
vat_back (some c) =
    rw
      (
        optional_money c.raw_unit_price,
        optional_money c.roundup_unit_price,
        optional_money c.raw_total_price,
        optional_money c.roundup_total_price,
      )
      refl

-- Money behind a pointer that was not nil.
pub pointed_money :
    (o : Option Money) (m : MoneyMessage)
    → convert_pointed_money o ≡ ok m
    → some (decode_money m) ≡ o
pointed_money none m h = cc
pointed_money (some money) m h = ap (λ x. some (decode_money x)) (sym (ok-injective h))

share_back : (s : ItemShare) (m : ShareMessage) → convert_share s ≡ ok m → decode_share m ≡ s
unfolding convert_share
share_back s m h =
    let (m0, e0, h1) = >>=-eq-ok (convert_pointed_money s.raw_item_net) _ h in
    let (m1, e1, h2) = >>=-eq-ok (convert_pointed_money s.roundup_item_net) _ h1 in
    let (m2, e2, h3) = >>=-eq-ok (convert_pointed_money s.raw_total_net) _ h2 in
    let (m3, e3, h4) = >>=-eq-ok (convert_pointed_money s.roundup_total_net) _ h3 in
    let (m4, e4, h5) = >>=-eq-ok (convert_pointed_money s.raw_unit_seller_share) _ h4 in
    let (m5, e5, h6) = >>=-eq-ok (convert_pointed_money s.roundup_unit_seller_share) _ h5 in
    let (m6, e6, h7) = >>=-eq-ok (convert_pointed_money s.raw_total_seller_share) _ h6 in
    let (m7, e7, h8) = >>=-eq-ok (convert_pointed_money s.roundup_total_seller_share) _ h7 in
    subst (λ x. decode_share x ≡ s) (ok-injective h8)
      (rw
        (
          pointed_money s.raw_item_net m0 e0,
          pointed_money s.roundup_item_net m1 e1,
          pointed_money s.raw_total_net m2 e2,
          pointed_money s.roundup_total_net m3 e3,
          pointed_money s.raw_unit_seller_share m4 e4,
          pointed_money s.roundup_unit_seller_share m5 e5,
          pointed_money s.raw_total_seller_share m6 e6,
          pointed_money s.roundup_total_seller_share m7 e7,
        )
        refl)

optional_share_back :
    (o : Option ItemShare) (m : Option ShareMessage)
    → optional convert_share o ≡ ok m
    → decode_optional decode_share m ≡ o
optional_share_back none m h = ap (decode_optional decode_share) (sym (ok-injective h))
optional_share_back (some s) m h =
    let (share, e, last) = >>=-eq-ok (convert_share s) _ h in
    subst (λ x. decode_optional decode_share x ≡ some s) (ok-injective last)
      (ap some (share_back s share e))

item_invoice_back :
    (i : ItemInvoice) (m : ItemInvoiceMessage)
    → convert_item_invoice i ≡ ok m
    → decode_item_invoice m ≡ i
unfolding convert_item_invoice
item_invoice_back i m h =
    let (share, e, last) = >>=-eq-ok (optional convert_share i.share) _ h in
    subst (λ x. decode_item_invoice x ≡ i) (ok-injective last)
      (rw
        (
          commission_back i.commission,
          optional_share_back i.share share e,
          sso_back i.sso,
          vat_back i.vat,
        )
        refl)

attributes_back :
    (list : List (String × Attribute)) → map decode_attribute (map convert_attribute list) ≡ list
attributes_back [] = refl
attributes_back (a ∷ more) = ap (λ rest. a ∷ rest) (attributes_back more)

-- A pointer whose chain succeeds is not nil.
pub pointed {ℓ κ} :
    {A : Type ℓ} {B : Type κ} (o : Option A) (k : A → Outcome B) {b : B}
    → (deref o >>= k) ≡ ok b
    → (a : A) × (o ≡ some a) × (k a ≡ ok b)
pointed none k h = cc
pointed (some a) k h = (a, refl, h)

-- The message of an item reads as that item.
pub item_back : (i : SellerItem) (m : ItemMessage) → convert_item i ≡ ok m → decode_item m ≡ i
unfolding convert_item decode_item
item_back i m h =
    let (item_invoice, there, h1) = pointed i.invoice _ h in
    let (invoice, e, last) = >>=-eq-ok (convert_item_invoice item_invoice) _ h1 in
    subst (λ x. decode_item x ≡ i) (ok-injective last)
      (rw (attributes_back i.attributes, item_invoice_back item_invoice invoice e, sym there) refl)

-- Messages that are each read back make a list that is read back.
pub traverse_back {ℓ κ μ} :
    {A : Type ℓ} {B : Type κ} {C : Type μ} (f : A → Outcome B) (read : B → C) (view : A → C)
    → ((x : A) (y : B) → f x ≡ ok y → read y ≡ view x)
    → (xs : List A) (ys : List B) → traverse f xs ≡ ok ys
    → map read ys ≡ map view xs
unfolding traverse
traverse_back f read view back [] ys h = ap (map read) (sym (ok-injective h))
traverse_back f read view back (x ∷ xs) ys h =
    let (y, e, h1) = >>=-eq-ok (f x) _ h in
    let (rest, es, last) = >>=-eq-ok (traverse f xs) _ h1 in
    subst (λ zs. map read zs ≡ view x ∷ map view xs) (ok-injective last)
      (rw (back x y e, traverse_back f read view back xs rest es) refl)
