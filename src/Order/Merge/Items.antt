-- ===== src/Order/Merge/Items.antt =====
-- What the loop over the items of a new order leaves, when orders of its oid are stored already.
use finance_service.Base.{
  ℕ, suc, ◌+◌, ◌≡◌, refl, ap, ◌∙◌, Bool, false, ◌||◌, ◌==◌, String, List, [], ◌∷◌, ◌++◌, replicate,
  length, if◌then◌else◌, arith, Bool-cases, inl, inr,
}
use finance_service.Entities.{SellerItem, SellerOrder, OrderInfo}
use finance_service.Order.Merge.{
  has_item, collect_in, is_known, collect_orders, OrderCell, merge_items, by_collected, merge_order,
  merge_orders,
}

-- every stored order, and those of one oid
abbrev pub all_orders : List OrderInfo → List SellerOrder
all_orders [] = []
all_orders (i ∷ is) = i.orders ++ all_orders is

abbrev pub with_oid : ℕ → List SellerOrder → List SellerOrder
with_oid oid [] = []
with_oid oid (o ∷ os) = let rest = with_oid oid os in if o.oid == oid then o ∷ rest else rest

-- the sids of all items of stored orders
abbrev pub item_sids : List SellerItem → List ℕ
item_sids [] = []
item_sids (i ∷ is) = i.sid ∷ item_sids is

abbrev pub stored_sids : List SellerOrder → List ℕ
stored_sids [] = []
stored_sids (o ∷ os) = item_sids o.items ++ stored_sids os

abbrev pub is_among : ℕ → List ℕ → Bool
is_among n [] = false
is_among n (m ∷ ms) = n == m || is_among n ms

with_oid-++ :
    (oid : ℕ) (xs ys : List SellerOrder)
    → collect_in oid xs ++ with_oid oid ys ≡ with_oid oid (xs ++ ys)
with_oid-++ oid [] ys = refl
with_oid-++ oid (x ∷ xs) ys = elim (Bool-cases (x.oid == oid)) [
  | inl same ↦ rw same (ap (λ (t : List SellerOrder). x ∷ t) (with_oid-++ oid xs ys))
  | inr other ↦ rw other (with_oid-++ oid xs ys)
]

collect_orders-with_oid :
    (oid : ℕ) (infos : List OrderInfo) → collect_orders oid infos ≡ with_oid oid (all_orders infos)
collect_orders-with_oid oid [] = refl
collect_orders-with_oid oid (i ∷ is) =
    ap (λ t. collect_in oid i.orders ++ t) (collect_orders-with_oid oid is)
    ∙ with_oid-++ oid i.orders (all_orders is)

is_among-++ :
    (sid : ℕ) (is : List SellerItem) (ns : List ℕ)
    → (has_item sid is || is_among sid ns) ≡ is_among sid (item_sids is ++ ns)
is_among-++ sid [] ns = refl
is_among-++ sid (i ∷ is) ns = elim (Bool-cases (sid == i.sid)) [
  | inl same ↦ rw same refl
  | inr other ↦ rw other (is_among-++ sid is ns)
]

is_known-is_among :
    (sid : ℕ) (os : List SellerOrder) → is_known sid os ≡ is_among sid (stored_sids os)
is_known-is_among sid [] = refl
is_known-is_among sid (o ∷ os) =
    ap (λ b. has_item sid o.items || b) (is_known-is_among sid os)
    ∙ is_among-++ sid o.items (stored_sids os)

-- the items of a new order that no stored order of its oid holds
abbrev pub fresh : List SellerOrder → List SellerItem → List SellerItem
fresh stored [] = []
fresh stored (i ∷ is) =
    let rest = fresh stored is in if is_among i.sid (stored_sids stored) then rest else i ∷ rest

abbrev pub last_item : SellerItem → List SellerItem → SellerItem
last_item i [] = i
last_item i (j ∷ js) = last_item j js

-- the object after every item of a list was written to it
abbrev write_all : String → SellerOrder → List SellerItem → SellerOrder
write_all fid o [] = o
write_all fid o (i ∷ is) = write_all fid (record o { items = i ∷ []; fid = fid }) is

write_all-last :
    (fid : String) (o : SellerOrder) (i : SellerItem) (is : List SellerItem)
    → write_all fid o (i ∷ is) ≡ record o { items = last_item i is ∷ []; fid = fid }
write_all-last fid o i [] = refl
write_all-last fid o i (j ∷ js) = write_all-last fid (record o { items = i ∷ []; fid = fid }) j js

merge_items_eq :
    (fid : String) (stored : List SellerOrder) (c : OrderCell) (is : List SellerItem)
    → merge_items fid stored c is ≡ record {
      order = write_all fid c.order (fresh stored is);
      appended = c.appended + length (fresh stored is);
    }
unfolding merge_items
merge_items_eq fid stored c [] = ground arith
merge_items_eq fid stored c (i ∷ is) = elim (Bool-cases (is_among i.sid (stored_sids stored))) [
  | inl known ↦ rw (known, is_known-is_among i.sid stored ∙ known) (merge_items_eq fid stored c is)
  | inr new ↦
      rw (new, is_known-is_among i.sid stored ∙ new)
        (merge_items_eq fid stored _ is
          ∙ ap
              (λ n. record {
                order =
                    write_all fid (record c.order { items = i ∷ []; fid = fid }) (fresh stored is);
                appended = n;
              })
              (omega arith))
]

-- An order of an oid that the finance does not hold yet is added once, with all its items.
pub merge_order-new :
    (fid : String) (infos : List OrderInfo) (o : SellerOrder)
    → collect_orders o.oid infos ≡ []
    → merge_order fid infos o ≡ record o { fid = fid } ∷ []
unfolding merge_order
merge_order-new fid infos o h = rw h refl

-- the items of an order were merged into an object that was appended nowhere yet
merged :
    (fid : String) (infos : List OrderInfo) (o k : SellerOrder) (ks : List SellerOrder)
    (is : List SellerItem)
    → collect_orders o.oid infos ≡ k ∷ ks
    → fresh (k ∷ ks) o.items ≡ is
    → merge_order fid infos o ≡ replicate (length is) (write_all fid o is)
unfolding merge_order
merged fid infos o k ks is h n =
    ap (by_collected fid o) h
    ∙ ap (λ (c : OrderCell). replicate c.appended c.order)
        (merge_items_eq fid (k ∷ ks) (record { order = o; appended = 0 }) o.items)
    ∙ ap (λ m. replicate m (write_all fid o (fresh (k ∷ ks) o.items))) (omega arith)
    ∙ ap (λ xs. replicate (length xs) (write_all fid o xs)) n

-- An order of an oid that the finance holds already: with one item or more that no stored order of
-- the oid holds, the order is added as often as there are such items, and each time it holds only the
-- last of them.
pub merge_order-known :
    (fid : String) (infos : List OrderInfo) (o k : SellerOrder) (ks : List SellerOrder)
    (i : SellerItem) (is : List SellerItem)
    → collect_orders o.oid infos ≡ k ∷ ks
    → fresh (k ∷ ks) o.items ≡ i ∷ is
    → merge_order fid infos o
      ≡ replicate (suc (length is)) (record o { items = last_item i is ∷ []; fid = fid })
merge_order-known fid infos o k ks i is h n =
    merged fid infos o k ks (i ∷ is) h n
    ∙ ap (replicate (suc (length is))) (write_all-last fid o i is)

-- An order of an oid that the finance holds already adds nothing if stored orders of the oid hold all
-- its items.
pub merge_order-duplicate :
    (fid : String) (infos : List OrderInfo) (o k : SellerOrder) (ks : List SellerOrder)
    → collect_orders o.oid infos ≡ k ∷ ks
    → fresh (k ∷ ks) o.items ≡ []
    → merge_order fid infos o ≡ []
merge_order-duplicate fid infos o k ks h n = merged fid infos o k ks [] h n

-- an order with the last of these items, once for each of them
abbrev pub repeated : String → SellerOrder → List SellerItem → List SellerOrder
repeated fid o [] = []
repeated fid o (i ∷ is) =
    replicate (suc (length is)) (record o { items = last_item i is ∷ []; fid = fid })

-- what a new order adds, beside the stored orders of its oid
abbrev pub added_order : String → SellerOrder → List SellerOrder → List SellerOrder
added_order fid o [] = record o { fid = fid } ∷ []
added_order fid o (k ∷ ks) = repeated fid o (fresh (k ∷ ks) o.items)

abbrev pub added_orders : String → List OrderInfo → List SellerOrder → List SellerOrder
added_orders fid infos [] = []
added_orders fid infos (o ∷ os) =
    added_order fid o (with_oid o.oid (all_orders infos)) ++ added_orders fid infos os

merged_fresh :
    (fid : String) (infos : List OrderInfo) (o k : SellerOrder) (ks : List SellerOrder)
    (is : List SellerItem)
    → collect_orders o.oid infos ≡ k ∷ ks
    → fresh (k ∷ ks) o.items ≡ is
    → merge_order fid infos o ≡ repeated fid o is
merged_fresh fid infos o k ks [] h n = merge_order-duplicate fid infos o k ks h n
merged_fresh fid infos o k ks (i ∷ is) h n = merge_order-known fid infos o k ks i is h n

merge_order-added :
    (fid : String) (infos : List OrderInfo) (o : SellerOrder) (stored : List SellerOrder)
    → collect_orders o.oid infos ≡ stored
    → merge_order fid infos o ≡ added_order fid o stored
merge_order-added fid infos o [] h = merge_order-new fid infos o h
merge_order-added fid infos o (k ∷ ks) h =
    merged_fresh fid infos o k ks (fresh (k ∷ ks) o.items) h refl

-- Every order of a run adds, in turn, what it adds alone.
pub merge_orders-added :
    (fid : String) (infos : List OrderInfo) (os : List SellerOrder)
    → merge_orders fid infos os ≡ added_orders fid infos os
unfolding merge_orders
merge_orders-added fid infos [] = refl
merge_orders-added fid infos (o ∷ os) = λ k.
    merge_order-added fid infos o (with_oid o.oid (all_orders infos))
      (collect_orders-with_oid o.oid infos) k
    ++ merge_orders-added fid infos os k
