-- ===== src/Server/Convert/Complete.antt =====
-- Which finances convertFinanceToRPC can show: those without a nil pointer where it dereferences one.
use finance_service.Base.{◌≡◌, refl, Bool, true, false, ◌&&◌, Option, none, some, List, [], ◌∷◌}
use finance_service.Base.Outcome.{Outcome, ok, panic, ◌>>=◌, deref, optional, traverse}
use finance_service.Entities.{
  ItemShare, ItemInvoice, SellerItem, SellerOrder, OrderInfo, SellerProfile, TransferResult,
  FinancePayment, SellerFinance,
}

abbrev pub is_some {ℓ} : {A : Type ℓ} → Option A → Bool
is_some none = false
is_some (some a) = true

-- nil, or a thing that passes
abbrev pub if_set {ℓ} : {A : Type ℓ} → (A → Bool) → Option A → Bool
if_set p none = true
if_set p (some a) = p a

-- a thing that passes, and not nil
abbrev pub if_there {ℓ} : {A : Type ℓ} → (A → Bool) → Option A → Bool
if_there p none = false
if_there p (some a) = p a

abbrev pub every {ℓ} : {A : Type ℓ} → (A → Bool) → List A → Bool
every p [] = true
every p (x ∷ xs) = p x && every p xs

abbrev pub complete_share : ItemShare → Bool
complete_share s =
    is_some s.raw_item_net
    && (is_some s.roundup_item_net
        && (is_some s.raw_total_net
            && (is_some s.roundup_total_net
                && (is_some s.raw_unit_seller_share
                    && (is_some s.roundup_unit_seller_share
                        && (is_some s.raw_total_seller_share
                            && is_some s.roundup_total_seller_share))))))

abbrev pub complete_invoice : ItemInvoice → Bool
complete_invoice i = if_set complete_share i.share

abbrev pub complete_item : SellerItem → Bool
complete_item i = if_there complete_invoice i.invoice

abbrev pub complete_order : SellerOrder → Bool
complete_order o =
    is_some o.shipment_amount
    && (is_some o.raw_shipping_net
        && (is_some o.roundup_shipping_net
            && (is_some o.order_created_at
                && (is_some o.sub_pkg_created_at
                    && (is_some o.sub_pkg_updated_at && every complete_item o.items)))))

abbrev pub complete_orders : List OrderInfo → Bool
complete_orders [] = true
complete_orders (info ∷ infos) = every complete_order info.orders

abbrev pub complete_profile : SellerProfile → Bool
complete_profile s = is_some s.general_info && is_some s.finance_data

abbrev pub complete_result : TransferResult → Bool
complete_result r =
    is_some r.success_transfer && (is_some r.pending_transfer && is_some r.failed_transfer)

abbrev pub complete_payment : FinancePayment → Bool
complete_payment p = if_set complete_result p.transfer_result

unfoldable pub complete_finance : SellerFinance → Bool
complete_finance f =
    is_some f.start_at
    && (is_some f.end_at
        && (if_set complete_profile f.seller_info
            && (if_set complete_payment f.payment && complete_orders f.orders_info)))

-- Success where the test passes, and a panic where it does not.
abbrev pub SucceedsIf {ℓ} : {A : Type ℓ} → Bool → Outcome A → Type ℓ
SucceedsIf {A = A} true m = (a : A) × (m ≡ ok a)
SucceedsIf false m = m ≡ panic

pub >>=-SucceedsIf {ℓ κ} :
    {A : Type ℓ} {B : Type κ} (p q : Bool) (m : Outcome A) (k : A → Outcome B)
    → SucceedsIf p m
    → ((a : A) → SucceedsIf q (k a))
    → SucceedsIf (p && q) (m >>= k)
>>=-SucceedsIf true q m k (a, done) next = rw done (next a)
>>=-SucceedsIf false q m k done next = rw done refl

-- A last step that cannot fail.
pub last-SucceedsIf {ℓ κ} :
    {A : Type ℓ} {B : Type κ} (p : Bool) (m : Outcome A) (f : A → B)
    → SucceedsIf p m
    → SucceedsIf p (m >>= λ a. ok (f a))
last-SucceedsIf true m f (a, done) = rw done (f a, refl)
last-SucceedsIf false m f done = rw done refl

pub deref-SucceedsIf {ℓ} : {A : Type ℓ} (o : Option A) → SucceedsIf (is_some o) (deref o)
deref-SucceedsIf none = refl
deref-SucceedsIf (some a) = (a, refl)

pub pointed-SucceedsIf {ℓ κ} :
    {A : Type ℓ} {B : Type κ} (p : A → Bool) (o : Option A) (k : A → Outcome B)
    → ((a : A) → SucceedsIf (p a) (k a))
    → SucceedsIf (if_there p o) (deref o >>= k)
pointed-SucceedsIf p none k h = refl
pointed-SucceedsIf p (some a) k h = h a

pub optional-SucceedsIf {ℓ κ} :
    {A : Type ℓ} {B : Type κ} (p : A → Bool) (f : A → Outcome B) (o : Option A)
    → ((a : A) → SucceedsIf (p a) (f a))
    → SucceedsIf (if_set p o) (optional f o)
optional-SucceedsIf p f none h = (none, refl)
optional-SucceedsIf p f (some a) h = last-SucceedsIf (p a) (f a) some (h a)

pub traverse-SucceedsIf {ℓ κ} :
    {A : Type ℓ} {B : Type κ} (p : A → Bool) (f : A → Outcome B) (xs : List A)
    → ((a : A) → SucceedsIf (p a) (f a))
    → SucceedsIf (every p xs) (traverse f xs)
unfolding traverse
traverse-SucceedsIf p f [] h = ([], refl)
traverse-SucceedsIf p f (x ∷ xs) h = >>=-SucceedsIf (p x) (every p xs) (f x) _ (h x) (λ y.
    last-SucceedsIf (every p xs) (traverse f xs) (λ ys. y ∷ ys) (traverse-SucceedsIf p f xs h))
