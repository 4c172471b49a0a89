-- ===== src/Server/Handlers/Owned.antt =====
-- A seller sees only its own finances: authentication, dispatch, handler, query and conversion together.
use text.Mathlib.Text.{◌==◌ as str_eq}
use finance_service.Base.{
  ℕ, ◌≡◌, refl, ap, ◌∙◌, subst, Bool, true, false, not, ◌||◌, ◌==◌, Option, some, List, [], ◌∷◌,
  All, String, if◌then◌else◌, ltb, ◌-◌, ◌*◌,
}
use finance_service.Base.Int.{ℤ, pos, pos_part, ltb_ℤ, int64}
use finance_service.Base.Outcome.{
  Outcome, ok, Reply, value, failure, ErrorCode, bad_request, not_found, >>=-eq-ok, ok-injective,
  traverse,
}
use finance_service.Entities.{Time, SellerFinance}
use finance_service.Repository.Paging.{
  Query, Pageable, available_pages, counted, listed, find_by_filter_with_page,
}
use finance_service.Converter.{resolve_finance_stat}
use finance_service.Converter.Listed.{FinanceRow, finance_row, convert_finance_list}
use finance_service.Converter.Rows.{FinanceOrderItem}
use finance_service.Converter.Rows.Collection.{convert_order_items}
use finance_service.Server.Convert.Read.Items.{pointed}
use finance_service.Server.Mux.{Header, Request, Response}
use finance_service.Server.Handlers.{
  Sources, Listing, finances, items, find_by_filter_with_page_and_sort, respond, respond_finances,
  finance_list_handler, respond_items, order_item_list_handler,
}

-- a listing of finances of one seller; a listing of items says nothing of finances
abbrev pub OwnedBy : ℕ → Listing → Type 0
OwnedBy uid (finances rows) = All (λ (r : FinanceRow). r.uid ≡ uid) rows
OwnedBy uid (items c) = Unit

-- Every document that a query finds for a seller is that seller's.
abbrev pub IsFiltered : Sources → Type 0
IsFiltered s =
    (uid : ℕ) (sort : Option (String × ℤ)) (skip : ℤ) (limit : ℕ) (fs : List SellerFinance)
    → (s.finances_of uid sort).find skip limit ≡ value fs
    → All (λ (f : SellerFinance). f.seller_id ≡ uid) fs

-- A reply behind a check that passed.
guarded {ℓ} :
    {B : Type ℓ} (wrong : Bool) (code : ErrorCode) (answer : Reply B) (r : B)
    → (if wrong then failure code else answer) ≡ value r
    → answer ≡ value r
guarded true code answer r h = cc
guarded false code answer r h = h

-- What a page holds, the database found.
module _ {A : Type 0} (q : Query A) where
  listed-find :
      (total : ℕ) (answer : Reply (List A)) (r : Pageable A)
      → listed total answer ≡ value r
      → answer ≡ value r.items
  listed-find total (failure e) r h = cc
  listed-find total (value xs) r h =
      ap (λ (x : Reply (Pageable A)). elim x [ value y ↦ value y.items | failure e ↦ failure e ]) h

  counted-find :
      (page per_page : ℕ) (count : Reply ℕ) (r : Pageable A)
      → counted q page per_page count ≡ value r
      → (skip : ℤ) × (q.find skip per_page ≡ value r.items)
  counted-find page per_page (failure e) r h = cc
  counted-find page per_page (value total) r h =
      let offset = int64 (pos ((page - 1) * per_page)) in
      let h1 = guarded (total == 0) not_found _ r h in
      let h2 = guarded (ltb (available_pages total per_page) page) bad_request _ r h1 in
      let h3 = guarded (not (ltb_ℤ offset (pos total))) bad_request _ r h2 in
      (offset, listed-find total (q.find offset per_page) r h3)

  find_by_filter_with_page-find :
      (page per_page : ℤ) (r : Pageable A)
      → find_by_filter_with_page q page per_page ≡ value r
      → (skip : ℤ) × (q.find skip (pos_part per_page) ≡ value r.items)
  unfolding find_by_filter_with_page
  find_by_filter_with_page-find page per_page r h =
      counted-find (pos_part page) (pos_part per_page) q.count r
        (guarded (ltb_ℤ page (pos 1) || ltb_ℤ per_page (pos 1)) bad_request _ r h)

finance_row-uid :
    (format : Time → String) (f : SellerFinance) (r : FinanceRow)
    → finance_row format f ≡ ok r
    → r.uid ≡ f.seller_id
unfolding finance_row
finance_row-uid format f r h =
    let (stat, _, last) = >>=-eq-ok (resolve_finance_stat f) _ h in
    subst (λ (x : FinanceRow). x.uid ≡ f.seller_id) (ok-injective last) refl

list-uid :
    (format : Time → String) (uid : ℕ) (fs : List SellerFinance) (rows : List FinanceRow)
    → All (λ (f : SellerFinance). f.seller_id ≡ uid) fs
    → traverse (finance_row format) fs ≡ ok rows
    → All (λ (r : FinanceRow). r.uid ≡ uid) rows
unfolding traverse
list-uid format uid [] rows own h =
    subst (λ (x : List FinanceRow). All (λ (r : FinanceRow). r.uid ≡ uid) x) (ok-injective h) tt
list-uid format uid (f ∷ fs) rows (own, others) h =
    let (row, e, h1) = >>=-eq-ok (finance_row format f) _ h in
    let (rest, es, last) = >>=-eq-ok (traverse (finance_row format) fs) _ h1 in
    subst (λ (x : List FinanceRow). All (λ (r : FinanceRow). r.uid ≡ uid) x) (ok-injective last)
      (finance_row-uid format f row e ∙ own, list-uid format uid fs rest others es)

convert_finance_list-OwnedBy :
    (format : Time → String) (uid : ℕ) (fs : List SellerFinance) (rows : List FinanceRow)
    → All (λ (f : SellerFinance). f.seller_id ≡ uid) fs
    → convert_finance_list format fs ≡ ok rows
    → OwnedBy uid (finances rows)
unfolding convert_finance_list
convert_finance_list-OwnedBy format uid fs rows own h = list-uid format uid fs rows own h

value-injective {ℓ} : {A : Type ℓ} {a b : A} → value a ≡ value b → a ≡ b
value-injective h = cc

-- what a handler may answer: a listing for the seller that the header names
abbrev pub OwnedAnswer : Request → Response Listing → Type 0
OwnedAnswer req resp =
    (header : Header) × (req.header ≡ some header) × OwnedBy header.uid resp.data_value

respond-OwnedBy :
    (marshaled : Bool) (entity : String) (total : ℕ) (header : Header) (listing : Listing) (uid : ℕ)
    (resp : Response Listing)
    → OwnedBy uid listing
    → respond marshaled entity total header listing ≡ value resp
    → OwnedBy uid resp.data_value
respond-OwnedBy false entity total header listing uid resp own h = cc
respond-OwnedBy true entity total header listing uid resp own h =
    subst (λ (x : Response Listing). OwnedBy uid x.data_value) (value-injective h) own

respond_finances-OwnedBy :
    (s : Sources) (header : Header) (answer : Reply (Pageable SellerFinance))
    (resp : Response Listing)
    → ((r : Pageable SellerFinance)
        → answer ≡ value r
        → All (λ (f : SellerFinance). f.seller_id ≡ header.uid) r.items)
    → respond_finances s header answer ≡ ok (value resp)
    → OwnedBy header.uid resp.data_value
respond_finances-OwnedBy s header (failure code) resp own h = cc
respond_finances-OwnedBy s header (value r) resp own h =
    let (rows, e, last) = >>=-eq-ok (convert_finance_list s.format r.items) _ h in
    respond-OwnedBy (s.marshals_finances rows) _ _ header (finances rows) header.uid resp
      (convert_finance_list-OwnedBy s.format header.uid r.items rows (own r refl) e)
      (ok-injective last)

respond_items-OwnedBy :
    (s : Sources) (header : Header) (answer : Reply (Pageable FinanceOrderItem))
    (resp : Response Listing)
    → respond_items s header answer ≡ ok (value resp)
    → OwnedBy header.uid resp.data_value
respond_items-OwnedBy s header (failure code) resp h = cc
respond_items-OwnedBy s header (value r) resp h =
    let (c, e, last) = >>=-eq-ok (convert_order_items s.format r.items) _ h in
    respond-OwnedBy (s.marshals_items c) _ _ header (items c) header.uid resp tt (ok-injective last)

-- An answer behind a check that passed.
pub checked {ℓ} :
    {B : Type ℓ} (wrong : Bool) (code : ErrorCode) (answer : Outcome (Reply B)) (r : B)
    → (if wrong then ok (failure code) else answer) ≡ ok (value r)
    → answer ≡ ok (value r)
checked true code answer r h = cc
checked false code answer r h = h

pub finance_list_handler-OwnedAnswer :
    (s : Sources)
    → IsFiltered s
    → (req : Request) (resp : Response Listing) → finance_list_handler s req ≡ ok (value resp)
    → OwnedAnswer req resp
unfolding finance_list_handler find_by_filter_with_page_and_sort
finance_list_handler-OwnedAnswer s filtered req resp h =
    let (header, there, h1) = pointed req.header _ h in
    let (sorts, _, h2) = pointed header.sorts _ h1 in
    (
      header,
      there,
      respond_finances-OwnedBy s header _ resp
          (λ r found.
            let (skip, e) = find_by_filter_with_page-find _ _ (pos header.per_page) r found in
            filtered header.uid _ skip header.per_page r.items e)
          (checked (header.uid == 0) bad_request _ resp h2),
    )

pub order_item_list_handler-OwnedAnswer :
    (s : Sources) (req : Request) (resp : Response Listing)
    → order_item_list_handler s req ≡ ok (value resp)
    → OwnedAnswer req resp
unfolding order_item_list_handler
order_item_list_handler-OwnedAnswer s req resp h =
    let (header, there, h1) = pointed req.header _ h in
    let (sorts, _, h2) = pointed header.sorts _ h1 in
    (
      header,
      there,
      respond_items-OwnedBy s header _ resp
          (checked (header.uid == 0 || str_eq header.fid "") bad_request _ resp h2),
    )
