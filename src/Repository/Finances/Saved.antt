-- ===== src/Repository/Finances/Saved.antt =====
-- What Save of a finance stores, and when it refuses.
use finance_service.Base.{
  ℕ, suc, ◌≡◌, refl, sym, ap, subst, ◌∙◌, true, false, String, Option, none, some, List, [], ◌∷◌,
  map, All,
}
use finance_service.Base.Outcome.{some-injective, ErrorCode, Reply, value, failure}
use finance_service.Entities.{Time, ObjectId, SellerOrder, OrderInfo, SellerFinance}
use finance_service.Repository.Triggers.{UpdateResult}
use finance_service.Repository.Triggers.Versions.{version_moves, reply_matched, fails_otherwise}
use finance_service.Repository.Finances.{
  FinanceDatabase, HoldsFinances, generate_id, mark_orders, mark_infos, new_finance, inserted_reply,
  next_finance, insert, upsert, save,
}
use text.Mathlib.Text.{◌==◌ as str_eq}

-- an order without its marks
abbrev pub unmarked : SellerOrder → SellerOrder
unmarked o = record o { fid = ""; id = 0 }

abbrev pub unmarked_info : OrderInfo → OrderInfo
unmarked_info i = record i { orders = map unmarked i.orders }

-- every order of the order infos has this fid
abbrev pub HasFid : String → List OrderInfo → Type 0
HasFid fid infos = All (λ (i : OrderInfo). All (λ (o : SellerOrder). o.fid ≡ fid) i.orders) infos

mark_orders-All :
    (new_id : ℕ → ObjectId) (fid : String) (j : ℕ) (os : List SellerOrder)
    → All (λ (o : SellerOrder). o.fid ≡ fid) (mark_orders new_id fid j os)
unfolding mark_orders
mark_orders-All new_id fid j [] = tt
mark_orders-All new_id fid j (o ∷ os) = (refl, mark_orders-All new_id fid (suc j) os)

mark_infos-HasFid :
    (new_id : ℕ → ℕ → ObjectId) (fid : String) (i : ℕ) (infos : List OrderInfo)
    → HasFid fid (mark_infos new_id fid i infos)
unfolding mark_infos
mark_infos-HasFid new_id fid i [] = tt
mark_infos-HasFid new_id fid i (info ∷ infos) =
    (mark_orders-All (new_id i) fid 0 info.orders, mark_infos-HasFid new_id fid (suc i) infos)

unmarked-mark_orders :
    (new_id : ℕ → ObjectId) (fid : String) (j : ℕ) (os : List SellerOrder)
    → map unmarked (mark_orders new_id fid j os) ≡ map unmarked os
unfolding mark_orders
unmarked-mark_orders new_id fid j [] = refl
unmarked-mark_orders new_id fid j (o ∷ os) =
    ap (λ (t : List SellerOrder). unmarked o ∷ t) (unmarked-mark_orders new_id fid (suc j) os)

unmarked-mark_infos :
    (new_id : ℕ → ℕ → ObjectId) (fid : String) (i : ℕ) (infos : List OrderInfo)
    → map unmarked_info (mark_infos new_id fid i infos) ≡ map unmarked_info infos
unfolding mark_infos
unmarked-mark_infos new_id fid i [] = refl
unmarked-mark_infos new_id fid i (info ∷ infos) = λ k.
    record info { orders = unmarked-mark_orders (new_id i) fid 0 info.orders k }
    ∷ unmarked-mark_infos new_id fid (suc i) infos k

inserted_value :
    {S : Type 0} (f g : SellerFinance) (s' : S) (x : Option ObjectId × S)
    → ◌≡◌ {A = Reply SellerFinance × S} (inserted_reply f x.0, x.1) (value g, s')
    → (id : ObjectId) × (x ≡ (some id, s')) × (g ≡ record f { id = id })
inserted_value f g s' (none, s2) e = cc
inserted_value f g s' (some id, s2) e = (id, cc, cc)

-- a finance with this fid, as it is stored at first
abbrev pub IsNew : String → SellerFinance → SellerFinance → Type 0
IsNew fid f g =
    (g ≡ record f {
      id = g.id;
      fid = fid;
      version = 1;
      doc_version = "1.0.1";
      orders_info = g.orders_info;
    })
    × HasFid fid g.orders_info
    × (map unmarked_info g.orders_info ≡ map unmarked_info f.orders_info)

new_finance-IsNew :
    (new_id : ℕ → ℕ → ObjectId) (fid : String) (f : SellerFinance) (id : ObjectId)
    → IsNew fid f (record (new_finance new_id fid f) { id = id })
unfolding new_finance
new_finance-IsNew new_id fid f id = (
  refl,
  mark_infos-HasFid new_id fid 0 f.orders_info,
  unmarked-mark_infos new_id fid 0 f.orders_info,
)

module _ {S : Type 0} (db : FinanceDatabase S) where
  -- this document was inserted, and the finance that was returned is it, with the id of the insertion
  abbrev pub IsInserted : SellerFinance → SellerFinance → S → S → Type 0
  IsInserted doc g s s' =
      (id : ObjectId) × (db.insert_finance doc s ≡ (some id, s')) × (g ≡ record doc { id = id })

  -- a finance that had no fid was inserted, marked as new, and returned
  abbrev pub StoredNew : String → SellerFinance → SellerFinance → S → S → Type 0
  StoredNew fid f g s s' =
      (doc : SellerFinance) × IsInserted doc g s s' × IsNew fid f doc × IsNew fid f g

  insert-StoredNew :
      (now : Time) (f g : SellerFinance) (s s' : S)
      → insert db now f s ≡ (value g, s')
      → StoredNew (generate_id f.seller_id now) f g s s'
  unfolding insert
  insert-StoredNew now f g s s' e =
      let fid = generate_id f.seller_id now in
      let new = new_finance (db.order_id s) fid f in
      let (id, written, is) = inserted_value new g s' _ e in
      (
        new,
        (id, written, is),
        new_finance-IsNew (db.order_id s) fid f new.id,
        subst (IsNew fid f) (sym is) (new_finance-IsNew (db.order_id s) fid f id),
      )

  -- When Save has stored a finance that had no fid, then the document that was inserted has the
  -- generated fid, as has each of its orders, and the version 1, and but for these marks and the two ids
  -- its orders and all else are as they were; and the finance that Save returns is this document with
  -- the id of the insertion.
  pub save-new :
      (now : Time) (f g : SellerFinance) (s s' : S)
      → str_eq f.fid "" ≡ true
      → save db now f s ≡ (value g, s')
      → StoredNew (generate_id f.seller_id now) f g s s'
  unfolding save
  save-new now f g s s' empty e = insert-StoredNew now f g s s' (sym (rw empty refl) ∙ e)

  upsert_matched :
      (now : Time) (f g : SellerFinance) (s s' : S)
      → upsert db now f s ≡ (value g, s')
      → (r : UpdateResult) × (db.upsert_finance f.fid f.version (next_finance now f) s
          ≡ (some r, s'))
        × (r.matched_count ≡ 1)
  unfolding upsert
  upsert_matched now f g s s' e = reply_matched (next_finance now f) g s' _ e

  by_upsert :
      (now : Time) (f : SellerFinance) (s : S)
      → str_eq f.fid "" ≡ false
      → save db now f s ≡ upsert db now f s
  unfolding save
  by_upsert now f s named = rw named refl

  -- When a fid has one document and Save has stored a finance that had a fid, then a second Save of
  -- that fid from the same version fails, whatever it writes: no stored change is lost.
  pub save_conflicts :
      (finance_of : String → S → Option SellerFinance)
      → HoldsFinances db finance_of
      → (now now' : Time) (f f' g : SellerFinance) (s s' : S) → str_eq f.fid "" ≡ false
      → save db now f s ≡ (value f', s')
      → g.fid ≡ f.fid
      → g.version ≡ f.version
      → (code : ErrorCode) × (s2 : S) × (save db now' g s' ≡ (failure code, s2))
  save_conflicts finance_of holds now now' f f' g s s' named e same_fid same =
      fails_otherwise (save db now' g s') λ g' s2 e2.
        let (r, asked, matched) =
          upsert_matched now f f' s s' (sym (by_upsert now f s named) ∙ e) in
        let named_g : str_eq g.fid "" ≡ false = ap (λ t. str_eq t "") same_fid ∙ named in
        let (r2, asked2, matched2) =
          upsert_matched now' g g' s' s2 (sym (by_upsert now' g s' named_g) ∙ e2) in
        let (old, read, was, version, is, back) = holds.matches f.version _ s s' r asked matched in
        let (old2, read2, was2, version2, is2, back2) =
          holds.matches g.version _ s' s2 r2 asked2 matched2 in
        let stored : read ≡ old2 =
          some-injective (sym is ∙ ap (λ n. finance_of n s') (sym same_fid) ∙ was2) in
        version_moves f.version
          (sym back ∙ ap (λ (x : SellerFinance). x.version) stored ∙ version2 ∙ same)
