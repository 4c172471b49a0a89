-- ===== src/Payment/Invoice/Due/Read.antt =====
-- The calculation reads every amount that an invoice is made of.
use finance_service.Base.{
  ◌≡◌, refl, sym, ap, ◌∙◌, subst, Option, none, some, not, if◌then◌else◌, arith,
}
use finance_service.Base.Float.{is_positive}
use finance_service.Base.Outcome.{Outcome, ok, deref, optional, traverse, >>=-eq-ok, ok-injective}
use finance_service.Entities.{
  Money, ItemShare, ItemCommission, ItemSso, ItemVat, SellerItem, SellerOrder,
}
use finance_service.Decimals.{Decimals}
use finance_service.Calculation.{SellerItemCalc, SellerOrderCalc}
use finance_service.Calculation.{ItemShareCalc, ItemCommissionCalc, ItemSsoCalc, ItemVatCalc}
use finance_service.Calculation.{
  read_money, read, read_share, read_commission, read_sso, read_vat, read_item, read_order,
}
use finance_service.Payment.Invoice.Sums.{
  amount, amount_if, share_of, commission_of, sso_of, vat_of, shipment_of,
}
use finance_service.Payment.Invoice.Due.{
  paid, part, share_paid, commission_paid, sso_paid, vat_paid, share_due, commission_due, sso_due,
  vat_due, shipment_due,
}

module _ {D : Type 0} ⦃d : Decimals D⦄ where
  open d use {zero, add}

  read-paid : (o : Option Money) (x : Option D) → read o ≡ ok x → amount x ≡ paid o
  unfolding read read_money
  read-paid none x h = ap amount (sym (ok-injective h))
  read-paid (some m) x h = ground arith

  share_back :
      (s : ItemShare) (c : ItemShareCalc D)
      → read_share s ≡ ok c
      → (amount c.raw_total_seller_share, amount c.roundup_total_seller_share) ≡ share_paid s
  unfolding read_share
  share_back s c h =
      let (_, _, h1) = >>=-eq-ok (read s.raw_item_net) _ h in
      let (_, _, h2) = >>=-eq-ok (read s.raw_total_net) _ h1 in
      let (_, _, h3) = >>=-eq-ok (read s.roundup_item_net) _ h2 in
      let (_, _, h4) = >>=-eq-ok (read s.roundup_total_net) _ h3 in
      let (_, _, h5) = >>=-eq-ok (read s.raw_unit_seller_share) _ h4 in
      let (_, _, h6) = >>=-eq-ok (read s.roundup_unit_seller_share) _ h5 in
      let (raw, e7, h7) = >>=-eq-ok (read s.raw_total_seller_share) _ h6 in
      let (roundup, e8, last) = >>=-eq-ok (read s.roundup_total_seller_share) _ h7 in
      subst
        (λ (x : ItemShareCalc D).
          (amount x.raw_total_seller_share, amount x.roundup_total_seller_share) ≡ share_paid s)
        (ok-injective last) (λ k. (read-paid _ raw e7 k, read-paid _ roundup e8 k))

  commission_back :
      (s : ItemCommission) (c : ItemCommissionCalc D)
      → read_commission s ≡ ok c
      → (
        amount_if (is_positive c.item_commission) c.raw_total_price,
        amount_if (is_positive c.item_commission) c.roundup_total_price,
      )
        ≡ commission_paid s
  unfolding read_commission
  commission_back s c h =
      let (_, _, h1) = >>=-eq-ok (read s.raw_unit_price) _ h in
      let (raw, e2, h2) = >>=-eq-ok (read s.raw_total_price) _ h1 in
      let (_, _, h3) = >>=-eq-ok (read s.roundup_unit_price) _ h2 in
      let (roundup, e4, last) = >>=-eq-ok (read s.roundup_total_price) _ h3 in
      subst
        (λ (x : ItemCommissionCalc D).
          (
            amount_if (is_positive x.item_commission) x.raw_total_price,
            amount_if (is_positive x.item_commission) x.roundup_total_price,
          )
          ≡ commission_paid s)
        (ok-injective last)
        (λ k. (
          if is_positive s.item_commission then read-paid _ raw e2 k else zero,
          if is_positive s.item_commission then read-paid _ roundup e4 k else zero,
        ))

  sso_back :
      (s : ItemSso) (c : ItemSsoCalc D)
      → read_sso s ≡ ok c
      → (amount_if c.is_obliged c.raw_total_price, amount_if c.is_obliged c.roundup_total_price)
        ≡ sso_paid s
  unfolding read_sso
  sso_back s c h =
      let (_, _, h1) = >>=-eq-ok (read s.raw_unit_price) _ h in
      let (raw, e2, h2) = >>=-eq-ok (read s.raw_total_price) _ h1 in
      let (_, _, h3) = >>=-eq-ok (read s.roundup_unit_price) _ h2 in
      let (roundup, e4, last) = >>=-eq-ok (read s.roundup_total_price) _ h3 in
      subst
        (λ (x : ItemSsoCalc D).
          (amount_if x.is_obliged x.raw_total_price, amount_if x.is_obliged x.roundup_total_price)
          ≡ sso_paid s)
        (ok-injective last)
        (λ k. (
          if s.is_obliged then read-paid _ raw e2 k else zero,
          if s.is_obliged then read-paid _ roundup e4 k else zero,
        ))

  vat_back :
      (s : ItemVat) (c : ItemVatCalc D)
      → read_vat s ≡ ok c
      → (amount_if c.is_obliged c.raw_total_price, amount_if c.is_obliged c.roundup_total_price)
        ≡ vat_paid s
  unfolding read_vat
  vat_back s c h =
      let (_, _, h1) = >>=-eq-ok (read s.raw_unit_price) _ h in
      let (raw, e2, h2) = >>=-eq-ok (read s.raw_total_price) _ h1 in
      let (_, _, h3) = >>=-eq-ok (read s.roundup_unit_price) _ h2 in
      let (roundup, e4, last) = >>=-eq-ok (read s.roundup_total_price) _ h3 in
      subst
        (λ (x : ItemVatCalc D).
          (amount_if x.is_obliged x.raw_total_price, amount_if x.is_obliged x.roundup_total_price)
          ≡ vat_paid s)
        (ok-injective last)
        (λ k. (
          if s.is_obliged then read-paid _ raw e2 k else zero,
          if s.is_obliged then read-paid _ roundup e4 k else zero,
        ))

  -- a part of an invoice that may be absent
  part_back :
      {A B : Type 0} (f : A → Outcome B) (view : B → D × D) (w : A → D × D)
      → ((x : A) (y : B) → f x ≡ ok y → view y ≡ w x)
      → (o : Option A) (m : Option B) → optional f o ≡ ok m
      → part view m ≡ part w o
  part_back f view w back none m h = ap (part view) (sym (ok-injective h))
  part_back f view w back (some x) m h =
      let (y, e, last) = >>=-eq-ok (f x) _ h in
      ap (part view) (sym (ok-injective last)) ∙ back x y e

  by_part :
      {B : Type 0} (view : B → D × D) (m : Option B)
      → (elim m [ none ↦ (zero, zero) | some x ↦ view x ]) ≡ part view m
  by_part view none = refl
  by_part view (some x) = refl

  -- the four parts of an item's invoice
  abbrev pub ReadsAs : SellerItem → SellerItemCalc D → Type 0
  ReadsAs i c =
      (share_of c ≡ share_due i)
      × (commission_of c ≡ commission_due i)
      × (sso_of c ≡ sso_due i)
      × (vat_of c ≡ vat_due i)

  pub item_back : (i : SellerItem) (c : SellerItemCalc D) → read_item i ≡ ok c → ReadsAs i c
  unfolding read_item
  item_back i c h =
      let (v, ev, h1) = >>=-eq-ok (deref i.invoice) _ h in
      let (commission, e1, h2) = >>=-eq-ok (optional read_commission v.commission) _ h1 in
      let (share, e2, h3) = >>=-eq-ok (optional read_share v.share) _ h2 in
      let (sso, e3, h4) = >>=-eq-ok (optional read_sso v.sso) _ h3 in
      let (vat, e4, last) = >>=-eq-ok (optional read_vat v.vat) _ h4 in
      let has : i.invoice ≡ some v = pointed i.invoice v ev in
      subst (ReadsAs i) (ok-injective last) (
        by_part _ share
            ∙ part_back read_share _ share_paid share_back v.share share e2
            ∙ ap (part (λ w. part share_paid w.share)) (sym has),
        by_part _ commission
            ∙ part_back read_commission _ commission_paid commission_back v.commission commission e1
            ∙ ap (part (λ w. part commission_paid w.commission)) (sym has),
        by_part _ sso
            ∙ part_back read_sso _ sso_paid sso_back v.sso sso e3
            ∙ ap (part (λ w. part sso_paid w.sso)) (sym has),
        by_part _ vat
            ∙ part_back read_vat _ vat_paid vat_back v.vat vat e4
            ∙ ap (part (λ w. part vat_paid w.vat)) (sym has),
      )
    where
      pointed : {A : Type 0} (o : Option A) (a : A) → deref o ≡ ok a → o ≡ some a
      pointed none a e = cc
      pointed (some b) a e = ap some (ok-injective e)

  pub order_back :
      (o : SellerOrder) (c : SellerOrderCalc D)
      → read_order o ≡ ok c
      → (shipment_of c ≡ shipment_due o) × (traverse read_item o.items ≡ ok c.items)
  unfolding read_order
  order_back o c h =
      let (_, _, h1) = >>=-eq-ok (read o.shipment_amount) _ h in
      let (raw, e2, h2) = >>=-eq-ok (read o.raw_shipping_net) _ h1 in
      let (roundup, e3, h3) = >>=-eq-ok (read o.roundup_shipping_net) _ h2 in
      let (items, e4, last) = >>=-eq-ok (traverse read_item o.items) _ h3 in
      subst
        (λ (x : SellerOrderCalc D).
          (shipment_of x ≡ shipment_due o) × (traverse read_item o.items ≡ ok x.items))
        (ok-injective last)
        (
          λ k. (
            if not o.is_already_shipping_payed then read-paid _ raw e2 k else zero,
            if not o.is_already_shipping_payed then read-paid _ roundup e3 k else zero,
          ),
          e4,
        )
