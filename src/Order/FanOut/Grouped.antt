-- ===== src/Order/FanOut/Grouped.antt =====
-- Which orders go to which pipeline.
use mathlib.Core.List.{append-nil, append_assoc}
use finance_service.Base.{
  ℕ, ◌<◌, ◌≡◌, ◌≢◌, refl, sym, ap, ◌∙◌, true, false, inl, inr, List, [], ◌∷◌, ◌++◌, length,
  length-append, All, ◌==◌, if◌then◌else◌, Bool-cases, arith,
}
use finance_service.Entities.{SellerOrder}
use finance_service.Order.FanOut.{SellerStreams, send_order, send_orders, fan_out_orders}

-- what the pipeline of a seller is sent
abbrev pub stream_of : ℕ → SellerStreams → List SellerOrder
stream_of seller [] = []
stream_of seller ((id, stream) ∷ streams) =
    if id == seller then stream else stream_of seller streams

-- the orders of a seller, in order
abbrev pub of_seller : ℕ → List SellerOrder → List SellerOrder
of_seller seller [] = []
of_seller seller (o ∷ os) =
    if o.seller_id == seller then o ∷ of_seller seller os else of_seller seller os

abbrev pub Lacks : ℕ → SellerStreams → Type 0
Lacks seller streams = All (λ (s : ℕ × List SellerOrder). s.0 ≢ seller) streams

abbrev pub IsDistinct : SellerStreams → Type 0
IsDistinct [] = Unit {0}
IsDistinct ((id, stream) ∷ streams) = Lacks id streams × IsDistinct streams

abbrev pub IsOwn : SellerStreams → Type 0
IsOwn streams =
    All
      (λ (s : ℕ × List SellerOrder).
        (0 < length s.1) × All (λ (o : SellerOrder). o.seller_id ≡ s.0) s.1)
      streams

one : ℕ → SellerOrder → List SellerOrder
one seller o = if o.seller_id == seller then o ∷ [] else []

stream_of-send :
    (seller : ℕ) (o : SellerOrder) (ss : SellerStreams)
    → stream_of seller (send_order o ss) ≡ stream_of seller ss ++ one seller o
unfolding send_order one
stream_of-send seller o [] = refl
stream_of-send seller o ((id, stream) ∷ ss) = elim (Bool-cases (id == o.seller_id)) [
  | inl same ↦ elim (Bool-cases (id == seller)) [
    | inl here ↦
        let own : (o.seller_id == seller) ≡ true = ground arith in rw (same, here, own) refl
    | inr elsewhere ↦
        let foreign : (o.seller_id == seller) ≡ false = ground arith in
        rw (same, elsewhere, foreign) (sym (append-nil (stream_of seller ss)))
  ]
  | inr other ↦ elim (Bool-cases (id == seller)) [
    | inl here ↦
        let foreign : (o.seller_id == seller) ≡ false = ground arith in
        rw (other, here, foreign) (sym (append-nil stream))
    | inr elsewhere ↦ rw (other, elsewhere) (stream_of-send seller o ss)
  ]
]

one-append :
    (seller : ℕ) (o : SellerOrder) (os : List SellerOrder)
    → one seller o ++ of_seller seller os ≡ of_seller seller (o ∷ os)
unfolding one
one-append seller o os = elim (Bool-cases (o.seller_id == seller)) [
  | inl own ↦ rw own refl
  | inr foreign ↦ rw foreign refl
]

stream_of-send_orders :
    (seller : ℕ) (ss : SellerStreams) (os : List SellerOrder)
    → stream_of seller (send_orders ss os) ≡ stream_of seller ss ++ of_seller seller os
unfolding send_orders
stream_of-send_orders seller ss [] = sym (append-nil _)
stream_of-send_orders seller ss (o ∷ os) =
    stream_of-send_orders seller (send_order o ss) os
    ∙ ap (λ (t : List SellerOrder). t ++ of_seller seller os) (stream_of-send seller o ss)
    ∙ append_assoc (stream_of seller ss) (one seller o) (of_seller seller os)
    ∙ ap (λ (t : List SellerOrder). stream_of seller ss ++ t) (one-append seller o os)

differ : (a b : ℕ) → (a == b) ≡ false → b ≢ a
differ a b h e = ground arith

send-Lacks :
    (seller : ℕ) (o : SellerOrder) (ss : SellerStreams)
    → o.seller_id ≢ seller
    → Lacks seller ss
    → Lacks seller (send_order o ss)
unfolding send_order
send-Lacks seller o [] ne lacks = (ne, tt)
send-Lacks seller o ((id, stream) ∷ ss) ne (here, later) = elim (Bool-cases (id == o.seller_id)) [
  | inl same ↦ rw same (here, later)
  | inr other ↦ rw other (here, send-Lacks seller o ss ne later)
]

send-IsDistinct :
    (o : SellerOrder) (ss : SellerStreams) → IsDistinct ss → IsDistinct (send_order o ss)
unfolding send_order
send-IsDistinct o [] d = (tt, tt)
send-IsDistinct o ((id, stream) ∷ ss) (lacks, d) = elim (Bool-cases (id == o.seller_id)) [
  | inl same ↦ rw same (lacks, d)
  | inr other ↦
      rw other (send-Lacks id o ss (differ id o.seller_id other) lacks, send-IsDistinct o ss d)
]

All-append {ℓ κ} :
    {A : Type ℓ} (P : A → Type κ) (xs : List A) (a : A) → All P xs → P a → All P (xs ++ (a ∷ []))
All-append P [] a all pa = (pa, tt)
All-append P (x ∷ xs) a (px, all) pa = (px, All-append P xs a all pa)

send-IsOwn : (o : SellerOrder) (ss : SellerStreams) → IsOwn ss → IsOwn (send_order o ss)
unfolding send_order
send-IsOwn o [] own = ((omega arith, (refl, tt)), tt)
send-IsOwn o ((id, stream) ∷ ss) ((some_orders, all), own) = elim (Bool-cases (id == o.seller_id)) [
  | inl same ↦ rw same (
    (
      omega (arith, length-append stream (o ∷ [])),
      All-append (λ (o : SellerOrder). o.seller_id ≡ id) stream o all (ground arith),
    ),
    own,
  )
  | inr other ↦ rw other ((some_orders, all), send-IsOwn o ss own)
]

-- the pipelines of a run: each seller has one at most, with its orders in their order
pub record IsGrouped (orders : List SellerOrder) (streams : SellerStreams) : Type 0 where
  pub streams_of : (seller : ℕ) → stream_of seller streams ≡ of_seller seller orders
  pub distinct : IsDistinct streams
  pub own : IsOwn streams

send_orders-IsDistinct :
    (ss : SellerStreams) (os : List SellerOrder) → IsDistinct ss → IsDistinct (send_orders ss os)
unfolding send_orders
send_orders-IsDistinct ss [] d = d
send_orders-IsDistinct ss (o ∷ os) d =
    send_orders-IsDistinct (send_order o ss) os (send-IsDistinct o ss d)

send_orders-IsOwn :
    (ss : SellerStreams) (os : List SellerOrder) → IsOwn ss → IsOwn (send_orders ss os)
unfolding send_orders
send_orders-IsOwn ss [] own = own
send_orders-IsOwn ss (o ∷ os) own = send_orders-IsOwn (send_order o ss) os (send-IsOwn o ss own)

-- fanOutOrders sends the orders of each seller, all of them and in their order, to one pipeline; no
-- two pipelines have the same seller, and each has at least one order and orders of its seller only.
pub fan_out_orders-IsGrouped :
    (orders : List SellerOrder) → IsGrouped orders (fan_out_orders orders)
unfolding fan_out_orders
fan_out_orders-IsGrouped orders = record {
  streams_of = λ seller. stream_of-send_orders seller [] orders;
  distinct = send_orders-IsDistinct [] orders tt;
  own = send_orders-IsOwn [] orders tt;
}
