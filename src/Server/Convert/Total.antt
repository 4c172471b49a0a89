-- ===== src/Server/Convert/Total.antt =====
-- convertFinanceToRPC shows the finances that are complete and panics on the others.
use finance_service.Base.{refl, Bool, ◌&&◌, Option, List, [], ◌∷◌, String}
use finance_service.Base.Outcome.{Outcome, ◌>>=◌, deref, optional, traverse}
use finance_service.Entities.{
  Time, Money, ItemShare, ItemInvoice, SellerItem, SellerOrder, OrderInfo, SellerProfile,
  TransferResult, FinancePayment, SellerFinance,
}
use finance_service.Server.Convert.Items.{
  convert_money, convert_pointed_money, convert_share, convert_item_invoice, convert_item,
}
use finance_service.Server.Convert.{
  convert_profile, convert_result, convert_payment, convert_pointed_time, convert_order,
  convert_orders, convert_finance, convert_finance_to_rpc,
}
use finance_service.Server.Convert.Complete.{
  is_some, if_set, every, complete_share, complete_invoice, complete_item, complete_order,
  complete_orders, complete_profile, complete_result, complete_payment, complete_finance,
  SucceedsIf, >>=-SucceedsIf, last-SucceedsIf, deref-SucceedsIf, pointed-SucceedsIf,
  optional-SucceedsIf, traverse-SucceedsIf,
}

money_lem : (o : Option Money) → SucceedsIf (is_some o) (convert_pointed_money o)
money_lem o = last-SucceedsIf (is_some o) (deref o) convert_money (deref-SucceedsIf o)

-- One more money that is dereferenced.
next_money {κ} :
    {B : Type κ} (o : Option Money) (q : Bool) (k : _ → Outcome B)
    → ((m : _) → SucceedsIf q (k m))
    → SucceedsIf (is_some o && q) (convert_pointed_money o >>= k)
next_money o q k next = >>=-SucceedsIf (is_some o) q (convert_pointed_money o) k (money_lem o) next

convert_share-SucceedsIf : (s : ItemShare) → SucceedsIf (complete_share s) (convert_share s)
unfolding convert_share
convert_share-SucceedsIf s = next_money s.raw_item_net _ _ λ m0.
    next_money s.roundup_item_net _ _ λ m1. next_money s.raw_total_net _ _ λ m2.
      next_money s.roundup_total_net _ _ λ m3. next_money s.raw_unit_seller_share _ _ λ m4.
        next_money s.roundup_unit_seller_share _ _ λ m5.
          next_money s.raw_total_seller_share _ _ λ m6.
            last-SucceedsIf (is_some s.roundup_total_seller_share)
              (convert_pointed_money s.roundup_total_seller_share) _
              (money_lem s.roundup_total_seller_share)

convert_item_invoice-SucceedsIf :
    (i : ItemInvoice) → SucceedsIf (complete_invoice i) (convert_item_invoice i)
unfolding convert_item_invoice
convert_item_invoice-SucceedsIf i =
    last-SucceedsIf (complete_invoice i) (optional convert_share i.share) _
      (optional-SucceedsIf complete_share convert_share i.share convert_share-SucceedsIf)

convert_item-SucceedsIf : (i : SellerItem) → SucceedsIf (complete_item i) (convert_item i)
unfolding convert_item
convert_item-SucceedsIf i = pointed-SucceedsIf complete_invoice i.invoice _ λ invoice.
    last-SucceedsIf (complete_invoice invoice) (convert_item_invoice invoice) _
      (convert_item_invoice-SucceedsIf invoice)

convert_profile-SucceedsIf :
    (s : SellerProfile) → SucceedsIf (complete_profile s) (convert_profile s)
unfolding convert_profile
convert_profile-SucceedsIf s =
    >>=-SucceedsIf (is_some s.general_info) (is_some s.finance_data) (deref s.general_info) _
      (deref-SucceedsIf s.general_info)
      (λ general.
        last-SucceedsIf (is_some s.finance_data) (deref s.finance_data) _
          (deref-SucceedsIf s.finance_data))

module _ (format : Time → String) where
  convert_result-SucceedsIf :
      (r : TransferResult) → SucceedsIf (complete_result r) (convert_result format r)
  unfolding convert_result
  convert_result-SucceedsIf r = next_money r.success_transfer _ _ λ success.
      next_money r.pending_transfer _ _ λ pending.
        last-SucceedsIf (is_some r.failed_transfer) (convert_pointed_money r.failed_transfer) _
          (money_lem r.failed_transfer)

  convert_payment-SucceedsIf :
      (p : FinancePayment) → SucceedsIf (complete_payment p) (convert_payment format p)
  unfolding convert_payment
  convert_payment-SucceedsIf p =
      last-SucceedsIf (complete_payment p) (optional (convert_result format) p.transfer_result) _ (
        optional-SucceedsIf complete_result (convert_result format) p.transfer_result
          convert_result-SucceedsIf)

  -- One more time that is dereferenced.
  next_time {κ} :
      {B : Type κ} (o : Option Time) (q : Bool) (k : String → Outcome B)
      → ((t : String) → SucceedsIf q (k t))
      → SucceedsIf (is_some o && q) (convert_pointed_time format o >>= k)
  next_time o q k next =
      >>=-SucceedsIf (is_some o) q (convert_pointed_time format o) k
        (last-SucceedsIf (is_some o) (deref o) format (deref-SucceedsIf o)) next

  convert_order-SucceedsIf :
      (o : SellerOrder) → SucceedsIf (complete_order o) (convert_order format o)
  unfolding convert_order
  convert_order-SucceedsIf o = next_money o.shipment_amount _ _ λ shipment.
      next_money o.raw_shipping_net _ _ λ raw. next_money o.roundup_shipping_net _ _ λ roundup.
        next_time o.order_created_at _ _ λ created.
          next_time o.sub_pkg_created_at _ _ λ pkg_created.
            next_time o.sub_pkg_updated_at _ _ λ pkg_updated.
              last-SucceedsIf (every complete_item o.items) (traverse convert_item o.items) _
                (traverse-SucceedsIf complete_item convert_item o.items convert_item-SucceedsIf)

  convert_orders-SucceedsIf :
      (infos : List OrderInfo) → SucceedsIf (complete_orders infos) (convert_orders format infos)
  unfolding convert_orders
  convert_orders-SucceedsIf [] = ([], refl)
  convert_orders-SucceedsIf (info ∷ infos) =
      traverse-SucceedsIf complete_order (convert_order format) info.orders convert_order-SucceedsIf

  convert_finance-SucceedsIf :
      (f : SellerFinance) → SucceedsIf (complete_finance f) (convert_finance format f)
  unfolding convert_finance complete_finance
  convert_finance-SucceedsIf f = next_time f.start_at _ _ λ start. next_time f.end_at _ _ λ end.
      >>=-SucceedsIf (if_set complete_profile f.seller_info) _ _ _
        (optional-SucceedsIf complete_profile convert_profile f.seller_info
          convert_profile-SucceedsIf)
        λ profile.
          >>=-SucceedsIf (if_set complete_payment f.payment) _ _ _
            (optional-SucceedsIf complete_payment (convert_payment format) f.payment
              convert_payment-SucceedsIf)
            λ payment.
              last-SucceedsIf (complete_orders f.orders_info) (convert_orders format f.orders_info)
                _ (convert_orders-SucceedsIf f.orders_info)

-- The conversion of a list of finances succeeds where every finance is complete and panics where one is
-- not: its start and end are set, as are both parts of the seller's information if there is any, the
-- three amounts of the payment's result if there is one, and, in the orders of the first order info,
-- the three amounts and three times of each order, the invoice of each item, and the eight amounts of
-- each item's share if there is one.
pub convert_finance_to_rpc-SucceedsIf :
    (format : Time → String) (fs : List SellerFinance)
    → SucceedsIf (every complete_finance fs) (convert_finance_to_rpc format fs)
unfolding convert_finance_to_rpc
convert_finance_to_rpc-SucceedsIf format fs =
    traverse-SucceedsIf complete_finance (convert_finance format) fs
      (convert_finance-SucceedsIf format)
