-- ===== src/Server/Convert.antt =====
-- convertFinanceToRPC of server/grpc/grpc.go: the messages that show the finances.
pub mod Items
pub mod Complete
pub mod Total
pub mod Read
use finance_service.Base.{Option, none, some, List, [], ◌∷◌, String}
use finance_service.Base.Outcome.{Outcome, ok, ◌>>=◌, deref, optional, traverse}
use finance_service.Entities.{
  Time, Invoice, SellerProfile, SellerOrder, OrderInfo, TransferRequest, TransferResponse,
  TransferResult, FinanceState, PaymentState, FinancePayment, SellerFinance,
}
use finance_service.Server.Messages.{
  ProfileMessage, InvoiceMessage, OrderMessage, TransferRequestMessage, TransferResponseMessage,
  TransferResultMessage, PaymentMessage, FinanceMessage,
}
use finance_service.Server.Convert.Items.{
  convert_money, convert_optional_money, convert_pointed_money, convert_item,
}

unfoldable pub finance_state_text : FinanceState → String
finance_state_text FinanceState.order_collection = "ORDER_COLLECTION"
finance_state_text FinanceState.payment_process = "PAYMENT_PROCESS"
finance_state_text FinanceState.closed = "CLOSED"

unfoldable pub payment_state_text : PaymentState → String
payment_state_text PaymentState.none_state = "NONE"
payment_state_text PaymentState.success_state = "SUCCESS"
payment_state_text PaymentState.failed_state = "FAILED"
payment_state_text PaymentState.pending_state = "PENDING"
payment_state_text PaymentState.partial_state = "PARTIAL_PAYED"

unfoldable pub convert_profile : SellerProfile → Outcome ProfileMessage
convert_profile s = do
  general ← deref s.general_info
  finance ← deref s.finance_data
  ok (record {
    general_info = record {
      shop_display_name = general.shop_display_name;
      type = general.type;
      email = general.email;
      land_phone = general.land_phone;
      mobile_phone = general.mobile_phone;
      website = general.website;
      province = general.province;
      city = general.city;
      neighborhood = general.neighborhood;
      postal_address = general.postal_address;
      postal_code = general.postal_code;
      is_vat_obliged = general.is_vat_obliged;
      vat_certification_image_url = general.vat_certification_image_url;
    };
    finance_info = record {
      iban = finance.iban;
      account_holder_first_name = finance.account_holder_first_name;
      account_holder_family_name = finance.account_holder_family_name;
    };
  })

abbrev pub convert_invoice : Invoice → InvoiceMessage
convert_invoice i = record {
  sso_raw_total = convert_optional_money i.sso_raw_total;
  sso_roundup_total = convert_optional_money i.sso_roundup_total;
  vat_raw_total = convert_optional_money i.vat_raw_total;
  vat_roundup_total = convert_optional_money i.vat_roundup_total;
  commission_raw_total = convert_optional_money i.commission_raw_total;
  commission_roundup_total = convert_optional_money i.commission_roundup_total;
  share_raw_total = convert_optional_money i.share_raw_total;
  share_roundup_total = convert_optional_money i.share_roundup_total;
  shipment_raw_total = convert_optional_money i.shipment_raw_total;
  shipment_roundup_total = convert_optional_money i.shipment_roundup_total;
}

abbrev pub convert_optional_invoice : Option Invoice → Option InvoiceMessage
convert_optional_invoice none = none
convert_optional_invoice (some i) = some (convert_invoice i)

-- The parameter is `Format(utils.ISO8601)` of the package time.
module _ (format : Time → String) where
  abbrev pub convert_request : TransferRequest → TransferRequestMessage
  convert_request r = record {
    total_price = convert_money r.total_price;
    receiver_name = r.receiver_name;
    receiver_account_id = r.receiver_account_id;
    payment_description = r.payment_description;
    transfer_type = r.transfer_type;
    created_at = format r.created_at;
  }

  abbrev pub convert_optional_request : Option TransferRequest → Option TransferRequestMessage
  convert_optional_request none = none
  convert_optional_request (some r) = some (convert_request r)

  abbrev pub convert_response : Option TransferResponse → Option TransferResponseMessage
  convert_response none = none
  convert_response (some r) =
      some (record { transfer_id = r.transfer_id; created_at = format r.created_at })

  unfoldable pub convert_result : TransferResult → Outcome TransferResultMessage
  convert_result r = do
    success ← convert_pointed_money r.success_transfer
    pending ← convert_pointed_money r.pending_transfer
    failed ← convert_pointed_money r.failed_transfer
    ok (record {
      transfer_id = r.transfer_id;
      success_transfer = success;
      pending_transfer = pending;
      failed_transfer = failed;
      created_at = format r.created_at;
      updated_at = format r.updated_at;
    })

  unfoldable pub convert_payment : FinancePayment → Outcome PaymentMessage
  unfolding convert_result payment_state_text
  convert_payment p = do
    result ← optional convert_result p.transfer_result
    ok (record {
      transfer_request = convert_optional_request p.transfer_request;
      transfer_response = convert_response p.transfer_response;
      transfer_result = result;
      seller_transfer_state = payment_state_text p.status;
      created_at = format p.created_at;
      updated_at = format p.updated_at;
    })

  abbrev pub convert_pointed_time : Option Time → Outcome String
  convert_pointed_time p = do t ← deref p; ok (format t)

  unfoldable pub convert_order : SellerOrder → Outcome OrderMessage
  unfolding traverse convert_item
  convert_order o = do
    shipment_amount ← convert_pointed_money o.shipment_amount
    raw_shipping_net ← convert_pointed_money o.raw_shipping_net
    roundup_shipping_net ← convert_pointed_money o.roundup_shipping_net
    order_created_at ← convert_pointed_time o.order_created_at
    sub_pkg_created_at ← convert_pointed_time o.sub_pkg_created_at
    sub_pkg_updated_at ← convert_pointed_time o.sub_pkg_updated_at
    items ← traverse convert_item o.items
    ok (record {
      oid = o.oid;
      shipment_amount = shipment_amount;
      raw_shipping_net = raw_shipping_net;
      roundup_shipping_net = roundup_shipping_net;
      is_already_shipping_payed = o.is_already_shipping_payed;
      items = items;
      order_created_at = order_created_at;
      sub_pkg_created_at = sub_pkg_created_at;
      sub_pkg_updated_at = sub_pkg_updated_at;
    })

  -- `[]` is a slice that is nil; the service never writes one that is empty and not nil
  unfoldable pub convert_orders : List OrderInfo → Outcome (List OrderMessage)
  unfolding traverse convert_order
  convert_orders [] = ok []
  convert_orders (info ∷ infos) = traverse convert_order info.orders

  unfoldable pub convert_finance : SellerFinance → Outcome FinanceMessage
  unfolding convert_profile convert_payment convert_orders finance_state_text
  convert_finance f = do
    start_at ← convert_pointed_time f.start_at
    end_at ← convert_pointed_time f.end_at
    seller_info ← optional convert_profile f.seller_info
    payment ← optional convert_payment f.payment
    orders ← convert_orders f.orders_info
    ok (record {
      fid = f.fid;
      seller_id = f.seller_id;
      seller_info = seller_info;
      invoice = convert_optional_invoice f.invoice;
      orders = orders;
      payment = payment;
      status = finance_state_text f.status;
      start_at = start_at;
      end_at = end_at;
      created_at = format f.created_at;
      updated_at = format f.updated_at;
    })

  unfoldable pub convert_finance_to_rpc : List SellerFinance → Outcome (List FinanceMessage)
  unfolding traverse convert_finance
  convert_finance_to_rpc = traverse convert_finance
