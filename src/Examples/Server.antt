-- ===== src/Examples/Server.antt =====
-- Requests that the server answers, and finances that it shows.
use finance_service.Base.{
  ℕ, zero, suc, ◌≡◌, refl, subst, true, false, none, some, List, [], ◌∷◌, All, map, length, take,
  drop, String, if◌then◌else◌, ◌==◌, arith, Bool,
}
use finance_service.Base.Int.{pos, pos_part, int64}
use finance_service.Base.Outcome.{Outcome, ok, panic, Reply, value, traverse}
use finance_service.Entities.{
  FinancePayment, PaymentState, PaymentMode, Time, SellerItem, SellerOrder, SellerFinance,
  FinanceState,
}
use finance_service.Repository.Paging.{available_pages, find_by_filter_with_page}
use finance_service.Converter.{unset, resolve_finance_state, resolve_finance_stat}
use finance_service.Converter.Listed.{FinanceRow, finance_row, convert_finance_list}
use finance_service.Converter.Rows.{FinanceOrderItem, PaymentType, shipment_row, purchase_row}
use finance_service.Converter.Rows.Collection.{
  order_and_item, has_key, shipment_rows, calculated_rows, item_rows, all_rows, ItemCollection,
  convert_order_items,
}
use finance_service.Converter.Rows.Shipments.{orders_of}
use finance_service.Converter.Rows.Owed.{unique, convert_order_items_rows}
use finance_service.Server.Messages.{FinanceMessage}
use finance_service.Server.Convert.{convert_finance_to_rpc}
use finance_service.Server.Convert.Complete.{complete_finance}
use finance_service.Server.Convert.Total.{convert_finance_to_rpc-SucceedsIf}
use finance_service.Server.Convert.Read.Views.{decode_finance, finance_view}
use finance_service.Server.Convert.Read.Finance.{convert_finance_to_rpc-read}
use finance_service.Server.Mux.{
  Header, Request, Response, Mux, key_of, lookup, handle, register_all, reg_handler, dispatch,
  authorized, handle_request,
}
use finance_service.Server.Mux.Registered.{reg_handler-handle}
use finance_service.Server.Handlers.{
  Sources, Listing, finances, find_by_filter_with_page_and_sort, finance_list_handler,
  order_item_list_handler,
}
use finance_service.Server.Handlers.Owned.{OwnedBy, IsFiltered}
use finance_service.Server.Handlers.Authorized.{handle_request-OwnedBy}
use finance_service.Examples.Data.{rial, item, order, info, finance}

abbrev format : Time → String
format t = "2020-01-01T00:00:00+0000"

-- an order whose item has no share yet
abbrev plain_item : SellerItem
plain_item = record (item 1 "3") {
  invoice = some (record { commission = none; share = none; sso = none; vat = none });
}

abbrev shown_order : SellerOrder
shown_order = record (order 1 (plain_item ∷ [])) {
  shipment_amount = rial "2";
  order_created_at = some (pos 1);
  sub_pkg_created_at = some (pos 2);
  sub_pkg_updated_at = some (pos 3);
}

-- a payment whose transfer was paid in part
abbrev shown_payment : FinancePayment
shown_payment = record {
  transfer_request = none;
  transfer_response = some (record { transfer_id = "X"; created_at = pos 4 });
  transfer_result = some (record {
    transfer_id = "X";
    total_transfer = rial "11";
    success_transfer = rial "9";
    pending_transfer = rial "0";
    failed_transfer = rial "2";
    created_at = pos 5;
    updated_at = pos 6;
  });
  status = PaymentState.partial_state;
  mode = PaymentMode.automatic;
  action = none;
  retry_request = pos 0;
  retry_result = pos 1;
  created_at = pos 4;
  updated_at = pos 6;
}

-- the second order info has an order that is not shown
abbrev shown_finance : SellerFinance
shown_finance = record (finance (info (shown_order ∷ []) ∷ info (order 2 [] ∷ []) ∷ [])) {
  payment = some shown_payment;
}

-- an order without an amount for its shipment cannot be shown
convert_finance_to_rpc-SucceedsIf_example :
    convert_finance_to_rpc format (finance (info (order 1 [] ∷ []) ∷ []) ∷ []) ≡ panic
unfolding complete_finance
convert_finance_to_rpc-SucceedsIf_example =
    convert_finance_to_rpc-SucceedsIf format (finance (info (order 1 [] ∷ []) ∷ []) ∷ [])

-- the messages of a finance that can be shown
abbrev messages : List FinanceMessage
unfolding complete_finance
messages = (convert_finance_to_rpc-SucceedsIf format (shown_finance ∷ [])).0

convert_finance_to_rpc-read_example :
    map decode_finance messages ≡ finance_view format shown_finance ∷ []
unfolding complete_finance
convert_finance_to_rpc-read_example =
    convert_finance_to_rpc-read format (shown_finance ∷ []) messages
      (convert_finance_to_rpc-SucceedsIf format (shown_finance ∷ [])).1

-- two items of one order, in a finance whose payment runs
abbrev unwound : ℕ → FinanceOrderItem
unwound sid = record {
  fid = "F";
  seller_id = 7;
  seller_info = none;
  invoice = none;
  order_info = some (record {
    order = some (record {
      oid = 1;
      roundup_shipping_net = rial "2";
      is_already_shipping_payed = false;
      item = some (item sid "3");
      order_created_at = some (pos 1);
    });
  });
  payment = none;
  status = FinanceState.payment_process;
}

abbrev outcome_or {ℓ} : {A : Type ℓ} → A → Outcome A → A
outcome_or default (ok a) = a
outcome_or default _ = default

abbrev empty_collection : ItemCollection
empty_collection = record {
  items = [];
  finance_invoice = record {
    commission = none;
    share = none;
    sso = none;
    shipment = none;
    vat = none;
  };
  seller_inf = record {
    post_code = "";
    type = "";
    shop_display_name = "";
    is_vat_obliged = false;
    finance_data = none;
  };
  payment_status = unset;
}

abbrev collection : ItemCollection
unfolding convert_order_items all_rows order_and_item item_rows calculated_rows shipment_rows
    shipment_row purchase_row has_key resolve_finance_state
collection = outcome_or empty_collection (convert_order_items format (unwound 1 ∷ unwound 2 ∷ []))

collection_test : convert_order_items format (unwound 1 ∷ unwound 2 ∷ []) ≡ ok collection
unfolding convert_order_items all_rows order_and_item item_rows calculated_rows shipment_rows
    shipment_row purchase_row has_key resolve_finance_state collection
collection_test = refl

-- two purchases and one shipment
convert_order_items_rows_example :
    (orders_of PaymentType.purchase collection.items ≡ 1 ∷ 1 ∷ [])
    × (unique (orders_of PaymentType.shipment collection.items) ≡ true)
    × ((k : ℕ)
        → has_key k (orders_of PaymentType.shipment collection.items) ≡ has_key k (1 ∷ 1 ∷ []))
convert_order_items_rows_example =
    convert_order_items_rows format (unwound 1 ∷ unwound 2 ∷ []) collection collection_test

-- a database of one finance, which is the seller's 7
abbrev stored_finances : ℕ → List SellerFinance
stored_finances uid = if uid == 7 then finance [] ∷ [] else []

abbrev sources : Sources
sources = record {
  finances_of = λ uid sort. record {
    count = value (length (stored_finances uid));
    find = λ skip limit. value (take limit (drop (pos_part skip) (stored_finances uid)));
  };
  items_of = λ fid uid sort. record { count = value 0; find = λ skip limit. value [] };
  format = format;
  marshals_finances = λ rows. true;
  marshals_items = λ c. true;
}

abbrev Owned : ℕ → List SellerFinance → Type 0
Owned uid fs = All (λ (f : SellerFinance). f.seller_id ≡ uid) fs

take-Owned : (uid limit : ℕ) (fs : List SellerFinance) → Owned uid fs → Owned uid (take limit fs)
take-Owned uid zero fs own = tt
take-Owned uid (suc n) [] own = tt
take-Owned uid (suc n) (f ∷ fs) (own, others) = (own, take-Owned uid n fs others)

drop-Owned : (uid skip : ℕ) (fs : List SellerFinance) → Owned uid fs → Owned uid (drop skip fs)
drop-Owned uid zero fs own = own
drop-Owned uid (suc n) [] own = tt
drop-Owned uid (suc n) (f ∷ fs) (own, others) = drop-Owned uid n fs others

seven : (uid : ℕ) → (uid == 7) ≡ true → 7 ≡ uid
seven uid h = ground arith

stored-Owned : (uid : ℕ) (b : Bool) → (uid == 7) ≡ b → Owned uid (if b then finance [] ∷ [] else [])
stored-Owned uid true h = (seven uid h, tt)
stored-Owned uid false h = tt

value-inj {ℓ} : {A : Type ℓ} {a b : A} → value a ≡ value b → a ≡ b
value-inj h = cc

sources-IsFiltered : IsFiltered sources
sources-IsFiltered uid sort skip limit fs h = subst (Owned uid) (value-inj h) (
    take-Owned uid limit (drop (pos_part skip) (stored_finances uid))
      (drop-Owned uid (pos_part skip) (stored_finances uid) (stored-Owned uid (uid == 7) refl)))

abbrev started : Mux Listing
started =
    (key_of "seller" "finance_order_item_list", order_item_list_handler sources)
    ∷ (key_of "seller" "finance_list", finance_list_handler sources)
    ∷ []

started_test :
    register_all (finance_list_handler sources) (order_item_list_handler sources) [] ≡ some started
unfolding register_all reg_handler lookup
started_test = refl

abbrev header : Header
header = record {
  utp = "seller";
  uid = 7;
  fid = "";
  page = 1;
  per_page = 10;
  sorts = some (record { name = ""; dir = 0 });
}

abbrev request : Request
request = record { name = "finance_list"; header = some header }

abbrev rows : List FinanceRow
unfolding resolve_finance_stat finance_row convert_finance_list traverse
rows = outcome_or [] (convert_finance_list format (finance [] ∷ []))

abbrev response : Response Listing
response = record {
  entity = "SellerFinanceListCollection";
  total = 1;
  page = 1;
  per_page = 10;
  data_value = finances rows;
}

request_test : handle_request started (value 7) request ≡ ok (value response)
unfolding handle_request authorized dispatch handle lookup finance_list_handler
    find_by_filter_with_page_and_sort find_by_filter_with_page available_pages int64
    convert_finance_list finance_row traverse resolve_finance_stat rows
request_test = refl

handle_request-OwnedBy_example :
    (uid : ℕ) × (◌≡◌ {A = Reply ℕ} (value 7) (value uid)) × OwnedBy uid (finances rows)
handle_request-OwnedBy_example =
    handle_request-OwnedBy sources sources-IsFiltered started started_test (value 7) request
      response request_test

first_handler_test :
    reg_handler [] "seller" "finance_list" (finance_list_handler sources)
    ≡ some ((key_of "seller" "finance_list", finance_list_handler sources) ∷ [])
unfolding reg_handler lookup
first_handler_test = refl

-- another handler for the same requests is refused
reg_handler-handle_example :
    (handle
        ((key_of "seller" "finance_list", finance_list_handler sources) ∷ [])
        "seller"
        "finance_list"
        request
      ≡ finance_list_handler sources request)
    × (reg_handler
          ((key_of "seller" "finance_list", finance_list_handler sources) ∷ [])
          "seller"
          "finance_list"
          (order_item_list_handler sources)
        ≡ none)
reg_handler-handle_example =
    reg_handler-handle [] ((key_of "seller" "finance_list", finance_list_handler sources) ∷ [])
      "seller" "finance_list" (finance_list_handler sources) first_handler_test "seller"
      "finance_list" request (order_item_list_handler sources)
