-- ===== src/Examples/Data.antt =====
-- The data of the tests: decimals as whole numbers, a finance of two orders, and services.
use finance_service.Base.{
  ℕ, zero, suc, ◌+◌, ◌≡◌, refl, ◌&&◌, Bool, true, false, Option, none, some, String, List, [], ◌∷◌,
  ◌==◌, if◌then◌else◌, arith,
}
use finance_service.Base.Int.{pos}
use finance_service.Base.Text.{itoa}
use finance_service.Base.Outcome.{ErrorCode, Reply, value, failure}
use finance_service.Entities.{
  Money, SellerItem, SellerOrder, OrderInfo, SellerProfile, FinanceState, PaymentMode,
  SellerFinance, TriggerRunMode, TriggerExecResult, TriggerHistory,
}
use finance_service.Decimals.{Decimals, IsExact}
use finance_service.Payment.Services.{Services, PaymentResponse, TransferMoneyResult}
use text.Mathlib.Text.{◌==◌ as str_eq}

-- the number below the bound whose text this is
abbrev pub find_number : ℕ → String → Option ℕ
find_number zero t = none
find_number (suc k) t =
    let rest = find_number k t in if str_eq (itoa (pos k)) t then some k else rest

instance unfoldable pub whole_numbers : Decimals ℕ
unfolding itoa
whole_numbers = record {
  zero = 0;
  add = λ x y. x + y;
  is_zero = λ x. x == 0;
  parse = find_number 20;
  print = λ x. itoa (pos x);
}

pub whole_numbers-IsExact : IsExact ℕ
unfolding whole_numbers
whole_numbers-IsExact = record {
  zero-add = λ x. omega arith;
  add-zero = λ x. omega arith;
  add_assoc = λ x y z. omega arith;
  is_zero_iff = λ x. ground arith;
}

abbrev pub rial : String → Option Money
rial amount = some (record { amount = amount; currency = "IRR" })

abbrev pub profile : SellerProfile
profile = record {
  seller_id = pos 7;
  general_info = some (record {
    shop_display_name = "shop";
    type = "";
    email = "";
    land_phone = "";
    mobile_phone = "";
    website = "";
    province = "";
    city = "";
    neighborhood = "";
    postal_address = "";
    postal_code = "";
    is_vat_obliged = true;
    vat_certification_image_url = "";
  });
  finance_data =
      some
        (record { iban = "IR1"; account_holder_first_name = ""; account_holder_family_name = "" });
  created_at = pos 0;
  updated_at = pos 0;
}

-- an item with this seller's share
abbrev pub item : ℕ → String → SellerItem
item sid share = record {
  sid = sid;
  sku = "";
  inventory_id = "";
  title = "";
  brand = "";
  guaranty = "";
  category = "";
  image = "";
  returnable = false;
  quantity = pos 1;
  attributes = [];
  invoice = some (record {
    -- a commission of 1.0
    commission = some (record {
      item_commission = 0x3f80_0000;
      raw_unit_price = none;
      roundup_unit_price = none;
      raw_total_price = rial "1";
      roundup_total_price = rial "1";
    });
    share = some (record {
      raw_item_net = none;
      roundup_item_net = none;
      raw_total_net = none;
      roundup_total_net = none;
      raw_unit_seller_share = none;
      roundup_unit_seller_share = none;
      raw_total_seller_share = rial share;
      roundup_total_seller_share = rial share;
    });
    sso = some (record {
      rate = 0;
      is_obliged = false;
      raw_unit_price = none;
      roundup_unit_price = none;
      raw_total_price = rial "2";
      roundup_total_price = rial "2";
    });
    vat = some (record {
      rate = 0;
      is_obliged = true;
      raw_unit_price = none;
      roundup_unit_price = none;
      raw_total_price = rial "1";
      roundup_total_price = rial "1";
    });
  });
}

abbrev pub order : ℕ → List SellerItem → SellerOrder
order oid items = record {
  id = 0;
  oid = oid;
  fid = "F";
  seller_id = 7;
  shipment_amount = none;
  raw_shipping_net = rial "2";
  roundup_shipping_net = rial "2";
  is_already_shipping_payed = false;
  items = items;
  order_created_at = none;
  sub_pkg_created_at = none;
  sub_pkg_updated_at = none;
  deleted_at = none;
}

abbrev pub info : List SellerOrder → OrderInfo
info orders = record { trigger_name = "T"; trigger_history_id = some 5; orders = orders }

-- a finance that collects orders in the window from 10 to 20, in automatic mode
abbrev pub finance : List OrderInfo → SellerFinance
finance infos = record {
  id = 1;
  fid = "F";
  seller_id = 7;
  version = 0;
  doc_version = "";
  seller_info = some profile;
  invoice = none;
  orders_info = infos;
  payment = none;
  payment_mode = PaymentMode.automatic;
  payment_history = [];
  status = FinanceState.order_collection;
  start_at = some (pos 10);
  end_at = some (pos 20);
  created_at = pos 10;
  updated_at = pos 10;
  deleted_at = none;
}

-- two orders: the shares 3 and 4, and twice the shipping fee 2
abbrev pub two_orders : SellerFinance
two_orders = finance (info (order 1 (item 1 "3" ∷ []) ∷ order 2 (item 2 "4" ∷ []) ∷ []) ∷ [])

abbrev pub history : TriggerHistory
history = record {
  id = 5;
  trigger_name = "T";
  version = 0;
  doc_version = "";
  exec_result = TriggerExecResult.success;
  run_mode = TriggerRunMode.complete;
  triggered_at = some (pos 20);
  is_missed_fire = false;
  action = none;
  action_history = [];
  retry_index = 0;
  finances = [];
  created_at = pos 20;
  updated_at = pos 20;
  deleted_at = none;
}

-- services whose payment service gives these two replies
abbrev pub services : Reply PaymentResponse → Reply TransferMoneyResult → Services
services asked polled = record {
  clock = λ n. pos (30 + n);
  transfer = λ _. asked;
  transfer_result = λ _ _. polled;
  profile = λ _. value profile;
  history = λ _. value history;
  save = λ f. value f;
  retry_request_limit = pos 2;
  retry_result_limit = pos 2;
}

abbrev pub response : PaymentResponse
response = record { transfer_id = "X"; fid = "F" }

-- a result with this total, and these pending and failed amounts
abbrev pub transferred : ℕ → ℕ → ℕ → TransferMoneyResult
transferred total pending failed = record {
  fid = "F";
  transfer_id = "X";
  total = pos total;
  pending = pos pending;
  failed = pos failed;
  currency = "IRR";
}

-- everything is accepted, and paid at the first poll
abbrev pub paying : Services
paying = services (value response) (value (transferred 11 0 0))

-- the payment service refuses every request
abbrev pub refusing : Services
refusing = services (failure ErrorCode.internal_error) (failure ErrorCode.not_found)

pub both_true : (a b : Bool) → (a && b) ≡ true → (a ≡ true) × (b ≡ true)
both_true true true e = (refl, refl)
both_true true false e = cc
both_true false b e = cc
