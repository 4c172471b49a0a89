-- ===== src/Examples/Payment.antt =====
-- Tests and uses of the theorems on the invoice and the payment process.
use finance_service.Base.{ℕ, ◌≡◌, refl, true, false, some, none, List, [], ◌∷◌, All}
use finance_service.Base.Int.{pos}
use finance_service.Base.Float.{is_positive}
use finance_service.Base.Outcome.{ErrorCode, ok, panic, value, failure}
use finance_service.Base.Text.{itoa}
use finance_service.Entities.{Invoice, FinanceState, FinancePayment, SellerFinance}
use finance_service.Calculation.{
  SellerFinanceCalc, SellerItemCalc, SellerOrderCalc, finance_calc_factory,
  convert_to_seller_finance, invoice_of,
}
use finance_service.Payment.Services.{Services, PaymentRequest, payment_type_text}
use finance_service.Payment.Invoice.{
  Totals, calculate_totals, set_totals, finance_invoice_calculation,
}
use finance_service.Payment.Invoice.Due.{due_totals}
use finance_service.Payment.Invoice.Sums.{expected_totals}
use finance_service.Payment.Invoice.Recorded.{
  recorded, finance_invoice_calculation_lem, finance_invoice_calculation_idem,
}
use finance_service.Payment.Process.{
  saved, started_payment, finance_start_payment_process, start_if_automatic, execute_pipeline,
  finance_trigger_validation,
}
use finance_service.Payment.Process.Stored.{IsCollected, execute_pipeline-IsCollected}
use finance_service.Payment.Process.Requested.{
  IsRequested, execute_pipeline_pays, zero_share_panics,
}
use finance_service.Examples.Data.{
  two_orders, whole_numbers, whole_numbers-IsExact, rial, info, finance, paying, refusing, response,
}

-- each of the ten totals of the two orders
abbrev two_orders_totals : Totals ℕ
two_orders_totals = record {
  sso_raw = 0;
  sso_roundup = 0;
  vat_raw = 2;
  vat_roundup = 2;
  commission_raw = 2;
  commission_roundup = 2;
  share_raw = 11;
  share_roundup = 11;
  shipment_raw = 4;
  shipment_roundup = 4;
}

abbrev item_calc : ℕ → ℕ → SellerItemCalc ℕ
item_calc sid share = record {
  sid = sid;
  inventory_id = "";
  quantity = pos 1;
  invoice = record {
    commission = some (record {
      item_commission = 0x3f80_0000;
      raw_unit_price = none;
      roundup_unit_price = none;
      raw_total_price = some 1;
      roundup_total_price = some 1;
    });
    share = some (record {
      raw_item_net = none;
      roundup_item_net = none;
      raw_total_net = none;
      roundup_total_net = none;
      raw_unit_seller_share = none;
      roundup_unit_seller_share = none;
      raw_total_seller_share = some share;
      roundup_total_seller_share = some share;
    });
    sso = some (record {
      rate = 0;
      is_obliged = false;
      raw_unit_price = none;
      roundup_unit_price = none;
      raw_total_price = some 2;
      roundup_total_price = some 2;
    });
    vat = some (record {
      rate = 0;
      is_obliged = true;
      raw_unit_price = none;
      roundup_unit_price = none;
      raw_total_price = some 1;
      roundup_total_price = some 1;
    });
  };
}

abbrev order_calc : ℕ → List (SellerItemCalc ℕ) → SellerOrderCalc ℕ
order_calc oid items = record {
  oid = oid;
  seller_id = 7;
  shipment_amount = none;
  raw_shipping_net = some 2;
  roundup_shipping_net = some 2;
  is_already_shipping_payed = false;
  items = items;
}

abbrev two_orders_calc : SellerFinanceCalc ℕ
two_orders_calc = record {
  fid = "F";
  seller_id = 7;
  invoice = none;
  orders_info =
      record {
        trigger_name = "T";
        trigger_history = 5;
        orders = order_calc 1 (item_calc 1 3 ∷ []) ∷ order_calc 2 (item_calc 2 4 ∷ []) ∷ [];
      }
      ∷ [];
}

factory_test : finance_calc_factory two_orders ≡ ok two_orders_calc
unfolding finance_calc_factory whole_numbers
factory_test = refl

totals_test : calculate_totals two_orders_calc ≡ ok two_orders_totals
unfolding calculate_totals whole_numbers is_positive
totals_test = refl

-- the finance with its invoice
abbrev two_orders_invoice : Invoice
two_orders_invoice = record {
  sso_raw_total = none;
  sso_roundup_total = none;
  vat_raw_total = rial "2";
  vat_roundup_total = rial "2";
  commission_raw_total = rial "2";
  commission_roundup_total = rial "2";
  share_raw_total = rial "11";
  share_roundup_total = rial "11";
  shipment_raw_total = rial "4";
  shipment_roundup_total = rial "4";
}

abbrev pub invoiced : SellerFinance
invoiced = record two_orders { invoice = some two_orders_invoice }

invoice_test : finance_invoice_calculation ℕ two_orders ≡ ok invoiced
unfolding finance_invoice_calculation finance_calc_factory calculate_totals set_totals
    convert_to_seller_finance whole_numbers is_positive itoa
invoice_test = refl

finance_invoice_calculation_lem_example : invoiced ≡ record two_orders {
  invoice = some (recorded (due_totals {D = ℕ} two_orders.orders_info) (invoice_of two_orders));
}
finance_invoice_calculation_lem_example =
    finance_invoice_calculation_lem whole_numbers-IsExact two_orders invoiced invoice_test

finance_invoice_calculation_idem_example : finance_invoice_calculation ℕ invoiced ≡ ok invoiced
finance_invoice_calculation_idem_example =
    finance_invoice_calculation_idem ℕ two_orders invoiced invoice_test

-- the payment of the finance was started
abbrev pub request : PaymentRequest
request = record {
  fid = "F";
  seller_id = 7;
  amount = "11";
  currency = "IRR";
  receiver_name = "shop";
  receiver_account_id = "IR1";
  payment_description = "F-bazlia";
  payment_type = finance_service.Payment.Services.PaymentType.seller_payment;
}

abbrev with_payment : FinancePayment → SellerFinance
with_payment p = record invoiced {
  status = FinanceState.payment_process;
  payment = some p;
  updated_at = pos 31;
}

abbrev pub started : SellerFinance
started = with_payment (started_payment paying invoiced request (value response))

abbrev pub refused : SellerFinance
refused =
    with_payment (started_payment refusing invoiced request (failure ErrorCode.internal_error))

pub start_test : finance_start_payment_process paying invoiced ≡ ok started
unfolding finance_start_payment_process
start_test = refl

pub refused_test : finance_start_payment_process refusing invoiced ≡ ok refused
unfolding finance_start_payment_process
refused_test = refl

pipeline_test : execute_pipeline ℕ paying two_orders ≡ ok (saved started started)
unfolding execute_pipeline finance_trigger_validation start_if_automatic
    finance_start_payment_process finance_invoice_calculation finance_calc_factory calculate_totals
    set_totals convert_to_seller_finance whole_numbers is_positive itoa
pipeline_test = refl

execute_pipeline_pays_example :
    (q : PaymentRequest) × IsRequested paying started q
    × (let total = (due_totals {D = ℕ} two_orders.orders_info).share_roundup in
        whole_numbers.is_zero total ≡ false
        → (q.fid ≡ "F")
          × (q.seller_id ≡ 7)
          × (q.amount ≡ whole_numbers.print total)
          × (q.currency ≡ "IRR"))
execute_pipeline_pays_example =
    execute_pipeline_pays whole_numbers-IsExact paying two_orders started (saved started started)
      pipeline_test refl refl

execute_pipeline-IsCollected_example : All (IsCollected paying) two_orders.orders_info
execute_pipeline-IsCollected_example =
    execute_pipeline-IsCollected ℕ paying two_orders started (saved started started) pipeline_test
      refl

-- an order with no amounts of the seller
abbrev nothing : SellerFinance
nothing = finance (info [] ∷ [])

abbrev nothing_calc : SellerFinanceCalc ℕ
nothing_calc = record {
  fid = "F";
  seller_id = 7;
  invoice = none;
  orders_info = record { trigger_name = "T"; trigger_history = 5; orders = [] } ∷ [];
}

abbrev nothing_invoiced : SellerFinance
nothing_invoiced = record nothing {
  invoice = some (record {
    sso_raw_total = none;
    sso_roundup_total = none;
    vat_raw_total = none;
    vat_roundup_total = none;
    commission_raw_total = none;
    commission_roundup_total = none;
    share_raw_total = none;
    share_roundup_total = none;
    shipment_raw_total = none;
    shipment_roundup_total = none;
  });
}

nothing_factory_test : finance_calc_factory nothing ≡ ok nothing_calc
unfolding finance_calc_factory
nothing_factory_test = refl

nothing_invoice_test : finance_invoice_calculation ℕ nothing ≡ ok nothing_invoiced
unfolding finance_invoice_calculation finance_calc_factory calculate_totals set_totals
    convert_to_seller_finance whole_numbers
nothing_invoice_test = refl

nothing_total_test : (expected_totals nothing_calc.orders_info).share_roundup ≡ whole_numbers.zero
unfolding whole_numbers
nothing_total_test = refl

zero_share_panics_example :
    start_if_automatic paying nothing_invoiced.payment_mode nothing_invoiced ≡ panic
zero_share_panics_example =
    zero_share_panics whole_numbers-IsExact paying nothing nothing_invoiced nothing_calc refl refl
      nothing_factory_test nothing_total_test nothing_invoice_test
