-- ===== src/Examples/Order.antt =====
-- Tests and uses of the theorems on the order scheduler.
use finance_service.Base.{
  ℕ, length, min, ◌≡◌, ◌≢◌, ◌==◌, refl, true, false, Option, some, none, List, [], ◌∷◌, All, arith,
  inl, if◌then◌else◌, replicate,
}
use finance_service.Base.Int.{pos, ◌+ℤ◌, ◌-ℤ◌}
use finance_service.Base.Outcome.{ErrorCode, ok, panic, Reply, value, failure}
use finance_service.Entities.{
  FinanceState, OrderInfo, SellerOrder, SellerFinance, TriggerRunMode, TriggerExecResult,
}
use finance_service.Order.Results.{FuncType, ErrorType, ProcessResult, order_scheduler_history}
use finance_service.Order.Results.Summary.{
  fids_of, before_break, has_break, order_scheduler_history_lem,
}
use finance_service.Order.Merge.{OrderServices, Merged, merge_order, create_update_finance}
use finance_service.Order.Merge.Items.{merge_order-known, added_orders}
use finance_service.Order.Merge.Open.{
  run_info, is_value, IsAdded, create_update_finance-open, create_update_finance-new,
}
use finance_service.Order.Reduce.{OrderCounts, Collected, reduce_orders}
use finance_service.Order.Reduce.Checked.{IsChecked, reduce_orders-IsChecked}
use finance_service.Order.FanOut.{fan_out_orders}
use finance_service.Order.FanOut.Grouped.{IsGrouped, fan_out_orders-IsGrouped}
use finance_service.Pipelines.{FanOut, fan_out_pipelines}
use finance_service.Pipelines.Shared.{all_of, fan_out_pipelines_lem}
use mathlib.Core.List.{Perm}
use finance_service.Examples.Data.{profile, item, order, info, finance, history}

-- the first run's order 1 is stored with item 1; a later run brings items 2 and 3 of it
abbrev stored : List OrderInfo
stored = info (order 1 (item 1 "3" ∷ []) ∷ []) ∷ []

abbrev late : SellerOrder
late = order 1 (item 1 "3" ∷ item 2 "4" ∷ item 3 "5" ∷ [])

merge_order-known_example :
    merge_order "F" stored late ≡ replicate 2 (record late { items = item 3 "5" ∷ []; fid = "F" })
merge_order-known_example =
    merge_order-known "F" stored late (order 1 (item 1 "3" ∷ [])) [] (item 2 "4") (item 3 "5" ∷ [])
      refl refl

-- services that find these finances
abbrev services : Reply (List SellerFinance) → OrderServices
services found = record {
  timestamp = pos 15;
  found = found;
  profile = λ _. value profile;
  save = λ f. value f;
  trigger_history = history;
  finance_trigger_interval = pos 5;
  finance_trigger_duration = pos 10;
  default_payment_mode = "AUTOMATIC";
}

-- an open finance behind one whose window is over
abbrev over : SellerFinance
over = record (finance []) { end_at = some (pos 14) }

abbrev two_found : OrderServices
two_found = services (value (over ∷ finance stored ∷ []))

create_update_finance-open_example :
    (m : Merged) × (create_update_finance two_found (finance (info (late ∷ []) ∷ [])) ≡ ok m)
    × ((o : SellerOrder) (os : List SellerOrder)
        → added_orders "F" stored (late ∷ []) ≡ o ∷ os
        → IsAdded two_found (finance stored) (o ∷ os) m)
    × (added_orders "F" stored (late ∷ []) ≡ [] → (m.saves ≡ []) × (m.outcome.result ≡ false))
create_update_finance-open_example =
    create_update_finance-open two_found (finance (info (late ∷ []) ∷ [])) (finance stored)
      (over ∷ finance stored ∷ []) (info (late ∷ [])) [] refl ((_, refl), ((_, refl), tt)) refl refl

abbrev none_found : OrderServices
none_found = services (failure ErrorCode.not_found)

create_update_finance-new_example :
    (m : Merged) × (g : SellerFinance) × (create_update_finance none_found
        (finance (info (late ∷ []) ∷ []))
      ≡ ok m)
    × (m.saves ≡ g ∷ [])
    × (m.outcome.result ≡ is_value (none_found.save g))
    × (g.seller_id ≡ 7)
    × (g.status ≡ FinanceState.order_collection)
    × (g.orders_info ≡ run_info none_found (late ∷ []) ∷ [])
    × (g.start_at ≡ some (pos 20 -ℤ pos 5))
    × (g.end_at ≡ some (pos 20 -ℤ pos 5 +ℤ pos 10))
create_update_finance-new_example =
    create_update_finance-new none_found (finance (info (late ∷ []) ∷ [])) (pos 20)
      (info (late ∷ [])) [] (inl refl) refl refl

-- no finance holds the orders, and item 1 alone is stored
abbrev counts : OrderCounts
counts = record {
  count_orders = λ _ _. value (pos 0);
  count_items = λ _ _ sid. if sid == 1 then value (pos 1) else value (pos 0);
  prevent_duplicates = true;
}

abbrev reduced : Collected
reduced = record { seller_id = 7; orders = order 1 (item 2 "4" ∷ item 3 "5" ∷ []) ∷ [] }

reduce_test :
    reduce_orders counts ((false, late) ∷ (false, order 2 (item 1 "3" ∷ [])) ∷ []) ≡ inl reduced
unfolding reduce_orders
reduce_test = refl

reduce_orders-IsChecked_example : (reduced.orders ≢ []) × All (IsChecked counts 7) reduced.orders
reduce_orders-IsChecked_example =
    reduce_orders-IsChecked counts ((false, late) ∷ (false, order 2 (item 1 "3" ∷ [])) ∷ []) reduced
      reduce_test

-- a success, a dropped finance, a failure of the database, and a success that is not read any more
abbrev result : Option SellerFinance → ErrorType → ProcessResult
result f e = record {
  function = FuncType.create_update_finance_fn;
  seller_finance = f;
  err_type = e;
  result = elim f [ some _ ↦ true | none ↦ false ];
}

abbrev results : List ProcessResult
results =
    result (some (finance [])) ErrorType.no_error
    ∷ result none ErrorType.data_error
    ∷ result none ErrorType.database_error
    ∷ result (some (finance [])) ErrorType.no_error
    ∷ []

order_scheduler_history_lem_example :
    let g = order_scheduler_history history results in
    (g.finances ≡ fids_of (before_break results))
    × (g.run_mode ≡ TriggerRunMode.complete)
    × (g.exec_result
        ≡ (if has_break results then TriggerExecResult.fail else TriggerExecResult.success))
order_scheduler_history_lem_example = order_scheduler_history_lem history results

history_test : (order_scheduler_history history results).finances ≡ "F" ∷ []
unfolding order_scheduler_history
history_test = refl

-- orders of two sellers
abbrev seller_orders : List SellerOrder
seller_orders = order 1 [] ∷ record (order 2 []) { seller_id = 8 } ∷ order 3 [] ∷ []

fan_out_test :
    fan_out_orders seller_orders
    ≡ (7, order 1 [] ∷ order 3 [] ∷ []) ∷ (8, record (order 2 []) { seller_id = 8 } ∷ []) ∷ []
unfolding fan_out_orders
fan_out_test = refl

fan_out_orders-IsGrouped_example : IsGrouped seller_orders (fan_out_orders seller_orders)
fan_out_orders-IsGrouped_example = fan_out_orders-IsGrouped seller_orders

abbrev numbers : List ℕ
numbers = 1 ∷ 2 ∷ 3 ∷ []

fan_out_pipelines_test :
    fan_out_pipelines 2 numbers
    ≡ ok (record { channels = (1 ∷ 3 ∷ []) ∷ (2 ∷ []) ∷ []; index = 1; init_index = 2 })
unfolding fan_out_pipelines
fan_out_pipelines_test = refl

-- no channel can be made
no_channel_test : fan_out_pipelines {A = ℕ} 0 (1 ∷ []) ≡ panic
unfolding fan_out_pipelines
no_channel_test = refl

fan_out_pipelines_lem_example :
    (f : FanOut ℕ) × (fan_out_pipelines 2 numbers ≡ ok f)
    × Perm (all_of f.channels) numbers
    × (length f.channels ≡ min 2 (length numbers))
fan_out_pipelines_lem_example = fan_out_pipelines_lem 2 numbers (omega arith)
