-- ===== src/Order/FanOut.antt =====
-- fanOutOrders of domain/scheduler/order/orderTask.go: the orders of each seller go to a pipeline of
-- their own. A channel is the list of what is sent to it. That the context ends changes nothing, since
-- `break` leaves only the select.
pub mod Grouped
use finance_service.Base.{ℕ, List, [], ◌∷◌, ◌++◌, ◌==◌, if◌then◌else◌}
use finance_service.Entities.{SellerOrder}

-- sellerStreamMap, in the order in which the pipelines are sent on
abbrev pub SellerStreams : Type 0
SellerStreams = List (ℕ × List SellerOrder)

-- a round of the loop
unfoldable pub send_order : SellerOrder → SellerStreams → SellerStreams
send_order order [] = (order.seller_id, order ∷ []) ∷ []
send_order order ((id, stream) ∷ streams) =
    let rest = send_order order streams in
    if id == order.seller_id then (id, stream ++ (order ∷ [])) ∷ streams else (id, stream) ∷ rest

-- the loop, with the streams so far
unfoldable pub send_orders : SellerStreams → List SellerOrder → SellerStreams
unfolding send_order
send_orders streams [] = streams
send_orders streams (order ∷ orders) = send_orders (send_order order streams) orders

unfoldable pub fan_out_orders : List SellerOrder → SellerStreams
unfolding send_orders
fan_out_orders orders = send_orders [] orders
