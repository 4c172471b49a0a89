-- ===== src/Order.antt =====
-- The order scheduler: domain/scheduler/order.
pub mod FanOut
pub mod Results
pub mod Merge
pub mod Reduce
