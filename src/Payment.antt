-- ===== src/Payment.antt =====
-- The payment scheduler: domain/scheduler/payment.
pub mod Services
pub mod Invoice
pub mod Process
pub mod Tracking
