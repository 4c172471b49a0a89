-- ===== src/Examples.antt =====
-- Concrete finances, orders and services, tests of the definitions on them, and uses of the theorems.
mod Data
mod Payment
mod Tracking
mod Order
mod Repository
mod Store
mod Scheduler
mod Missed
mod Start
mod Server
mod Documents
mod Init
