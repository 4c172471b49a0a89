-- ===== src/Repository.antt =====
-- The repositories over MongoDB: domain/model/repository. The driver is a parameter.
pub mod Paging
pub mod Triggers
pub mod Finances
pub mod Documents
