-- ===== src/Web.antt =====
-- The browser's own logic, of apps/web/src.
pub mod Guards
pub mod EntryOrder
pub mod RecoverySession
pub mod Rekey
pub mod Filter
pub mod Operations
