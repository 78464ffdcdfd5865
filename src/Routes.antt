-- ===== src/Routes.antt =====
-- The handlers of apps/api/src/routes.
pub mod Request
pub mod Proof
pub mod Login
pub mod Vault
pub mod Entries
pub mod Writes
pub mod Kdf
pub mod Validate
pub mod Setup
pub mod Rekey
pub mod Bodies
pub mod Checks
