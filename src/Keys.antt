-- ===== src/Keys.antt =====
-- apps/api/src/keys: the key entries of the vault.
pub mod Order
pub mod Repo
