-- ===== src/Auth.antt =====
-- apps/api/src/auth: who may do what with the vault.
pub mod Throttle
pub mod Sessions
pub mod SetupToken
pub mod Challenges
pub mod Vault
pub mod Claim
pub mod Rotation
