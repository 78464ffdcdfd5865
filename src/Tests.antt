-- ===== src/Tests.antt =====
-- Concrete runs that the theorems apply to.
pub mod Fixtures
pub mod Shared
pub mod Auth
pub mod Vault
pub mod Setup
pub mod Fields
pub mod Web
