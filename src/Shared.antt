-- ===== src/Shared.antt =====
-- packages/shared/src: what the server and the browser share.
pub mod Bytes
pub mod Proof
pub mod Text
pub mod Fields
pub mod RecoveryCode
