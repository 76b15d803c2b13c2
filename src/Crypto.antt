-- ===== src/Crypto.antt =====
-- kernel/src/crypto.rs: SHA-256, HMAC-SHA-256 and the constant-time comparison.
pub mod Sha256
pub mod Hmac
pub mod ConstTime
mod Tests
