-- ===== src/Aead.antt =====
-- Authenticated encryption: the ChaCha20 block function, HKDF and the encrypt-then-HMAC
-- construction of kernel/src/crypto_aead.rs, and ChaCha20-Poly1305 of kernel/src/poly1305.rs.
pub mod ChaCha
pub mod Hkdf
pub mod Xor
pub mod EncryptHmac
pub mod Sealed
mod Tests
