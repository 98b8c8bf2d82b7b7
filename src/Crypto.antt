-- ===== src/Crypto.antt =====
-- packages/crypto: hashing and signatures over libsodium, ciphertext envelopes, keys and shares.
pub mod Sodium
pub mod Hash
pub mod Aead
pub mod Box
pub mod KekEngine
pub mod Xor
pub mod Gf256
pub mod Field
pub mod Share
pub mod Shamir
