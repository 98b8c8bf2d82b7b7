-- ===== src/Log.antt =====
-- packages/log: the transparency log.
pub mod Canonical
pub mod Types
pub mod Fields
pub mod Merkle
pub mod Store
pub mod Verify
