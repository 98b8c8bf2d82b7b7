-- ===== src/Authority.antt =====
-- packages/authority: the item bank, its canonical JSON, admit tokens, the offline release medium,
-- and the service with its tables: provisioning, the schedule and the release.
pub mod Bank
pub mod Json
pub mod Admit
pub mod Medium
pub mod Store
pub mod Service
pub mod Content
pub mod Release
pub mod Provision
pub mod Operations
