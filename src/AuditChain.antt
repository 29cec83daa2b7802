-- ===== src/AuditChain.antt =====
-- The hash-linked audit log, packages/audit-chain/src: each child is about one of its files, and the
-- children of those hold the proofs.
pub mod Platform
pub mod Json
pub mod Canonical
pub mod Store
pub mod Append
pub mod Chain
pub mod Verify
pub mod Offline
pub mod Demo
mod Tests
