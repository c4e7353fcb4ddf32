-- ===== src/Audit.antt =====
-- The audit log, apps/api/src/audit: its rows, their hashes and the chain that they make.
pub mod Canonical
pub mod Payload
pub mod Store
pub mod Record
pub mod Verify
pub mod Chain
pub mod Browse
mod Tests
