-- ===== src/Approval.antt =====
-- Held requests and their decisions: apps/api/src/approval/approval.service.ts.
pub mod Pending
pub mod Store
pub mod Service
pub mod Quorum
pub mod Moves
pub mod Laws
pub mod History
pub mod Entries
pub mod Votes
mod Tests
