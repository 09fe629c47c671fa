-- ===== src/Federation.antt =====
-- internal/federation: versioned policies held by several regions, their routing, and the
-- replication that makes the regions agree.
pub mod Store
pub mod Regions
pub mod Transport
pub mod Replicator
pub mod Member
mod Tests
