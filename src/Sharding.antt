-- ===== src/Sharding.antt =====
-- internal/distributed/sharding: the consistent-hashing ring and the node manager over it.
pub mod Ring
pub mod NodeManager
mod Tests
