-- ===== src/Coordination/Election.antt =====
-- Why a cluster of internal/distributed/coordination has one leader in a term: what a node does
-- within a tick, what holds of all nodes and messages, and the counting of votes.
pub mod During
pub mod Handlers
pub mod Timers
pub mod Invariant
pub mod Steps
pub mod Start
pub mod Majority
pub mod Safety
