-- ===== src/Coordination.antt =====
-- internal/distributed/coordination/coordination.go: leader election after Raft, and the
-- distribution of work by the leader. `Node` has the state of one node and how it stands for
-- election, `Receive` its handlers and its tick, `Work` the assignment of work, and `Cluster` the
-- nodes together with every message ever sent.
pub mod Node
pub mod Receive
pub mod Work
pub mod Cluster
pub mod Election
pub mod Deal
pub mod Quorum
mod Tests
