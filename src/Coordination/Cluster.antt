-- ===== src/Coordination/Cluster.antt =====
-- internal/distributed/coordination/coordination.go: the nodes of `NewCluster` together. The
-- network is the list of all messages ever sent: each may be received by the node that it names
-- late, never, or more than once, and in any order, as under `Partition`, `Isolate` and `Heal`.
use symkernel.Base.{ℕ, ◌<◌, List, [], ◌++◌, String, Elem, str_dec, ite, not, str_is, keep_if}
use symkernel.Base.Int.{pos}
use symkernel.Base.Sort.{sort_strings}
use symkernel.Coordination.Node.{Node, NodeConfig, Message, new_node}
use symkernel.Coordination.Receive.{receive, run_tick, drain_inbox}
use symkernel.Coordination.Work.{assign}

pub record System : Type 0 where
  pub nodes : String → Node
  pub sent : List Message

abbrev pub update {ℓ} : {A : Type ℓ} → (String → A) → String → A → String → A
update f i a j = ite (str_dec i j) a (f j)

-- The peers that `NewCluster` gives to a node.
unfoldable pub peers_of : List String → String → List String
peers_of ids id = sort_strings (keep_if (λ other. not (str_is other id)) ids)

unfoldable pub cluster_config : List String → String → NodeConfig
unfolding peers_of
cluster_config ids id = record {
  id = id;
  peers = peers_of ids id;
  heartbeat_ticks = pos 0;
  election_ticks_min = pos 0;
  election_ticks_max = pos 0;
  quorum_loss_ticks = pos 0;
  quorum_ack_ticks = pos 0;
}

unfoldable pub new_cluster : List String → (String → ℕ) → System
unfolding cluster_config
new_cluster ids draws = record {
  nodes = λ id. new_node (cluster_config ids id) (draws id);
  sent = [];
}

-- What can happen next: a message arrives, a node ticks, or a node is asked to assign work. A
-- tick happens only where the term, a uint64, is not about to wrap.
pub data Step (ids : List String) (s : System) : System → Type 0 where
  arrives :
      (m : Message)
      → Elem m s.sent
      → Step ids s (record s { nodes = update s.nodes m.to (receive (s.nodes m.to) m) })
  ticks :
      (i : String) (draw : ℕ)
      → Elem i ids
      → (drain_inbox (s.nodes i)).current_term < 18_446_744_073_709_551_615
      → Step ids s (record {
        nodes = update s.nodes i (run_tick (s.nodes i) draw).0;
        sent = s.sent ++ (run_tick (s.nodes i) draw).1;
      })
  assigns : (i : String) → Step ids s (record s { nodes = update s.nodes i (assign (s.nodes i)).0 })

pub data Reach (ids : List String) (draws : String → ℕ) : System → Type 0 where
  start : Reach ids draws (new_cluster ids draws)
  later : {s t : System} → Reach ids draws s → Step ids s t → Reach ids draws t
