-- ===== src/Coordination/Node.antt =====
-- internal/distributed/coordination/coordination.go: one node. The mutex makes each method one
-- step. `term` and `tick` are uint64 and wrap; the other counters are ints that stay small. A
-- timeout is drawn by an argument `draw`, from which `IntN(span)` is the remainder.
use symkernel.Base.{
  ℕ, zero, suc, ◌+◌, ◌-◌, ◌/◌, ◌%◌, List, [], ◌∷◌, ◌++◌, Bool, false, String, leb, if◌then◌else◌,
  length, str_is,
}
use symkernel.Base.Int.{ℤ, pos, negsuc}
use symkernel.Base.Sort.{sort_strings}

pub data Role : Type 0 where
  follower candidate leader : Role

pub data MessageType : Type 0 where
  request_vote request_vote_resp append_entries append_entries_resp : MessageType

pub record Message : Type 0 where
  pub kind : MessageType
  pub term : ℕ
  pub from : String
  pub to : String
  pub vote_granted : Bool
  pub success : Bool
  pub leader_id : String

-- The fields of `NodeConfig` that a node reads after `NewNode` has set the defaults; the tick
-- interval and the random generator drive the node from outside.
pub record NodeConfig : Type 0 where
  pub id : String
  pub peers : List String
  pub heartbeat_ticks : ℤ
  pub election_ticks_min : ℤ
  pub election_ticks_max : ℤ
  pub quorum_loss_ticks : ℤ
  pub quorum_ack_ticks : ℤ

-- The same timing after `NewNode`, where every field is positive.
pub record Timing : Type 0 where
  pub heartbeat : ℕ
  pub election_min : ℕ
  pub election_max : ℕ
  pub quorum_loss : ℕ
  pub quorum_ack : ℕ

-- `votes` is the key set of the Go map, whose values are all true. A nil map is an empty one:
-- `votes` is written by candidates and `acks` by leaders only, and each is made on entry.
pub record Node : Type 0 where
  pub timing : Timing
  pub id : String
  pub peers : List String
  pub members : List String
  pub role : Role
  pub current_term : ℕ
  pub voted_for : String
  pub leader_id : String
  pub election_timeout : ℕ
  pub election_elapsed : ℕ
  pub votes : List String
  pub heartbeat_elapsed : ℕ
  pub acks : List (String × ℕ)
  pub quorum_miss_ticks : ℕ
  pub rr_index : ℕ
  pub node_load : List (String × ℕ)
  pub tick : ℕ
  pub inbox : List Message
  pub outbox : List Message

abbrev pub wrap64 : ℕ → ℕ
wrap64 x = x % 18_446_744_073_709_551_616

-- An int that falls back to a default when it is zero or negative.
abbrev pub or_default : ℤ → ℕ → ℕ
or_default (pos (suc n)) d = suc n
or_default (pos zero) d = d
or_default (negsuc n) d = d

-- `ElectionTicksMax`, against the minimum that is already set.
abbrev pub max_or_default : ℤ → ℕ → ℕ
max_or_default hi lo = elim hi [ pos n ↦ if leb n lo then lo + 7 else n | negsuc n ↦ lo + 7 ]

unfoldable pub timing_of : NodeConfig → Timing
timing_of c =
    let lo = or_default c.election_ticks_min 8 in
    record {
      heartbeat = or_default c.heartbeat_ticks 1;
      election_min = lo;
      election_max = max_or_default c.election_ticks_max lo;
      quorum_loss = or_default c.quorum_loss_ticks 5;
      quorum_ack = or_default c.quorum_ack_ticks 3;
    }

unfoldable pub pick_timeout : Timing → ℕ → ℕ
pick_timeout t draw =
    if leb t.election_max t.election_min
    then t.election_min
    else t.election_min + draw % (t.election_max - t.election_min)

unfoldable pub new_node : NodeConfig → ℕ → Node
unfolding timing_of pick_timeout
new_node c draw =
    let timing = timing_of c in
    let members = sort_strings (c.id ∷ c.peers) in
    record {
      timing = timing;
      id = c.id;
      peers = c.peers;
      members = members;
      role = follower;
      current_term = 0;
      voted_for = "";
      leader_id = "";
      election_timeout = pick_timeout timing draw;
      election_elapsed = 0;
      votes = [];
      heartbeat_elapsed = 0;
      acks = [];
      quorum_miss_ticks = 0;
      rr_index = length members - 1;
      node_load = [];
      tick = 0;
      inbox = [];
      outbox = [];
    }

abbrev pub majority_of : ℕ → ℕ
majority_of n = n / 2 + 1

abbrev pub send : Node → Message → Node
send n m = record n { outbox = n.outbox ++ m ∷ [] }

-- The loops that send one message to each peer.
unfoldable pub send_each : (String → Message) → List String → Node → Node
send_each make [] n = n
send_each make (p ∷ ps) n = send_each make ps (send n (make p))

-- `votes[from] = true`.
unfoldable pub add_vote : String → List String → List String
add_vote v [] = v ∷ []
add_vote v (w ∷ ws) = if str_is w v then w ∷ ws else w ∷ add_vote v ws

unfoldable pub become_leader : Node → Node
become_leader n = record n {
  role = leader;
  leader_id = n.id;
  voted_for = n.id;
  acks = (n.id, n.tick) ∷ [];
  quorum_miss_ticks = 0;
  heartbeat_elapsed = n.timing.heartbeat;
}

unfoldable pub become_follower : Node → ℕ → Node
become_follower n term = record n {
  role = follower;
  current_term = term;
  leader_id = "";
  voted_for = "";
  votes = [];
  acks = [];
  election_elapsed = 0;
}

-- The quorum test that ends `startElection` and the handling of a vote.
unfoldable pub lead_if_elected : Node → Node
unfolding become_leader
lead_if_elected n =
    if leb (majority_of (length n.members)) (length n.votes) then become_leader n else n

abbrev pub vote_request : Node → String → Message
vote_request n peer = record {
  kind = request_vote;
  term = n.current_term;
  from = n.id;
  to = peer;
  vote_granted = false;
  success = false;
  leader_id = "";
}

unfoldable pub candidate_of : Node → ℕ → Node
unfolding pick_timeout
candidate_of n draw = record n {
  role = candidate;
  current_term = wrap64 (n.current_term + 1);
  voted_for = n.id;
  leader_id = "";
  votes = n.id ∷ [];
  election_timeout = pick_timeout n.timing draw;
  election_elapsed = 0;
}

unfoldable pub start_election : Node → ℕ → Node
unfolding candidate_of send_each lead_if_elected
start_election n draw =
    let n' = candidate_of n draw in lead_if_elected (send_each (vote_request n') n'.peers n')
