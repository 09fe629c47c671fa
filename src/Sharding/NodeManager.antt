-- ===== src/Sharding/NodeManager.antt =====
-- internal/distributed/sharding/node_manager.go: joins, heartbeats and health checks over the ring.
-- The ring is a field; a call takes the reading of the clock, in nanoseconds, and returns the
-- manager with the snapshot that it hands to OnChange, if it does. A health check ranges over the
-- association list, whose order is as arbitrary as Go's; it deletes no entry but the current one.
-- Durations do not overflow.
pub mod Agreement
pub mod Silence
use symkernel.Base.{
  ℕ, zero, List, [], ◌∷◌, Bool, true, false, String, Option, none, some, if◌then◌else◌, str_dec,
}
use symkernel.Base.Int.{ℤ, pos, pos_part, neg_part, ◌-ℤ◌, ◌+ℤ◌, leb_ℤ}
use symkernel.Base.Dict.{lookup, insert, erase}
use symkernel.Sharding.Ring.{Ring, Sorter, add_node, remove_node}

pub data NodeState : Type 0 where
  healthy suspect down : NodeState

pub record NodeInfo : Type 0 where
  pub id : String
  pub state : NodeState
  pub joined_at : ℤ
  pub last_seen : ℤ
  pub shard_load : ℤ

abbrev pub Nodes : Type 0
Nodes = List (String × NodeInfo)

-- `has_callback` says whether `OnChange` is set.
pub record NodeManagerOptions : Type 0 where
  pub suspect_after : ℤ
  pub down_after : ℤ
  pub check_interval : ℤ
  pub has_callback : Bool

pub record NodeManager : Type 0 where
  pub ring : Ring
  pub nodes : Nodes
  pub opts : NodeManagerOptions

-- `if d == 0 { d = e }`.
abbrev or_default : ℤ → ℤ → ℤ
or_default (pos zero) e = e
or_default d e = d

unfoldable pub new_node_manager : Ring → NodeManagerOptions → NodeManager
new_node_manager ring o =
    let interval = or_default o.check_interval (pos 5_000_000_000) in
    record {
      ring = ring;
      nodes = [];
      opts = record {
        suspect_after = or_default o.suspect_after (interval +ℤ interval);
        down_after = or_default o.down_after (interval +ℤ interval +ℤ interval);
        check_interval = interval;
        has_callback = o.has_callback;
      };
    }

-- `notifyLocked`: the snapshot that the callback gets.
unfoldable pub notify : NodeManager → Option Nodes
notify nm = if nm.opts.has_callback then some nm.nodes else none

abbrev pub new_info : String → ℤ → NodeInfo
new_info n now = record {
  id = n;
  state = healthy;
  joined_at = now;
  last_seen = now;
  shard_load = pos 0;
}

abbrev pub seen : NodeInfo → ℤ → NodeInfo
seen info now = record info { state = healthy; last_seen = now }

abbrev healthy_of : Nodes → List String
healthy_of [] = []
healthy_of ((id, info) ∷ nodes) =
    let rest = healthy_of nodes in elim info.state [ healthy ↦ id ∷ rest | _ ↦ rest ]

unfoldable pub healthy_nodes : NodeManager → List String
healthy_nodes nm = healthy_of nm.nodes

-- What a check makes of an entry: `none` where it takes the node down.
unfoldable pub fate : NodeManagerOptions → ℤ → NodeInfo → Option NodeInfo
fate opts now info =
    let elapsed = now -ℤ info.last_seen in
    elim info.state [
      | healthy ↦
          if leb_ℤ opts.suspect_after elapsed
          then some (record info { state = suspect })
          else some info
      | suspect ↦ if leb_ℤ opts.down_after elapsed then none else some info
      | down ↦ some info
    ]

module _ (hash : String → ℕ) (s : Sorter) where
  -- The branch of `Join` and of `Heartbeat` for a node that is not tracked.
  unfoldable pub enter : NodeManager → String → ℤ → NodeManager × Option Nodes
  enter nm n now =
      let nm' : NodeManager = record nm {
        ring = add_node hash s n nm.ring;
        nodes = insert str_dec n (new_info n now) nm.nodes;
      } in
      (nm', notify nm')

  unfoldable pub refresh_over :
      Option NodeInfo → NodeManager → String → ℤ → NodeManager × Option Nodes
  refresh_over none nm n now = enter nm n now
  refresh_over (some info) nm n now =
      (record nm { nodes = insert str_dec n (seen info now) nm.nodes }, none)

  unfoldable pub join : NodeManager → String → ℤ → NodeManager × Option Nodes
  join nm n now = refresh_over (lookup str_dec n nm.nodes) nm n now

  unfoldable pub heartbeat : NodeManager → String → ℤ → NodeManager × Option Nodes
  heartbeat nm n now = refresh_over (lookup str_dec n nm.nodes) nm n now

  unfoldable pub leave : NodeManager → String → NodeManager × Option Nodes
  leave nm n =
      let nm' : NodeManager = record nm {
        ring = remove_node hash n nm.ring;
        nodes = erase str_dec n nm.nodes;
      } in
      (nm', notify nm')

  -- The loop of `checkHealth`: the ring, the entries kept, and whether one was removed.
  abbrev after_fate : Option NodeInfo → String → Ring × Nodes × Bool → Ring × Nodes × Bool
  after_fate none n (r, kept, changed) = (remove_node hash n r, kept, true)
  after_fate (some info) n (r, kept, changed) = (r, (n, info) ∷ kept, changed)

  unfoldable pub check_all : NodeManagerOptions → ℤ → Ring → Nodes → Ring × Nodes × Bool
  check_all opts now r [] = (r, [], false)
  check_all opts now r ((n, info) ∷ nodes) =
      after_fate (fate opts now info) n (check_all opts now r nodes)

  unfoldable pub check_health : NodeManager → ℤ → NodeManager × Option Nodes
  check_health nm now =
      let c = check_all nm.opts now nm.ring nm.nodes in
      let nm' : NodeManager = record nm { ring = c.0; nodes = c.1 } in
      (nm', (if c.2 then notify nm' else none))
