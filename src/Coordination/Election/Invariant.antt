-- ===== src/Coordination/Election/Invariant.antt =====
-- What holds of all nodes of a cluster and of all messages that they have sent.
use mathlib.Core.Logic.{if_pos, if_neg}
use symkernel.Base.{
  Elem-append_left, ◌≤◌, ◌≡◌, ◌≢◌, inl, inr, List, [], ◌∷◌, ◌++◌, String, length, Elem, All,
  str_dec,
}
use symkernel.Coordination.Node.{follower, request_vote, Message, Node}
use symkernel.Coordination.Cluster.{System, update}
use symkernel.Coordination.Election.During.{IsGrant, Accounted}
use symkernel.Coordination.Election.Handlers.{Heard}

pub record NodeInv (ids : List String) (net : List Message) (i : String) (n : Node) : Type 0 where
  pub is_named : n.id ≡ i
  pub others : (p : String) → Elem p n.peers → p ≢ n.id
  pub size : length n.members ≡ length ids
  pub idle : n.outbox ≡ []
  pub heard : All (Heard net n.id) n.inbox
  pub account : Accounted net n

-- A vote given: its giver is in that term a follower that has voted so, or in a later term.
pub record Recorded (ids : List String) (g : Message) (n : Node) : Type 0 where
  pub member : Elem g.from ids
  pub other : g.from ≢ g.to
  pub real : g.to ≢ ""
  pub reached : g.term ≤ n.current_term
  pub holds : g.term ≡ n.current_term → (n.role ≡ follower) × (n.voted_for ≡ g.to)

pub record Inv (ids : List String) (s : System) : Type 0 where
  pub node : (i : String) → Elem i ids → NodeInv ids s.sent i (s.nodes i)
  pub grants : (g : Message) → Elem g s.sent → IsGrant g → Recorded ids g (s.nodes g.from)
  pub one_vote :
      (g h : Message)
      → Elem g s.sent
      → Elem h s.sent
      → IsGrant g
      → IsGrant h
      → g.from ≡ h.from
      → g.term ≡ h.term
      → g.to ≡ h.to
  pub requests :
      (m : Message) → Elem m s.sent → m.kind ≡ request_vote → (m.from ≢ m.to) × (m.from ≢ "")

-- To know something of a node after an update, know it at the new value and at the old ones.
pub update_cases :
    (P : String → Node → Type 0) (f : String → Node) (i : String) (a : Node) (j : String)
    → (i ≡ j → P j a)
    → (i ≢ j → P j (f j))
    → P j (update f i a j)
update_cases P f i a j new old = elim (str_dec i j) [
  | yes p ↦ rw (if_pos _ p) (new p)
  | no p ↦ rw (if_neg _ p) (old p)
]

Heard-wider :
    {net : List Message} {i : String} (more : List Message) (m : Message)
    → Heard net i m
    → Heard (net ++ more) i m
Heard-wider {net} more m h = record {
  sent = Elem-append_left m net more h.sent;
  here = h.here;
  asks = h.asks;
}

All-Heard-wider :
    (net : List Message) (i : String) (more ms : List Message)
    → All (Heard net i) ms
    → All (Heard (net ++ more) i) ms
All-Heard-wider net i more [] h = tt
All-Heard-wider net i more (m ∷ ms) h = (Heard-wider more m h.0, All-Heard-wider net i more ms h.1)

pub Accounted-wider :
    {net : List Message} {n : Node} (more : List Message)
    → Accounted net n
    → Accounted (net ++ more) n
Accounted-wider {net} more a = record {
  for_self = a.for_self;
  votes = λ h v e. elim (a.votes h v e) [
    | inl self ↦ inl self
    | inr (m, sent, g, f, t, e') ↦ inr (m, Elem-append_left m net more sent, g, f, t, e')
  ];
  distinct = a.distinct;
  enough = a.enough;
}

pub NodeInv-wider :
    {ids : List String} {net : List Message} {i : String} {n : Node} (more : List Message)
    → NodeInv ids net i n
    → NodeInv ids (net ++ more) i n
NodeInv-wider {net} {n} more v = record {
  is_named = v.is_named;
  others = v.others;
  size = v.size;
  idle = v.idle;
  heard = All-Heard-wider net n.id more n.inbox v.heard;
  account = Accounted-wider more v.account;
}
