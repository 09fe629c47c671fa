-- ===== src/Sharding/NodeManager/Agreement.antt =====
-- internal/distributed/sharding/node_manager.go: the ring has the nodes that are tracked.
use symkernel.Base.{
  ℕ, ◌+◌, ◌≡◌, refl, List, [], ◌∷◌, Bool, true, false, String, none, some, if◌then◌else◌, str_dec,
  str_is, count_if, arith, Option-cases, inl, inr,
}
use symkernel.Base.Int.{ℤ}
use symkernel.Base.Dict.{lookup, insert, erase}
use symkernel.Sharding.Ring.{Ring, Sorter, add_node, remove_node, has_node}
use symkernel.Sharding.Ring.Counts.{has_node-delete}
use symkernel.Sharding.NodeManager.{
  NodeInfo, Nodes, NodeManagerOptions, NodeManager, new_info, seen, fate, enter, refresh_over, join,
  heartbeat, leave, check_all, check_health,
}

-- How many entries a node has.
abbrev pub entries_of : String → Nodes → ℕ
entries_of n = count_if (λ e. str_is e.0 n)

abbrev pub as_number : Bool → ℕ
as_number true = 1
as_number false = 0

-- Every node has one entry where it is on the ring and none elsewhere.
abbrev pub Agrees : Ring → Nodes → Type 0
Agrees r nodes = (n : String) → entries_of n nodes ≡ as_number (has_node n r.nodes)

pub entries_of-missing :
    (n : String) (nodes : Nodes) → lookup str_dec n nodes ≡ none → entries_of n nodes ≡ 0
unfolding lookup count_if
entries_of-missing n [] h = refl
entries_of-missing n ((m, i) ∷ nodes) h = ground (arith, entries_of-missing n nodes)

entries_of-new :
    (n m : String) (i : NodeInfo) (nodes : Nodes)
    → lookup str_dec n nodes ≡ none
    → entries_of m (insert str_dec n i nodes) ≡ entries_of m nodes + as_number (str_is n m)
unfolding lookup insert count_if
entries_of-new n m i [] h = ground arith
entries_of-new n m i ((k, j) ∷ nodes) h = ground (arith, entries_of-new n m i nodes)

entries_of-old :
    (n m : String) (i j : NodeInfo) (nodes : Nodes)
    → lookup str_dec n nodes ≡ some j
    → entries_of m (insert str_dec n i nodes) ≡ entries_of m nodes
unfolding lookup insert count_if
entries_of-old n m i j [] h = ground arith
entries_of-old n m i j ((k, l) ∷ nodes) h = ground (arith, entries_of-old n m i j nodes)

entries_of-erase :
    (n m : String) (nodes : Nodes)
    → entries_of m (erase str_dec n nodes) ≡ (if str_is n m then 0 else entries_of m nodes)
unfolding erase count_if
entries_of-erase n m [] = ground arith
entries_of-erase n m ((k, l) ∷ nodes) = ground (arith, entries_of-erase n m nodes)

has_node-add :
    (hash : String → ℕ) (s : Sorter) (n m : String) (r : Ring)
    → has_node m (add_node hash s n r).nodes ≡ (if str_is n m then true else has_node m r.nodes)
unfolding add_node has_node
has_node-add hash s n m r = ground arith

has_node-remove :
    (hash : String → ℕ) (n m : String) (r : Ring)
    → has_node m (remove_node hash n r).nodes ≡ (if str_is n m then false else has_node m r.nodes)
unfolding remove_node
has_node-remove hash n m r = ground (arith, has_node-delete m n r.nodes)

pub entries_of-cons :
    (n m : String) (i : NodeInfo) (nodes : Nodes)
    → entries_of m ((n, i) ∷ nodes) ≡ as_number (str_is n m) + entries_of m nodes
unfolding count_if
entries_of-cons n m i nodes = ground arith

module _ (hash : String → ℕ) (s : Sorter) where
  -- `extra` counts the entries that stand before the ones that a check still goes through.
  check_all-Agrees :
      (opts : NodeManagerOptions) (now : ℤ) (r : Ring) (nodes : Nodes) (extra : String → ℕ)
      → ((n : String) → extra n + entries_of n nodes ≡ as_number (has_node n r.nodes))
      → (n : String)
      → extra n + entries_of n (check_all hash s opts now r nodes).1
        ≡ as_number (has_node n (check_all hash s opts now r nodes).0.nodes)
  unfolding check_all
  check_all-Agrees opts now r [] extra h n = h n
  check_all-Agrees opts now r ((k, info) ∷ nodes) extra h n =
      let rest =
        check_all-Agrees opts now r nodes (λ m. as_number (str_is k m) + extra m)
          (λ m. omega (arith, h m, entries_of-cons k m info nodes)) n in
      let c = check_all hash s opts now r nodes in
      elim (Option-cases (fate opts now info)) [
        | inl e ↦ rw e (ground (arith, rest, has_node-remove hash k n c.0))
        | inr (i, e) ↦ rw e (omega (arith, rest, entries_of-cons k n i c.1))
      ]

  enter-Agrees :
      (nm : NodeManager) (n : String) (now : ℤ)
      → lookup str_dec n nm.nodes ≡ none
      → Agrees nm.ring nm.nodes
      → Agrees (enter hash s nm n now).0.ring (enter hash s nm n now).0.nodes
  unfolding enter
  enter-Agrees nm n now h a m = ground (
    arith,
    a m,
    entries_of-new n m (new_info n now) nm.nodes h,
    entries_of-missing n nm.nodes h,
    has_node-add hash s n m nm.ring,
  )

  refresh-Agrees :
      (nm : NodeManager) (n : String) (now : ℤ)
      → Agrees nm.ring nm.nodes
      → (let r = refresh_over hash s (lookup str_dec n nm.nodes) nm n now in
          Agrees r.0.ring r.0.nodes)
  unfolding refresh_over
  refresh-Agrees nm n now a = elim (Option-cases (lookup str_dec n nm.nodes)) [
    | inl e ↦ rw e (enter-Agrees nm n now e a)
    | inr (i, e) ↦ rw e (λ m. omega (arith, a m, entries_of-old n m (seen i now) i nm.nodes e))
  ]

  leave-Agrees :
      (nm : NodeManager) (n : String)
      → Agrees nm.ring nm.nodes
      → Agrees (leave hash s nm n).0.ring (leave hash s nm n).0.nodes
  unfolding leave
  leave-Agrees nm n a m =
      ground (arith, a m, entries_of-erase n m nm.nodes, has_node-remove hash n m nm.ring)

  pub check_health-Agrees :
      (nm : NodeManager) (now : ℤ)
      → Agrees nm.ring nm.nodes
      → Agrees (check_health hash s nm now).0.ring (check_health hash s nm now).0.nodes
  unfolding check_health
  check_health-Agrees nm now a n =
      omega
        (arith, check_all-Agrees nm.opts now nm.ring nm.nodes (λ m. 0) (λ m. omega (arith, a m)) n)

-- A call of the manager, at a reading of the clock.
pub data Call : Type 0 where
  joins beats : String → ℤ → Call
  leaves : String → Call
  checks : ℤ → Call

module _ (hash : String → ℕ) (s : Sorter) where
  unfoldable pub step : NodeManager → Call → NodeManager
  unfolding join heartbeat
  step nm (joins n now) = (join hash s nm n now).0
  step nm (beats n now) = (heartbeat hash s nm n now).0
  step nm (leaves n) = (leave hash s nm n).0
  step nm (checks now) = (check_health hash s nm now).0

  unfoldable pub run : NodeManager → List Call → NodeManager
  run nm [] = nm
  run nm (c ∷ cs) = run (step nm c) cs

  step-Agrees :
      (nm : NodeManager) (c : Call)
      → Agrees nm.ring nm.nodes
      → Agrees (step nm c).ring (step nm c).nodes
  unfolding step join heartbeat
  step-Agrees nm (joins n now) a = refresh-Agrees hash s nm n now a
  step-Agrees nm (beats n now) a = refresh-Agrees hash s nm n now a
  step-Agrees nm (leaves n) a = leave-Agrees hash s nm n a
  step-Agrees nm (checks now) a = check_health-Agrees hash s nm now a

  -- Through any joins, heartbeats, departures and health checks, at any readings of the clock, a manager whose nodes
  -- and ring agree keeps them so: each node has exactly one entry while it is on the ring, and none otherwise.
  pub run-Agrees :
      (nm : NodeManager) (cs : List Call)
      → Agrees nm.ring nm.nodes
      → Agrees (run nm cs).ring (run nm cs).nodes
  unfolding run
  run-Agrees nm [] a = a
  run-Agrees nm (c ∷ cs) a = run-Agrees (step nm c) cs (step-Agrees nm c a)
