-- ===== src/Sharding/NodeManager/Silence.antt =====
-- internal/distributed/sharding/node_manager.go: what silence does to a node.
use symkernel.Base.{
  ℕ, ◌≤◌, ◌≡◌, refl, [], ◌∷◌, Bool, true, false, String, Option, none, some, if◌then◌else◌, str_dec,
  str_is, count_if, arith, Option-cases, inl, inr, ap, ◌∙◌,
}
use symkernel.Base.Int.{ℤ, ◌-ℤ◌, leb_ℤ}
use symkernel.Base.Dict.{lookup}
use symkernel.Sharding.Ring.{Ring, Sorter, has_node}
use symkernel.Sharding.NodeManager.{
  healthy, suspect, NodeInfo, Nodes, NodeManagerOptions, NodeManager, fate, check_all, check_health,
}
use symkernel.Sharding.NodeManager.Agreement.{
  entries_of, entries_of-missing, Agrees, as_number, check_health-Agrees, entries_of-cons,
}

abbrev fate_of : NodeManagerOptions → ℤ → Option NodeInfo → Option NodeInfo
fate_of opts now none = none
fate_of opts now (some info) = fate opts now info

tracked_once : (b : Bool) → as_number b ≤ 1
tracked_once b = ground arith

entries_of-found :
    (n : String) (i : NodeInfo) (nodes : Nodes)
    → lookup str_dec n nodes ≡ some i
    → 1 ≤ entries_of n nodes
unfolding lookup count_if
entries_of-found n i [] h = ground arith
entries_of-found n i ((k, j) ∷ nodes) h = ground (arith, entries_of-found n i nodes)

not_found : (n : String) (nodes : Nodes) → entries_of n nodes ≡ 0 → lookup str_dec n nodes ≡ none
unfolding lookup count_if
not_found n [] h = refl
not_found n ((k, j) ∷ nodes) h = ground (arith, not_found n nodes)

no_entry : (n : String) → lookup {V = NodeInfo} str_dec n [] ≡ none
unfolding lookup
no_entry n = refl

lookup-cons :
    (n k : String) (i : NodeInfo) (nodes : Nodes)
    → lookup str_dec n ((k, i) ∷ nodes) ≡ (if str_is k n then some i else lookup str_dec n nodes)
unfolding lookup
lookup-cons n k i nodes = ground arith

module _ (hash : String → ℕ) (s : Sorter) where
  -- A check decides on each node by its own entry.
  lookup-check_all :
      (opts : NodeManagerOptions) (now : ℤ) (r : Ring) (nodes : Nodes) (n : String)
      → entries_of n nodes ≤ 1
      → lookup str_dec n (check_all hash s opts now r nodes).1
        ≡ fate_of opts now (lookup str_dec n nodes)
  unfolding check_all
  lookup-check_all opts now r [] n h = rw (no_entry n) refl
  lookup-check_all opts now r ((k, info) ∷ nodes) n h =
      let c = check_all hash s opts now r nodes in
      let count = entries_of-cons k n info nodes in
      let rest = lookup-check_all opts now r nodes n (omega (arith, h, count)) in
      elim (Option-cases (fate opts now info)) [
        | inl e ↦
            rw e (ground (arith, rest, h, count, not_found n nodes, lookup-cons n k info nodes, e))
        | inr (i, e) ↦
            rw e (ground (arith, rest, lookup-cons n k info nodes, lookup-cons n k i c.1, e))
      ]

  lookup-check :
      (nm : NodeManager) (now : ℤ) (n : String)
      → Agrees nm.ring nm.nodes
      → lookup str_dec n (check_health hash s nm now).0.nodes
        ≡ fate_of nm.opts now (lookup str_dec n nm.nodes)
  unfolding check_health
  lookup-check nm now n a =
      lookup-check_all nm.opts now nm.ring nm.nodes n
        (omega (arith, a n, tracked_once (has_node n nm.ring.nodes)))

  fate_healthy :
      (opts : NodeManagerOptions) (now : ℤ) (info : NodeInfo)
      → info.state ≡ healthy
      → fate opts now info ≡ (
          if leb_ℤ opts.suspect_after (now -ℤ info.last_seen)
          then some (record info { state = suspect })
          else some info)
  unfolding fate
  fate_healthy opts now info h = rw h refl

  fate_suspect :
      (opts : NodeManagerOptions) (now : ℤ) (info : NodeInfo)
      → leb_ℤ opts.down_after (now -ℤ info.last_seen) ≡ true
      → fate opts now (record info { state = suspect }) ≡ none
  unfolding fate
  fate_suspect opts now info h = rw h refl

  off_ring :
      (nm : NodeManager) (n : String)
      → Agrees nm.ring nm.nodes
      → lookup str_dec n nm.nodes ≡ none
      → has_node n nm.ring.nodes ≡ false
  off_ring nm n a h = ground (arith, a n, entries_of-missing n nm.nodes h)

  on_ring :
      (nm : NodeManager) (n : String) (i : NodeInfo)
      → Agrees nm.ring nm.nodes
      → lookup str_dec n nm.nodes ≡ some i
      → has_node n nm.ring.nodes ≡ true
  on_ring nm n i a h = ground (arith, a n, entries_of-found n i nm.nodes h)

  same_opts : (nm : NodeManager) (now : ℤ) → (check_health hash s nm now).0.opts ≡ nm.opts
  unfolding check_health
  same_opts nm now = refl

  -- Where nodes and ring agree, a check that finds a healthy node silent for less than the suspicion time leaves
  -- its entry as it is. If the silence has reached that time, the check makes the entry's state suspect, changes nothing else in
  -- it and leaves the node on the ring, and a second check at which the same silence has reached the down time takes the
  -- node off the ring and removes its entry.
  pub silent_leaves :
      (nm : NodeManager) (n : String) (info : NodeInfo) (first second : ℤ)
      → Agrees nm.ring nm.nodes
      → lookup str_dec n nm.nodes ≡ some info
      → info.state ≡ healthy
      → leb_ℤ nm.opts.down_after (second -ℤ info.last_seen) ≡ true
      → let one = (check_health hash s nm first).0 in
        let two = (check_health hash s one second).0 in
        (leb_ℤ nm.opts.suspect_after (first -ℤ info.last_seen) ≡ false
          → lookup str_dec n one.nodes ≡ some info)
        × (leb_ℤ nm.opts.suspect_after (first -ℤ info.last_seen) ≡ true
            → (lookup str_dec n one.nodes ≡ some (record info { state = suspect }))
              × (has_node n one.ring.nodes ≡ true)
              × (has_node n two.ring.nodes ≡ false)
              × (lookup str_dec n two.nodes ≡ none))
  silent_leaves nm n info first second a h state_is late =
      let one = (check_health hash s nm first).0 in
      let two = (check_health hash s one second).0 in
      let after = lookup-check nm first n a in
      let a1 = check_health-Agrees hash s nm first a in
      let a2 = check_health-Agrees hash s one second a1 in
      let f = fate_healthy nm.opts first info state_is in
      (
        (λ early. after ∙ ap (fate_of nm.opts first) h ∙ f ∙ rw early refl),
        (λ due.
            let sus : lookup str_dec n one.nodes ≡ some (record info { state = suspect }) =
              after ∙ ap (fate_of nm.opts first) h ∙ f ∙ rw due refl in
            let gone : lookup str_dec n two.nodes ≡ none =
              lookup-check one second n a1
              ∙ ap (fate_of one.opts second) sus
              ∙ fate_suspect one.opts second info (rw (same_opts nm first) late) in
            (
              sus,
              on_ring one n (record info { state = suspect }) a1 sus,
              off_ring two n a2 gone,
              gone,
            )),
      )
