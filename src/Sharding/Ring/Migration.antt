-- ===== src/Sharding/Ring/Migration.antt =====
-- `MigrationKeys` against the ring that `RemoveNode` leaves.
use symkernel.Base.{
  ℕ, ◌≡◌, refl, ◌≢◌, ◌↔◌, inl, inr, List, [], ◌∷◌, true, not, ◌&&◌, String, Option, none, some,
  arith, Option-cases, if◌then◌else◌, str_dec, str_is,
}
use symkernel.Base.Dict.{lookup, lookup-insert, lookup-nil}
use symkernel.Sharding.Ring.{
  Ring, or_empty, lookup_node, has_node, remove_node, simulate_without, migrate_key, migrate_all,
  migration_keys,
}
use symkernel.Sharding.Ring.Counts.{Inv, lookup-remove_self}

module _ (hash : String → ℕ) (from : String) (r sim : Ring) where
  -- Where one key goes, if it goes at all.
  destination : String → Option String
  destination k = elim (lookup_node hash k sim) [
    | none ↦ none
    | some new ↦
        if not (str_is (or_empty (lookup_node hash k r)) new)
          && str_is (or_empty (lookup_node hash k r)) from
        then some new
        else none
  ]

  abbrev or_else : Option String → Option String → Option String
  or_else none b = b
  or_else (some a) b = some a

  lookup-migrate_key :
      (j k : String) (m : List (String × String))
      → lookup str_dec j (migrate_key hash from r sim k m)
        ≡ (if str_is k j then or_else (destination k) (lookup str_dec j m) else lookup str_dec j m)
  unfolding migrate_key destination
  lookup-migrate_key j k m = elim (Option-cases (lookup_node hash k sim)) [
    | inl gone ↦ ground (arith, gone)
    | inr (new, there) ↦ ground (arith, there, lookup-insert str_dec k j new m)
  ]

  lookup-migrate_all :
      (j : String) (ks : List String) (m : List (String × String))
      → lookup str_dec j (migrate_all hash from r sim ks m) ≡ (
          if has_node j ks
          then or_else (destination j) (lookup str_dec j m)
          else lookup str_dec j m)
  unfolding migrate_all has_node
  lookup-migrate_all j [] m = refl
  lookup-migrate_all j (k ∷ ks) m =
      ground
        (arith, lookup-migrate_all j ks (migrate_key hash from r sim k m), lookup-migrate_key j k m)

  destination_iff :
      (k new : String)
      → from ≢ ""
      → (destination k ≡ some new)
        ↔ ((lookup_node hash k r ≡ some from) × (lookup_node hash k sim ≡ some new) × (new ≢ from))
  unfolding destination
  destination_iff k new real = (λ e. ground arith, λ e. ground arith)

lookup-migration_keys :
    (hash : String → ℕ) (keys : List String) (from k : String) (r : Ring)
    → lookup str_dec k (migration_keys hash keys from r)
      ≡ (if has_node k keys then destination hash from r (simulate_without hash from r) k else none)
unfolding migration_keys
lookup-migration_keys hash keys from k r = ground (
  arith,
  lookup-migrate_all hash from r (simulate_without hash from r) k keys [],
  lookup-nil {V = String} str_dec k,
)

-- The simulated ring is the one that the removal of a member makes.
removed_ring :
    (hash : String → ℕ) (n : String) (r : Ring)
    → has_node n r.nodes ≡ true
    → remove_node hash n r ≡ simulate_without hash n r
unfolding remove_node simulate_without
removed_ring hash n r known = rw known

-- For a member of the ring with a name, the keys that `MigrationKeys` reports are exactly those
-- asked about that the member owns and that have an owner once it is removed, each with that
-- owner.
pub migration_exact :
    (hash : String → ℕ) (keys : List String) (from k new : String) (r : Ring)
    → Inv r
    → from ≢ ""
    → has_node from r.nodes ≡ true
    → (lookup str_dec k (migration_keys hash keys from r) ≡ some new) ↔ (
        (has_node k keys ≡ true)
        × (lookup_node hash k r ≡ some from)
        × (lookup_node hash k (remove_node hash from r) ≡ some new))
migration_exact hash keys from k new r v real known =
    let sim = simulate_without hash from r in
    let found : lookup str_dec k (migration_keys hash keys from r)
        ≡ (if has_node k keys then destination hash from r sim k else none) =
      lookup-migration_keys hash keys from k r in
    let iff = destination_iff hash from r sim k new real in
    let kept = lookup-remove_self hash k from r v in
    rw (removed_ring hash from r known) (
      (λ e. ground (arith, found, iff.0)),
      λ e.
          let there =
            iff.1 (e.1, e.2, λ same. kept (rw (removed_ring hash from r known) (rw same at e.2))) in
          ground (arith, found, there),
    )
