-- ===== src/Sharding/Ring.antt =====
-- internal/distributed/sharding/ring.go. The hash, xxhash of github.com/cespare/xxhash, is a
-- parameter, a number below 2^64 or any other; so is `sort.Slice`, which is not stable and
-- promises no more than the record `Sorter` says. The mutex makes each method one step.
pub mod Owner
pub mod Counts
pub mod Moves
pub mod Migration
use Prim.Native.String.{◌++◌ as str_append}
use symkernel.Base.{
  ℕ, zero, suc, ◌+◌, ◌*◌, ◌/◌, ◌%◌, ◌≤◌, ◌≡◌, List, [], ◌∷◌, ◌++◌, Bool, true, false, not, ◌&&◌,
  String, Option, none, some, ltb, leb, ◌==◌, if◌then◌else◌, length, get_elem?, count_if, keep_if,
  Elem, str_dec, str_is,
}
use symkernel.Base.Int.{ℤ, pos, negsuc}
use symkernel.Base.Dict.{insert}
use symkernel.Base.Sort.{sort_strings}
use symkernel.Base.Decimal.{itoa}

pub record VirtualNode : Type 0 where
  pub hash : ℕ
  pub node_id : String

-- `nodes` is the key set of the Go map.
pub record Ring : Type 0 where
  pub virtuals : List VirtualNode
  pub nodes : List String
  pub vnodes_per_node : ℕ

-- In order of the hashes: none is above a later one.
abbrev pub Ascending : List VirtualNode → Type 0
Ascending [] = Unit
Ascending (v ∷ vs) = ((w : VirtualNode) → Elem w vs → v.hash ≤ w.hash) × Ascending vs

-- `sort.Slice` by the hashes: it permutes the slice into order, ties in any way.
pub record Sorter : Type 0 where
  pub sort : List VirtualNode → List VirtualNode
  pub sort-Ascending : (vs : List VirtualNode) → Ascending (sort vs)
  pub sort_keeps : (v : VirtualNode) (vs : List VirtualNode) → Elem v vs → Elem v (sort vs)
  pub sort_adds_none : (v : VirtualNode) (vs : List VirtualNode) → Elem v (sort vs) → Elem v vs
  pub sort_counts :
      (p : VirtualNode → Bool) (vs : List VirtualNode) → count_if p (sort vs) ≡ count_if p vs

-- `NewRing` with the options given as `WithVirtualNodes(n)`, in order.
unfoldable pub with_virtual_nodes : ℤ → Ring → Ring
with_virtual_nodes (pos zero) r = r
with_virtual_nodes (pos (suc n)) r = record r { vnodes_per_node = suc n }
with_virtual_nodes (negsuc n) r = r

unfoldable pub apply_options : List ℤ → Ring → Ring
unfolding with_virtual_nodes
apply_options [] r = r
apply_options (n ∷ opts) r = apply_options opts (with_virtual_nodes n r)

unfoldable pub new_ring : List ℤ → Ring
unfolding apply_options
new_ring opts = apply_options opts (record { virtuals = []; nodes = []; vnodes_per_node = 150 })

unfoldable pub has_node : String → List String → Bool
has_node n [] = false
has_node n (m ∷ ms) = if str_is m n then true else has_node n ms

unfoldable pub delete_node : String → List String → List String
delete_node n = keep_if (λ m. not (str_is m n))

abbrev pub owned_by : String → VirtualNode → Bool
owned_by n v = str_is v.node_id n

-- `sort.Search` for the first index whose hash is at least `h`: the length where there is none.
unfoldable pub search : ℕ → List VirtualNode → ℕ
search h [] = 0
search h (v ∷ vs) = let later = suc (search h vs) in if leb h v.hash then 0 else later

-- The point at an index, or the first one where the index is past the end.
unfoldable pub wrapped_at : List VirtualNode → ℕ → Option VirtualNode
wrapped_at vs idx = get_elem? vs (if leb (length vs) idx then 0 else idx)

abbrev pub node_of : Option VirtualNode → Option String
node_of none = none
node_of (some v) = some v.node_id

-- The text that Go returns beside `false`.
abbrev pub or_empty : Option String → String
or_empty none = ""
or_empty (some t) = t

module _ (hash : String → ℕ) where
  -- The loop of `addNodeLocked`: points i, i + 1, …, for as many as are left.
  unfoldable pub points : String → ℕ → ℕ → List VirtualNode
  unfolding itoa
  points n i zero = []
  points n i (suc left) =
      record { hash = hash (str_append (str_append n "#") (itoa i)); node_id = n }
      ∷ points n (suc i) left

  unfoldable pub add_node : Sorter → String → Ring → Ring
  unfolding points has_node
  add_node s n r = if has_node n r.nodes then r else record r {
    virtuals = s.sort (r.virtuals ++ points n 0 r.vnodes_per_node);
    nodes = n ∷ r.nodes;
  }

  unfoldable pub remove_node : String → Ring → Ring
  unfolding has_node delete_node
  remove_node n r = if not (has_node n r.nodes) then r else record r {
    virtuals = keep_if (λ v. not (owned_by n v)) r.virtuals;
    nodes = delete_node n r.nodes;
  }

  -- The virtual node that answers for a key, if there is any.
  unfoldable pub owner_point : String → List VirtualNode → Option VirtualNode
  unfolding wrapped_at
  owner_point key vs = wrapped_at vs (search (hash key) vs)

  unfoldable pub lookup_node : String → Ring → Option String
  lookup_node key r = node_of (owner_point key r.virtuals)

  -- The ring that `MigrationKeys` simulates.
  unfoldable pub simulate_without : String → Ring → Ring
  unfolding delete_node
  simulate_without n r = record r {
    virtuals = keep_if (λ v. not (owned_by n v)) r.virtuals;
    nodes = delete_node n r.nodes;
  }

  -- One key of `MigrationKeys`; `old` is the empty text where the lookup finds no owner.
  unfoldable pub migrate_key :
      String → Ring → Ring → String → List (String × String) → List (String × String)
  unfolding lookup_node
  migrate_key from r sim k m = elim (lookup_node k sim) [
    | none ↦ m
    | some new ↦
        let old = or_empty (lookup_node k r) in
        if not (str_is old new) && str_is old from then insert str_dec k new m else m
  ]

  unfoldable pub migrate_all :
      String → Ring → Ring → List String → List (String × String) → List (String × String)
  unfolding migrate_key
  migrate_all from r sim [] m = m
  migrate_all from r sim (k ∷ ks) m = migrate_all from r sim ks (migrate_key from r sim k m)

  unfoldable pub migration_keys : List String → String → Ring → List (String × String)
  unfolding migrate_all simulate_without
  migration_keys keys from r = migrate_all from r (simulate_without from r) keys []

unfoldable pub members : Ring → List String
members r = sort_strings r.nodes

unfoldable pub size : Ring → ℕ
size r = length r.nodes

unfoldable pub node_count : Ring → ℕ
node_count r = length r.virtuals
