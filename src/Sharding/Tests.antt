-- ===== src/Sharding/Tests.antt =====
-- A ring of internal/distributed/sharding with a table for a hash and insertion sort, and the
-- theorems about rings at it.
use text.Mathlib.TextEquality.{eq_iff}
use symkernel.Base.{
  ℕ, ◌≡◌, refl, sym, subst, ◌≢◌, ◌↔◌, ◌⊎◌, inl, inr, List, [], ◌∷◌, Bool, true, String, some, arith,
  leb, count_if, Elem, if◌then◌else◌, str_is, str_dec, Bool-cases, leb→le, keep_if,
}
use symkernel.Base.Int.{pos}
use symkernel.Base.Decimal.{itoa}
use symkernel.Base.Dict.{lookup, insert}
use symkernel.Sharding.Ring.{
  VirtualNode, Ring, Ascending, Sorter, new_ring, has_node, delete_node, search, wrapped_at, points,
  add_node, remove_node, owner_point, lookup_node, migration_keys,
}
use symkernel.Sharding.Ring.Counts.{
  Inv, joins, changed, changed-Inv, lookup_member, lookup-remove_self,
}
use symkernel.Sharding.Ring.Moves.{lookup-remove_other, lookup-add_other}
use symkernel.Sharding.Ring.Migration.{migration_exact}
use symkernel.Base.Int.{leb_ℤ, ◌-ℤ◌, ◌+ℤ◌}
use symkernel.Base.{none, false}
use symkernel.Sharding.NodeManager.{
  NodeManager, suspect, new_node_manager, new_info, check_health, join, refresh_over, enter,
}
use symkernel.Sharding.NodeManager.Agreement.{Agrees, checks, run, step, run-Agrees}
use symkernel.Sharding.NodeManager.Agreement.{joins as enters}
use symkernel.Sharding.NodeManager.Silence.{silent_leaves}

insert_point : VirtualNode → List VirtualNode → List VirtualNode
insert_point v [] = v ∷ []
insert_point v (w ∷ ws) = if leb v.hash w.hash then v ∷ w ∷ ws else w ∷ insert_point v ws

sort_points : List VirtualNode → List VirtualNode
sort_points [] = []
sort_points (v ∷ vs) = insert_point v (sort_points vs)

Elem-insert_point :
    (x v : VirtualNode) (ws : List VirtualNode) → Elem x (insert_point v ws) → (x ≡ v) ⊎ Elem x ws
unfolding insert_point
Elem-insert_point x v [] e = e
Elem-insert_point x v (w ∷ ws) e = ground (arith, Elem-insert_point x v ws)

insert_point_here : (v : VirtualNode) (ws : List VirtualNode) → Elem v (insert_point v ws)
unfolding insert_point
insert_point_here v [] = inl refl
insert_point_here v (w ∷ ws) = ground (arith, insert_point_here v ws)

insert_point_keeps :
    (x v : VirtualNode) (ws : List VirtualNode) → Elem x ws → Elem x (insert_point v ws)
unfolding insert_point
insert_point_keeps x v [] e = absurd e
insert_point_keeps x v (w ∷ ws) e = ground (arith, insert_point_keeps x v ws)

insert_point-Ascending :
    (v : VirtualNode) (ws : List VirtualNode) → Ascending ws → Ascending (insert_point v ws)
unfolding insert_point
insert_point-Ascending v [] a = (λ w e. absurd e, tt)
insert_point-Ascending v (w ∷ ws) a = elim (Bool-cases (leb v.hash w.hash)) [
  | inl le ↦ rw le (
    (λ u e. elim e [
      | inl same ↦ rw same (leb→le _ _ le)
      | inr later ↦ omega (arith, leb→le _ _ le, a.0 u later)
    ]),
    a,
  )
  | inr gt ↦ rw gt (
    (λ u e. elim (Elem-insert_point u v ws e) [
      | inl same ↦ rw same (ground arith)
      | inr later ↦ a.0 u later
    ]),
    insert_point-Ascending v ws a.1,
  )
]

count_if-insert_point :
    (p : VirtualNode → Bool) (v : VirtualNode) (ws : List VirtualNode)
    → count_if p (insert_point v ws) ≡ count_if p (v ∷ ws)
unfolding insert_point count_if
count_if-insert_point p v [] = refl
count_if-insert_point p v (w ∷ ws) = ground (arith, count_if-insert_point p v ws)

sort_points-Ascending : (vs : List VirtualNode) → Ascending (sort_points vs)
unfolding sort_points
sort_points-Ascending [] = tt
sort_points-Ascending (v ∷ vs) =
    insert_point-Ascending v (sort_points vs) (sort_points-Ascending vs)

sort_points_keeps : (x : VirtualNode) (vs : List VirtualNode) → Elem x vs → Elem x (sort_points vs)
unfolding sort_points
sort_points_keeps x [] e = e
sort_points_keeps x (v ∷ vs) (inl e) =
    subst (λ y. Elem y (insert_point v (sort_points vs))) (sym e)
      (insert_point_here v (sort_points vs))
sort_points_keeps x (v ∷ vs) (inr e) =
    insert_point_keeps x v (sort_points vs) (sort_points_keeps x vs e)

sort_points_adds_none :
    (x : VirtualNode) (vs : List VirtualNode) → Elem x (sort_points vs) → Elem x vs
unfolding sort_points
sort_points_adds_none x [] e = e
sort_points_adds_none x (v ∷ vs) e = elim (Elem-insert_point x v (sort_points vs) e) [
  | inl here ↦ inl here
  | inr rest ↦ inr (sort_points_adds_none x vs rest)
]

sort_points_counts :
    (p : VirtualNode → Bool) (vs : List VirtualNode) → count_if p (sort_points vs) ≡ count_if p vs
unfolding sort_points count_if
sort_points_counts p [] = refl
sort_points_counts p (v ∷ vs) =
    ground (arith, count_if-insert_point p v (sort_points vs), sort_points_counts p vs)

abbrev sorter : Sorter
sorter = record {
  sort = sort_points;
  sort-Ascending = sort_points-Ascending;
  sort_keeps = sort_points_keeps;
  sort_adds_none = sort_points_adds_none;
  sort_counts = sort_points_counts;
}

abbrev table : String → ℕ
table t =
    if str_is t "a#0" then 10 else if str_is t "b#0" then 20 else if str_is t "k" then 15 else 25

program : Unit {0}
unfolding insert_point sort_points lookup insert new_ring itoa has_node delete_node search
    wrapped_at points add_node remove_node owner_point lookup_node migration_keys changed keep_if
    str_dec count_if
program = tt

abbrev empty : Ring
empty = record { virtuals = []; nodes = []; vnodes_per_node = 1 }

empty_new : new_ring (pos 1 ∷ []) ≡ empty
unfolding program
empty_new = refl

empty-Inv : Inv empty
unfolding program
empty-Inv = record { order = tt; unrepeated = tt; shares = λ m. refl; total = refl }

abbrev pair : Ring
pair = changed table sorter empty (joins "b" ∷ joins "a" ∷ [])

changed-Inv_example : Inv pair
changed-Inv_example = changed-Inv table sorter empty (joins "b" ∷ joins "a" ∷ []) empty-Inv

pair_owners : (lookup_node table "k" pair ≡ some "b") × (lookup_node table "z" pair ≡ some "a")
unfolding program
pair_owners = (refl, refl)

lookup-remove_other_example : lookup_node table "z" (remove_node table "b" pair) ≡ some "a"
lookup-remove_other_example =
    lookup-remove_other table "z" "b" pair "a" pair_owners.1 (ground (arith, eq_iff "a" "b"))

lookup_member_example : has_node "b" pair.nodes ≡ true
lookup_member_example = lookup_member table "k" "b" pair changed-Inv_example pair_owners.0

lookup-remove_self_example : lookup_node table "k" (remove_node table "b" pair) ≢ some "b"
lookup-remove_self_example = lookup-remove_self table "k" "b" pair changed-Inv_example

abbrev single : Ring
single = changed table sorter empty (joins "b" ∷ [])

single-apart :
    (v w : VirtualNode) → Elem v single.virtuals → Elem w single.virtuals → v.hash ≡ w.hash → v ≡ w
unfolding program
single-apart v w ev ew h = ground arith

lookup-add_other_example :
    (lookup_node table "z" (add_node table sorter "a" single) ≡ some "b")
    ⊎ (lookup_node table "z" (add_node table sorter "a" single) ≡ some "a")
unfolding program
lookup-add_other_example =
    lookup-add_other table "z" "a" single sorter "b"
      (changed-Inv table sorter empty (joins "b" ∷ []) empty-Inv).order single-apart refl

migration_exact_example :
    (lookup str_dec "k" (migration_keys table ("z" ∷ "k" ∷ []) "b" pair) ≡ some "a") ↔ (
      (has_node "k" ("z" ∷ "k" ∷ []) ≡ true)
      × (lookup_node table "k" pair ≡ some "b")
      × (lookup_node table "k" (remove_node table "b" pair) ≡ some "a"))
unfolding program
migration_exact_example =
    migration_exact table ("z" ∷ "k" ∷ []) "b" "k" "a" pair changed-Inv_example
      (ground (arith, eq_iff "b" "")) refl

-- A manager of the empty ring, with a check every 1000 nanoseconds.
abbrev start : NodeManager
start = new_node_manager empty (record {
  suspect_after = pos 0;
  down_after = pos 0;
  check_interval = pos 1000;
  has_callback = true;
})

start-Agrees : Agrees start.ring start.nodes
unfolding new_node_manager has_node count_if
start-Agrees n = refl

run-Agrees_example :
    Agrees
      (run table sorter start (enters "a" (pos 0) ∷ checks (pos 9000) ∷ [])).ring
      (run table sorter start (enters "a" (pos 0) ∷ checks (pos 9000) ∷ [])).nodes
run-Agrees_example =
    run-Agrees table sorter start (enters "a" (pos 0) ∷ checks (pos 9000) ∷ []) start-Agrees

abbrev watched : NodeManager
watched = run table sorter start (enters "a" (pos 0) ∷ [])

watched-Agrees : Agrees watched.ring watched.nodes
watched-Agrees = run-Agrees table sorter start (enters "a" (pos 0) ∷ []) start-Agrees

manager_program : Unit {0}
unfolding program new_node_manager step run join refresh_over enter lookup insert str_dec ◌-ℤ◌ ◌+ℤ◌
manager_program = tt

found_a : lookup str_dec "a" watched.nodes ≡ some (new_info "a" (pos 0))
unfolding manager_program
found_a = refl

late_a : leb_ℤ watched.opts.down_after (pos 3000 -ℤ pos 0) ≡ true
unfolding manager_program
late_a = refl

silent_leaves_example :
    let one = (check_health table sorter watched (pos 2000)).0 in
    let two = (check_health table sorter one (pos 3000)).0 in
    (leb_ℤ watched.opts.suspect_after (pos 2000 -ℤ pos 0) ≡ false
      → lookup str_dec "a" one.nodes ≡ some (new_info "a" (pos 0)))
    × (leb_ℤ watched.opts.suspect_after (pos 2000 -ℤ pos 0) ≡ true
        → (lookup str_dec "a" one.nodes ≡ some (record (new_info "a" (pos 0)) { state = suspect }))
          × (has_node "a" one.ring.nodes ≡ true)
          × (has_node "a" two.ring.nodes ≡ false)
          × (lookup str_dec "a" two.nodes ≡ none))
silent_leaves_example =
    silent_leaves table sorter watched "a" (new_info "a" (pos 0)) (pos 2000) (pos 3000)
      watched-Agrees found_a refl late_a
