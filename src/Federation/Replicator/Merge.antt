-- ===== src/Federation/Replicator/Merge.antt =====
-- internal/federation/replicator.go: a pass over one region as a merge of two maps.
use symkernel.Base.{
  ℕ, ◌≤◌, ◌≡◌, ◌≢◌, refl, List, [], String, Option, none, some, str_dec, arith, ◌∙◌, sym,
}
use symkernel.Base.Dict.{lookup, lookup-nil}
use symkernel.Federation.Store.{Policy, MemoryStore, list, policies_of}
use symkernel.Federation.Transport.{
  Heap, LocalTransport, store_for, store_at, get_at, list_policies,
}
use symkernel.Federation.Replicator.{
  Progress, Revision, older, same, newer, compare_revision, by_id, reconcile_locals,
  reconcile_remotes, reconcile_region,
}
use symkernel.Federation.Replicator.Keys.{
  IsKeyed, find_policy, copies, find-list, copies-list, by_id-IsKeyed, nil-IsKeyed, lookup-by_id,
  find-values,
}
use symkernel.Federation.Replicator.Pass.{
  locals_local, locals_remote, locals_elsewhere, locals_stay, locals_left, remotes_local,
  remotes_elsewhere, remotes_stay, local_after, remote_after,
}

abbrev pub pick : Revision → Policy → Policy → Policy
pick older p q = q
pick same p q = p
pick newer p q = p

-- The newer of two revisions, the first where neither is.
abbrev pub winner : Option Policy → Option Policy → Option Policy
winner none q = q
winner (some p) none = some p
winner (some p) (some q) = some (pick (compare_revision p q) p q)

pub flip_newer : (p q : Policy) → compare_revision p q ≡ newer → compare_revision q p ≡ older
unfolding compare_revision
flip_newer p q h = ground arith

pub flip_older : (p q : Policy) → compare_revision p q ≡ older → compare_revision q p ≡ newer
unfolding compare_revision
flip_older p q h = ground arith

pub flip_same : (p q : Policy) → compare_revision p q ≡ same → compare_revision q p ≡ same
unfolding compare_revision
flip_same p q h = ground arith

remote_winner : (p : Policy) (y : Option Policy) → remote_after p y y ≡ winner y (some p)
remote_winner p none = refl
remote_winner p (some q) =
    ground (arith, flip_newer p q, flip_newer q p, flip_older p q, flip_older q p)

winner-none : (x : Option Policy) → winner x none ≡ x
winner-none none = refl
winner-none (some p) = refl

remote_final :
    (o y : Option Policy) → (elim o [ none ↦ y | some p ↦ remote_after p y y ]) ≡ winner y o
remote_final none y = sym (winner-none y)
remote_final (some p) y = remote_winner p y

local_winner : (p : Policy) (y : Option Policy) → local_after p y (some p) ≡ winner (some p) y
local_winner p none = refl
local_winner p (some q) = ground arith

find_at :
    (h : Heap) (c : ℕ) (id : String)
    → IsKeyed (store_at h c)
    → find_policy id (list (store_at h c)) ≡ get_at h c id
unfolding get_at
find_at h c id v = find-list id (store_at h c) v

module _ (t : LocalTransport) (region : String) (g : Progress) (a b : ℕ) (here : g.rep.store ≡ a)
    (apart : a ≢ b) (m : store_for t region ≡ some b) (va : IsKeyed (store_at g.heap a))
    (vb : IsKeyed (store_at g.heap b)) where
  abbrev locals : List Policy
  locals = list (store_at g.heap a)

  abbrev remotes : MemoryStore
  remotes = by_id [] (list (store_at g.heap b))

  abbrev mid : Progress × MemoryStore
  mid = reconcile_locals t region g remotes locals

  listed : list_policies t g.heap region ≡ some (list (store_at g.heap b))
  unfolding list_policies
  listed = ground (arith, m)

  two_loops : reconcile_region t region g ≡ reconcile_remotes t region mid.0 (policies_of mid.1)
  unfolding reconcile_region
  two_loops = rw (listed, here) refl

  found_remote : (id : String) → lookup str_dec id remotes ≡ get_at g.heap b id
  found_remote id = ground (
    arith,
    lookup-by_id id [] (list (store_at g.heap b)) (λ j. copies-list j (store_at g.heap b) vb),
    find_at g.heap b id vb,
    lookup-nil {V = Policy} str_dec id,
  )

  left :
      (id : String)
      → IsKeyed mid.1
        × (lookup str_dec id mid.1
            ≡ (elim (find_policy id locals) [ none ↦ lookup str_dec id remotes | some p ↦ none ]))
  left id =
      locals_left t region a b apart m g remotes locals id
        (by_id-IsKeyed [] (list (store_at g.heap b)) nil-IsKeyed)

  once : (j : String) → copies j locals ≤ 1
  once j = copies-list j (store_at g.heap a) va

  keyed : IsKeyed remotes
  keyed = by_id-IsKeyed [] (list (store_at g.heap b)) nil-IsKeyed

  merged_local :
      (id : String)
      → get_at (reconcile_remotes t region mid.0 (policies_of mid.1)).heap a id
        ≡ winner (get_at g.heap a id) (get_at g.heap b id)
  merged_local id = ground (
    arith,
    remotes_local t region a b apart m mid.0 (policies_of mid.1) id
        ((locals_stay t region a b apart m g remotes locals).0 ∙ here) (left id).0.once,
    find-values id mid.1 (left id).0,
    (left id).1,
    locals_local t region a b apart m g remotes locals id here keyed once,
    find_at g.heap a id va,
    found_remote id,
  )

  merged_remote :
      (id : String)
      → get_at (reconcile_remotes t region mid.0 (policies_of mid.1)).heap b id
        ≡ winner (get_at g.heap b id) (get_at g.heap a id)
  merged_remote id =
      remotes_elsewhere t region a b apart m mid.0 (policies_of mid.1) b id
        ((locals_stay t region a b apart m g remotes locals).0 ∙ here) (λ e. apart (sym e))
      ∙ locals_remote t region a b apart m g remotes locals id here keyed once
      ∙ ground (
        arith,
        find_at g.heap a id va,
        found_remote id,
        remote_final (get_at g.heap a id) (get_at g.heap b id),
      )

  merged_elsewhere :
      (c : ℕ) (id : String)
      → c ≢ a
      → c ≢ b
      → get_at (reconcile_remotes t region mid.0 (policies_of mid.1)).heap c id ≡ get_at g.heap c id
  merged_elsewhere c id na nb =
      remotes_elsewhere t region a b apart m mid.0 (policies_of mid.1) c id
        ((locals_stay t region a b apart m g remotes locals).0 ∙ here) na
      ∙ locals_elsewhere t region a b apart m g remotes locals c id here na nb

  -- One pass over a mounted region whose store is another object: under each name each side then has
  -- the newer of the two revisions, and its own where neither is newer. No other store is touched,
  -- the replicator keeps its store, and nothing fails.
  pub region_merges :
      let g' = reconcile_region t region g in
      ((id : String)
        → (get_at g'.heap a id ≡ winner (get_at g.heap a id) (get_at g.heap b id))
          × (get_at g'.heap b id ≡ winner (get_at g.heap b id) (get_at g.heap a id))
          × ((c : ℕ) → c ≢ a → c ≢ b → get_at g'.heap c id ≡ get_at g.heap c id))
      × (g'.rep.store ≡ a)
      × (g'.failures ≡ g.failures)
  region_merges = rw two_loops (
    (λ id. (merged_local id, merged_remote id, λ c na nb. merged_elsewhere c id na nb)),
    (remotes_stay t region a b apart m mid.0 (policies_of mid.1)).0
        ∙ (locals_stay t region a b apart m g remotes locals).0
        ∙ here,
    (remotes_stay t region a b apart m mid.0 (policies_of mid.1)).1
        ∙ (locals_stay t region a b apart m g remotes locals).1,
  )
