-- ===== src/Sharding/Ring/Moves.antt =====
-- What a change of membership does to the owners of keys.
use symkernel.Base.{
  ℕ, zero, suc, ◌<◌, ◌≡◌, refl, ◌∙◌, sym, ap, ◌≢◌, ◌⊎◌, inl, inr, List, [], ◌∷◌, ◌++◌, Bool, true,
  not, String, Option, none, some, arith, leb, length, get_elem?, Elem, Bool-cases, Option-cases,
  if◌then◌else◌, keep_if, Elem-append_cases, Elem-append_left,
}
use symkernel.Sharding.Ring.{
  VirtualNode, Ring, Ascending, Sorter, search, wrapped_at, node_of, owner_point, lookup_node,
  owned_by, points, add_node, remove_node, has_node,
}
use symkernel.Sharding.Ring.Owner.{owner_point-IsOwner, owner_point_inv, same_point, IsOwner-fewer}

-- The first point at or after a hash, in the order of the list.
first_from : ℕ → List VirtualNode → Option VirtualNode
first_from h [] = none
first_from h (v ∷ vs) = if leb h v.hash then some v else first_from h vs

first_from_nil : (h : ℕ) → first_from h [] ≡ none
unfolding first_from
first_from_nil h = refl

-- That point, or the first of the list.
first_or_head : ℕ → List VirtualNode → Option VirtualNode
first_or_head h [] = none
first_or_head h (v ∷ vs) = elim (first_from h (v ∷ vs)) [ none ↦ some v | some w ↦ some w ]

search_first :
    (h : ℕ) (vs : List VirtualNode)
    → ((first_from h vs ≡ none) × (search h vs ≡ length vs))
      ⊎ ((v : VirtualNode) × (first_from h vs ≡ some v)
          × (search h vs < length vs)
          × (get_elem? vs (search h vs) ≡ some v))
unfolding first_from search
search_first h [] = inl (refl, refl)
search_first h (v ∷ vs) = elim (Bool-cases (leb h v.hash)) [
  | inl here ↦ inr (v, rw here refl, rw here (omega arith), rw here refl)
  | inr past ↦ elim (search_first h vs) [
    | inl (none_left, end) ↦ inl (rw past none_left, rw (past, end) refl)
    | inr (w, first, lt, at) ↦ inr (w, rw past first, rw past (omega arith), rw past at)
  ]
]

wrapped_at_first :
    (h : ℕ) (vs : List VirtualNode) → wrapped_at vs (search h vs) ≡ first_or_head h vs
unfolding wrapped_at first_or_head
wrapped_at_first h [] = ground arith
wrapped_at_first h (v ∷ vs) = ground (arith, search_first h (v ∷ vs))

first_or_head_of :
    (h : ℕ) (vs : List VirtualNode) (v : VirtualNode)
    → first_from h vs ≡ some v
    → first_or_head h vs ≡ some v
unfolding first_or_head
first_or_head_of h [] v e = cc (first_from_nil h)
first_or_head_of h (w ∷ vs) v e = ground arith

module _ (p : VirtualNode → Bool) where
  first_from-keep_if :
      (h : ℕ) (vs : List VirtualNode) (v : VirtualNode)
      → first_from h vs ≡ some v
      → p v ≡ true
      → first_from h (keep_if p vs) ≡ some v
  unfolding first_from keep_if
  first_from-keep_if h [] v e k = cc
  first_from-keep_if h (w ∷ vs) v e k = ground (arith, first_from-keep_if h vs v)

  first_from-none_kept :
      (h : ℕ) (vs : List VirtualNode) → first_from h vs ≡ none → first_from h (keep_if p vs) ≡ none
  unfolding first_from keep_if
  first_from-none_kept h [] e = refl
  first_from-none_kept h (w ∷ vs) e = ground (arith, first_from-none_kept h vs)

  first_or_head-keep_if :
      (h : ℕ) (vs : List VirtualNode) (v : VirtualNode)
      → first_or_head h vs ≡ some v
      → p v ≡ true
      → first_or_head h (keep_if p vs) ≡ some v
  unfolding first_or_head keep_if
  first_or_head-keep_if h [] v e k = cc
  first_or_head-keep_if h (w ∷ vs) v e k = elim (Option-cases (first_from h (w ∷ vs))) [
    | inl none_left ↦ ground (arith, first_from-none_kept h (w ∷ vs) none_left)
    | inr (u, first) ↦
        first_or_head_of h (keep_if p (w ∷ vs)) v (first_from-keep_if h (w ∷ vs) v (ground arith) k)
  ]

-- The point that answers for a key, in the order of the list.
owner_point_first :
    (hash : String → ℕ) (key : String) (vs : List VirtualNode)
    → owner_point hash key vs ≡ first_or_head (hash key) vs
unfolding owner_point
owner_point_first hash key vs = wrapped_at_first (hash key) vs

pub node_of_inv :
    (p : Option VirtualNode) (n : String)
    → node_of p ≡ some n
    → (v : VirtualNode) × (p ≡ some v) × (v.node_id ≡ n)
node_of_inv none n e = cc
node_of_inv (some v) n e = (v, refl, ground arith)

-- The points without those of a node.
abbrev pub without : String → List VirtualNode → List VirtualNode
without n = keep_if (λ v. not (owned_by n v))

-- Without the points of another node, a key keeps the point that answers for it.
owner_point-without :
    (hash : String → ℕ) (key n : String) (vs : List VirtualNode) (v : VirtualNode)
    → owner_point hash key vs ≡ some v
    → v.node_id ≢ n
    → owner_point hash key (without n vs) ≡ some v
owner_point-without hash key n vs v e other =
    owner_point_first hash key (without n vs)
    ∙ first_or_head-keep_if (λ u. not (owned_by n u)) (hash key) vs v
        (sym (owner_point_first hash key vs) ∙ e) (ground arith)

-- Among more points, all the new ones of one node, the point that answers for a key is the old
-- one or a new one.
owner_point-more :
    (hash : String → ℕ) (key n : String) (vs ws : List VirtualNode) (v : VirtualNode)
    → Ascending vs
    → Ascending ws
    → ((w : VirtualNode) → Elem w vs → Elem w ws)
    → ((w : VirtualNode) → Elem w ws → Elem w vs ⊎ (w.node_id ≡ n))
    → ((w u : VirtualNode) → Elem w vs → Elem u vs → w.hash ≡ u.hash → w ≡ u)
    → owner_point hash key vs ≡ some v
    → (w : VirtualNode) × (owner_point hash key ws ≡ some w) × ((w ≡ v) ⊎ (w.node_id ≡ n))
owner_point-more hash key n vs [] v av aw kept fresh apart e =
    absurd (kept v (owner_point_inv hash key vs v av e).on_ring)
owner_point-more hash key n vs (x ∷ xs) v av aw kept fresh apart e =
    let old = owner_point_inv hash key vs v av e in
    let (w, found, new) = owner_point-IsOwner hash key x xs aw in
    (
      w,
      found,
      elim (fresh w new.on_ring) [
        | inl on ↦ inl (
            apart w v on old.on_ring (
              same_point (hash key) vs w v (IsOwner-fewer (hash key) (x ∷ xs) vs w kept on new)
                old))
        | inr own ↦ inr own
      ],
    )

points-own :
    (hash : String → ℕ) (n : String) (i k : ℕ) (v : VirtualNode)
    → Elem v (points hash n i k)
    → v.node_id ≡ n
unfolding points
points-own hash n i zero v e = absurd e
points-own hash n i (suc k) v (inl e) = ap (λ (x : VirtualNode). x.node_id) e
points-own hash n i (suc k) v (inr e) = points-own hash n (suc i) k v e

module _ (hash : String → ℕ) (key n : String) (r : Ring) where
  -- A key that the removed node does not own keeps its owner.
  pub lookup-remove_other :
      (o : String)
      → lookup_node hash key r ≡ some o
      → o ≢ n
      → lookup_node hash key (remove_node hash n r) ≡ some o
  unfolding lookup_node remove_node
  lookup-remove_other o e other =
      let (v, at, own) = node_of_inv (owner_point hash key r.virtuals) o e in
      let kept = owner_point-without hash key n r.virtuals v at (λ q. other (sym own ∙ q)) in
      ground (arith, kept)

  -- A key that the added node does not get keeps its owner. (Among the points that were on the
  -- ring no two may stand at one hash: `sort.Slice` may reorder those.)
  pub lookup-add_other :
      (s : Sorter) (o : String)
      → Ascending r.virtuals
      → ((v w : VirtualNode) → Elem v r.virtuals → Elem w r.virtuals → v.hash ≡ w.hash → v ≡ w)
      → lookup_node hash key r ≡ some o
      → (lookup_node hash key (add_node hash s n r) ≡ some o)
        ⊎ (lookup_node hash key (add_node hash s n r) ≡ some n)
  unfolding lookup_node add_node
  lookup-add_other s o order apart e =
      let (v, at, own) = node_of_inv (owner_point hash key r.virtuals) o e in
      let more = r.virtuals ++ points hash n 0 r.vnodes_per_node in
      let (w, found, which) =
        owner_point-more hash key n r.virtuals (s.sort more) v order (s.sort-Ascending more)
          (λ u q. s.sort_keeps u more (Elem-append_left u r.virtuals _ q))
          (λ u q. elim (Elem-append_cases u r.virtuals _ (s.sort_adds_none u more q)) [
            | inl old ↦ inl old
            | inr new ↦ inr (points-own hash n 0 r.vnodes_per_node u new)
          ])
          apart at in
      elim (Bool-cases (has_node n r.nodes)) [
        | inl known ↦ inl (rw known e)
        | inr unknown ↦ rw (unknown, found) (ground (arith, which, own))
      ]
