-- ===== src/Sharding/Ring/Counts.antt =====
-- Every node on the ring has its full share of points, and no other has any.
use symkernel.Base.{
  ℕ, zero, suc, ◌+◌, ◌*◌, ◌<◌, ◌≡◌, refl, ◌∙◌, sym, ap, ◌≢◌, inl, inr, List, [], ◌∷◌, ◌++◌, Bool,
  true, false, not, String, some, arith, length, count_if, Elem, Bool-cases, if◌then◌else◌, keep_if,
  Elem-keep_if, count_if-append, length-count_if, length-append, str_is,
}
use symkernel.Sharding.Ring.{
  VirtualNode, Ring, Ascending, Sorter, owned_by, points, add_node, remove_node, has_node,
  delete_node, lookup_node, owner_point,
}
use symkernel.Sharding.Ring.Owner.{owner_point_inv}
use symkernel.Sharding.Ring.Moves.{node_of_inv}

abbrev pub Unrepeated : List String → Type 0
Unrepeated [] = Unit
Unrepeated (n ∷ ns) = (has_node n ns ≡ false) × Unrepeated ns

pub record Inv (r : Ring) : Type 0 where
  pub order : Ascending r.virtuals
  pub unrepeated : Unrepeated r.nodes
  pub shares :
      (m : String)
      → count_if (owned_by m) r.virtuals ≡ (if has_node m r.nodes then r.vnodes_per_node else 0)
  pub total : length r.virtuals ≡ length r.nodes * r.vnodes_per_node

module _ (p : VirtualNode → Bool) where
  Ascending-keep_if : (vs : List VirtualNode) → Ascending vs → Ascending (keep_if p vs)
  unfolding keep_if
  Ascending-keep_if [] a = tt
  Ascending-keep_if (v ∷ vs) a = elim (Bool-cases (p v)) [
    | inl kept ↦ rw kept (λ w e. a.0 w (Elem-keep_if p w vs e).0, Ascending-keep_if vs a.1)
    | inr dropped ↦ rw dropped (Ascending-keep_if vs a.1)
  ]

-- What `delete` leaves of the nodes.
pub has_node-delete :
    (m n : String) (ns : List String)
    → has_node m (delete_node n ns) ≡ (if str_is m n then false else has_node m ns)
unfolding has_node delete_node keep_if
has_node-delete m n [] = ground arith
has_node-delete m n (k ∷ ns) = ground (arith, has_node-delete m n ns)

delete_absent : (n : String) (ns : List String) → has_node n ns ≡ false → delete_node n ns ≡ ns
unfolding has_node delete_node keep_if
delete_absent n [] h = refl
delete_absent n (k ∷ ns) h = ground (arith, delete_absent n ns)

length-delete :
    (n : String) (ns : List String)
    → Unrepeated ns
    → has_node n ns ≡ true
    → suc (length (delete_node n ns)) ≡ length ns
unfolding has_node delete_node keep_if
length-delete n [] u h = cc
length-delete n (k ∷ ns) u h = ground (arith, length-delete n ns u.1, delete_absent n ns)

Unrepeated-delete : (n : String) (ns : List String) → Unrepeated ns → Unrepeated (delete_node n ns)
unfolding delete_node keep_if
Unrepeated-delete n [] u = tt
Unrepeated-delete n (k ∷ ns) u = ground (arith, Unrepeated-delete n ns u.1, has_node-delete k n ns)

-- What filtering leaves of the points.
shares-without :
    (m n : String) (vs : List VirtualNode)
    → count_if (owned_by m) (keep_if (λ v. not (owned_by n v)) vs)
      ≡ (if str_is m n then 0 else count_if (owned_by m) vs)
unfolding keep_if count_if
shares-without m n [] = ground arith
shares-without m n (v ∷ vs) = ground (arith, shares-without m n vs)

length-without :
    (n : String) (vs : List VirtualNode)
    → length (keep_if (λ v. not (owned_by n v)) vs) + count_if (owned_by n) vs ≡ length vs
unfolding keep_if count_if
length-without n [] = refl
length-without n (v ∷ vs) = ground (arith, length-without n vs)

module _ (hash : String → ℕ) where
  shares-points :
      (m n : String) (i k : ℕ)
      → count_if (owned_by m) (points hash n i k) ≡ (if str_is n m then k else 0)
  unfolding points count_if
  shares-points m n i zero = ground arith
  shares-points m n i (suc k) = ground (arith, shares-points m n (suc i) k)

  length-points : (n : String) (i k : ℕ) → length (points hash n i k) ≡ k
  unfolding points
  length-points n i zero = refl
  length-points n i (suc k) = ap suc (length-points n (suc i) k)

  module _ (s : Sorter) where
    length-sort : (vs : List VirtualNode) → length (s.sort vs) ≡ length vs
    length-sort vs =
        length-count_if (s.sort vs) ∙ s.sort_counts (λ _. true) vs ∙ sym (length-count_if vs)

    pub add_node-Inv : (n : String) (r : Ring) → Inv r → Inv (add_node hash s n r)
    unfolding add_node
    add_node-Inv n r v = elim (Bool-cases (has_node n r.nodes)) [
      | inl known ↦ rw known v
      | inr unknown ↦ rw unknown (record {
        order = s.sort-Ascending more;
        unrepeated = (unknown, v.unrepeated);
        shares = λ m. shares m unknown;
        total =
            length-sort more
            ∙ length-append r.virtuals pts
            ∙ (grind (arith, v.total, length-points n 0 r.vnodes_per_node));
      })
    ]
      where
        pts : List VirtualNode
        pts = points hash n 0 r.vnodes_per_node

        more : List VirtualNode
        more = r.virtuals ++ pts

        shares :
            (m : String)
            → has_node n r.nodes ≡ false
            → count_if (owned_by m) (s.sort more)
              ≡ (if has_node m (n ∷ r.nodes) then r.vnodes_per_node else 0)
        shares m unknown =
            s.sort_counts (owned_by m) more
            ∙ count_if-append (owned_by m) r.virtuals pts
            ∙ ground (arith, v.shares m, shares-points m n 0 r.vnodes_per_node)

  one_share_less :
      (kept gone all d k : ℕ) → kept + gone ≡ all → gone ≡ k → all ≡ (suc d) * k → kept ≡ d * k
  one_share_less kept gone all d k e f g = grind arith

  pub remove_node-Inv : (n : String) (r : Ring) → Inv r → Inv (remove_node hash n r)
  unfolding remove_node
  remove_node-Inv n r v = elim (Bool-cases (has_node n r.nodes)) [
    | inr unknown ↦ rw unknown v
    | inl known ↦ rw known (record {
      order = Ascending-keep_if (λ w. not (owned_by n w)) r.virtuals v.order;
      unrepeated = Unrepeated-delete n r.nodes v.unrepeated;
      shares = λ m.
          shares-without m n r.virtuals ∙ ground (arith, v.shares m, has_node-delete m n r.nodes);
      total =
          one_share_less _ _ _ _ _ (length-without n r.virtuals) (ground (arith, v.shares n, known))
            (v.total
              ∙ ap (λ (x : ℕ). x * r.vnodes_per_node)
                  (sym (length-delete n r.nodes v.unrepeated known)));
    })
  ]

-- One change of membership.
pub data Change : Type 0 where
  joins leaves : String → Change

module _ (hash : String → ℕ) (s : Sorter) where
  unfoldable pub changed : Ring → List Change → Ring
  changed r [] = r
  changed r (joins n ∷ cs) = changed (add_node hash s n r) cs
  changed r (leaves n ∷ cs) = changed (remove_node hash n r) cs

  -- Any sequence of joins and leaves keeps the points in order, gives each member exactly its
  -- share of points and no other node any, and so keeps their number the product of both.
  pub changed-Inv : (r : Ring) (cs : List Change) → Inv r → Inv (changed r cs)
  unfolding changed
  changed-Inv r [] v = v
  changed-Inv r (joins n ∷ cs) v = changed-Inv (add_node hash s n r) cs (add_node-Inv hash s n r v)
  changed-Inv r (leaves n ∷ cs) v =
      changed-Inv (remove_node hash n r) cs (remove_node-Inv hash n r v)

count_if-pos :
    (p : VirtualNode → Bool) (v : VirtualNode) (vs : List VirtualNode)
    → Elem v vs
    → p v ≡ true
    → 0 < count_if p vs
unfolding count_if
count_if-pos p v [] e h = absurd e
count_if-pos p v (w ∷ vs) e h = ground (arith, count_if-pos p v vs)

-- Whoever answers for a key is a member of the ring.
pub lookup_member :
    (hash : String → ℕ) (key o : String) (r : Ring)
    → Inv r
    → lookup_node hash key r ≡ some o
    → has_node o r.nodes ≡ true
unfolding lookup_node
lookup_member hash key o r v e =
    let (w, at, own) = node_of_inv (owner_point hash key r.virtuals) o e in
    let on = (owner_point_inv hash key r.virtuals w v.order at).on_ring in
    ground (arith, v.shares o, count_if-pos (owned_by o) w r.virtuals on)

removed_absent :
    (hash : String → ℕ) (n : String) (r : Ring) → has_node n (remove_node hash n r).nodes ≡ false
unfolding remove_node
removed_absent hash n r = ground (arith, has_node-delete n n r.nodes)

-- On a ring that meets the invariant, a removed node answers for no key.
pub lookup-remove_self :
    (hash : String → ℕ) (key n : String) (r : Ring)
    → Inv r
    → lookup_node hash key (remove_node hash n r) ≢ some n
lookup-remove_self hash key n r v e = cc (
  lookup_member hash key n (remove_node hash n r) (remove_node-Inv hash n r v) e,
  removed_absent hash n r,
)
