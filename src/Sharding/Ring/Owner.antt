-- ===== src/Sharding/Ring/Owner.antt =====
-- Which virtual node answers for a key: the next one on the hash circle.
use symkernel.Base.{
  ℕ, suc, ◌≤◌, ◌<◌, ◌≡◌, refl, ◌∙◌, ap, subst, ◌⊎◌, inl, inr, List, [], ◌∷◌, String, some, arith,
  leb, length, get_elem?, Elem, Bool-cases, leb→le, le→leb,
}
use symkernel.Sharding.Ring.{VirtualNode, Ascending, search, wrapped_at, owner_point}

-- The point at or after `h` that is nearest to it; past the last point, the first of all.
pub record IsOwner (h : ℕ) (vs : List VirtualNode) (v : VirtualNode) : Type 0 where
  pub on_ring : Elem v vs
  pub nearest :
      ((h ≤ v.hash) × ((w : VirtualNode) → Elem w vs → h ≤ w.hash → v.hash ≤ w.hash))
      ⊎ (((w : VirtualNode) → Elem w vs → w.hash < h)
          × ((w : VirtualNode) → Elem w vs → v.hash ≤ w.hash))

abbrev Found : ℕ → List VirtualNode → Type 0
Found h vs =
    ((search h vs ≡ length vs) × ((w : VirtualNode) → Elem w vs → w.hash < h))
    ⊎ ((v : VirtualNode) × (search h vs < length vs)
        × (get_elem? vs (search h vs) ≡ some v)
        × Elem v vs
        × (h ≤ v.hash)
        × ((w : VirtualNode) → Elem w vs → h ≤ w.hash → v.hash ≤ w.hash))

search-Found : (h : ℕ) (vs : List VirtualNode) → Ascending vs → Found h vs
unfolding search
search-Found h [] a = inl (refl, λ w e. absurd e)
search-Found h (v ∷ vs) a = elim (Bool-cases (leb h v.hash)) [
  | inl here ↦ inr (
    v,
    rw here (omega arith),
    rw here refl,
    inl refl,
    leb→le _ _ here,
    λ w e _. elim e [ inl same ↦ rw same (omega arith) | inr later ↦ a.0 w later ],
  )
  | inr past ↦ elim (search-Found h vs a.1) [
    | inl (end, below) ↦ inl (
      rw (past, end),
      λ w e. elim e [ inl same ↦ rw same (ground arith) | inr later ↦ below w later ],
    )
    | inr (u, lt, at, on, le, least) ↦ inr (
      u,
      rw past (omega arith),
      rw past at,
      inr on,
      le,
      λ w e hw. elim e [
        | inl same ↦ absurd (ground (arith, ap (λ (x : VirtualNode). x.hash) same))
        | inr later ↦ least w later hw
      ],
    )
  ]
]

wrapped_at_end :
    (u : VirtualNode) (us : List VirtualNode) (i : ℕ)
    → i ≡ length (u ∷ us)
    → wrapped_at (u ∷ us) i ≡ some u
unfolding wrapped_at
wrapped_at_end u us i e = rw (e, le→leb (suc (length us)) (suc (length us)) (omega arith))

wrapped_at_inside :
    (vs : List VirtualNode) (i : ℕ) → i < length vs → wrapped_at vs i ≡ get_elem? vs i
unfolding wrapped_at
wrapped_at_inside vs i h = ground arith

-- The owner of a hash on points in order.
wrapped_at-IsOwner :
    (h : ℕ) (u : VirtualNode) (us : List VirtualNode)
    → Ascending (u ∷ us)
    → (v : VirtualNode) × (wrapped_at (u ∷ us) (search h (u ∷ us)) ≡ some v) × IsOwner h (u ∷ us) v
wrapped_at-IsOwner h u us a = elim (search-Found h (u ∷ us) a) [
  | inl (end, below) ↦ (
    u,
    wrapped_at_end u us (search h (u ∷ us)) end,
    record {
      on_ring = inl refl;
      nearest =
          inr (below, λ w e. elim e [ inl same ↦ rw same (omega arith) | inr later ↦ a.0 w later ]);
    },
  )
  | inr (w, lt, at, on, le, least) ↦ (
    w,
    wrapped_at_inside (u ∷ us) (search h (u ∷ us)) lt ∙ at,
    record { on_ring = on; nearest = inl (le, least) },
  )
]

module _ (hash : String → ℕ) where
  -- On points in order, of which there is one, a lookup finds the owner of the key's hash.
  pub owner_point-IsOwner :
      (key : String) (u : VirtualNode) (us : List VirtualNode)
      → Ascending (u ∷ us)
      → (v : VirtualNode) × (owner_point hash key (u ∷ us) ≡ some v) × IsOwner (hash key) (u ∷ us) v
  unfolding owner_point
  owner_point-IsOwner key u us = wrapped_at-IsOwner (hash key) u us

  pub owner_point_inv :
      (key : String) (vs : List VirtualNode) (v : VirtualNode)
      → Ascending vs
      → owner_point hash key vs ≡ some v
      → IsOwner (hash key) vs v
  unfolding owner_point wrapped_at
  owner_point_inv key [] v a h = cc
  owner_point_inv key (u ∷ us) v a h =
      let (w, found, owner) = wrapped_at-IsOwner (hash key) u us a in
      let same : w ≡ v = ground (arith, found, h) in subst (IsOwner (hash key) (u ∷ us)) same owner

-- Two owners of one hash stand at one point of the circle.
pub same_point :
    (h : ℕ) (vs : List VirtualNode) (v w : VirtualNode)
    → IsOwner h vs v
    → IsOwner h vs w
    → v.hash ≡ w.hash
same_point h vs v w ov ow = elim ov.nearest [
  | inl (le, least) ↦ elim ow.nearest [
    | inl (le', least') ↦ omega (arith, least w ow.on_ring le', least' v ov.on_ring le)
    | inr (below, least') ↦ absurd (omega (arith, below v ov.on_ring))
  ]
  | inr (below, least) ↦ elim ow.nearest [
    | inl (le', least') ↦ absurd (omega (arith, below w ow.on_ring))
    | inr (below', least') ↦ omega (arith, least w ow.on_ring, least' v ov.on_ring)
  ]
]

-- An owner among some points is one among fewer, if it is one of them.
pub IsOwner-fewer :
    (h : ℕ) (vs ws : List VirtualNode) (v : VirtualNode)
    → ((w : VirtualNode) → Elem w ws → Elem w vs)
    → Elem v ws
    → IsOwner h vs v
    → IsOwner h ws v
IsOwner-fewer h vs ws v fewer on o = record {
  on_ring = on;
  nearest = elim o.nearest [
    | inl (le, least) ↦ inl (le, λ w e. least w (fewer w e))
    | inr (below, least) ↦ inr (λ w e. below w (fewer w e), λ w e. least w (fewer w e))
  ];
}
