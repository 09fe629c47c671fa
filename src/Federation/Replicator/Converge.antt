-- ===== src/Federation/Replicator/Converge.antt =====
-- internal/federation/replicator.go: two passes over the target regions make them agree.
use symkernel.Base.{
  ℕ, ◌≡◌, ◌≢◌, refl, List, [], ◌∷◌, String, Option, none, some, ℕ_discrete, All, arith, ap, ◌∙◌,
  sym, subst,
}
use symkernel.Federation.Store.{Policy}
use symkernel.Federation.Transport.{LocalTransport, store_for, get_at}
use symkernel.Federation.Replicator.{
  Progress, same, compare_revision, reconcile_region, reconcile_regions,
}
use symkernel.Federation.Replicator.Merge.{winner, region_merges}
use symkernel.Federation.Replicator.Kept.{AllKeyed, region-AllKeyed}
use symkernel.Federation.Replicator.Newer.{
  NoNewer, NoNewer_refl, NoNewer_trans, first-NoNewer, second-NoNewer, winner_absorbs,
  winner-NoNewer,
}

moved : {x x' y y' : Option Policy} → x ≡ x' → y ≡ y' → NoNewer x y → NoNewer x' y'
moved {x} {x'} {y} {y'} e f n = subst (λ z. NoNewer z y') e (subst (λ w. NoNewer x w) f n)

All-map :
    {P Q : String → Type 0} (rs : List String) → ((r : String) → P r → Q r) → All P rs → All Q rs
All-map [] f h = tt
All-map (r ∷ rs) f h = (f r h.0, All-map rs f h.1)

All-both :
    {P Q R : String → Type 0} (rs : List String)
    → ((r : String) → P r → Q r → R r)
    → All P rs
    → All Q rs
    → All R rs
All-both [] f h k = tt
All-both (r ∷ rs) f h k = (f r h.0 k.0, All-both rs f h.1 k.1)

abbrev pub SameRevision : Option Policy → Option Policy → Type 0
SameRevision none none = Unit
SameRevision none (some q) = ⊥
SameRevision (some p) none = ⊥
SameRevision (some p) (some q) = compare_revision p q ≡ same

both_ways : (x y : Option Policy) → NoNewer x y → NoNewer y x → SameRevision x y
unfolding compare_revision
both_ways none none h k = tt
both_ways none (some q) h k = k
both_ways (some p) none h k = h
both_ways (some p) (some q) h k = ground arith

module _ (t : LocalTransport) (a : ℕ) (addr : String → ℕ) (id : String) where
  -- A region whose store is an object other than the local store.
  abbrev pub Mounted : String → Type 0
  Mounted region = (store_for t region ≡ some (addr region)) × (a ≢ addr region)

  abbrev value : Progress → ℕ → Option Policy
  value g c = get_at g.heap c id

  merged :
      (g : Progress) (region : String)
      → g.rep.store ≡ a
      → AllKeyed g.heap
      → Mounted region
      → let g' = reconcile_region t region g in
        (value g' a ≡ winner (value g a) (value g (addr region)))
        × (value g' (addr region) ≡ winner (value g (addr region)) (value g a))
        × ((c : ℕ) → c ≢ a → c ≢ addr region → value g' c ≡ value g c)
        × (g'.rep.store ≡ a)
        × (g'.failures ≡ g.failures)
  merged g region h v m =
      let r = region_merges t region g a (addr region) h m.1 m.0 (v a) (v (addr region)) in
      ((r.0 id).0, (r.0 id).1, (r.0 id).2, r.1, r.2)

  side_covered :
      (g : Progress) (region : String)
      → g.rep.store ≡ a
      → AllKeyed g.heap
      → Mounted region
      → let g' = reconcile_region t region g in NoNewer (value g' (addr region)) (value g' a)
  side_covered g region h v m =
      let r = merged g region h v m in
      let x = value g a in
      let y = value g (addr region) in
      moved (sym r.1) (sym r.0)
        (winner-NoNewer y x (winner x y) (second-NoNewer x y) (first-NoNewer x y))

  -- Whatever a store holds, it is no newer than the local store's if it was so before.
  covers :
      (g : Progress) (region : String) (c : ℕ)
      → g.rep.store ≡ a
      → AllKeyed g.heap
      → Mounted region
      → NoNewer (value g c) (value g a)
      → let g' = reconcile_region t region g in NoNewer (value g' c) (value g' a)
  covers g region c h v m n =
      let r = merged g region h v m in
      let g' = reconcile_region t region g in
      elim (ℕ_discrete c a) [
        | yes e ↦ subst (λ z. NoNewer (value g' z) (value g' a)) (sym e) (NoNewer_refl (value g' a))
        | no na ↦ elim (ℕ_discrete c (addr region)) [
          | yes e ↦
              subst (λ z. NoNewer (value g' z) (value g' a)) (sym e) (side_covered g region h v m)
          | no nb ↦ moved (sym (r.2 c na nb)) (sym r.0) (
              NoNewer_trans (value g c) (value g a) (winner (value g a) (value g (addr region))) n
                (first-NoNewer (value g a) (value g (addr region))))
        ]
      ]

  all_cover :
      (rs : List String) (g : Progress) (c : ℕ)
      → g.rep.store ≡ a
      → AllKeyed g.heap
      → All Mounted rs
      → NoNewer (value g c) (value g a)
      → NoNewer (value (reconcile_regions t rs g) c) (value (reconcile_regions t rs g) a)
  unfolding reconcile_regions
  all_cover [] g c h v m n = n
  all_cover (region ∷ rs) g c h v m n =
      all_cover rs (reconcile_region t region g) c (merged g region h v m.0).3
        (region-AllKeyed t region g v) m.1 (covers g region c h v m.0 n)

  -- After one pass no target has a newer revision than the local store.
  one_pass :
      (rs : List String) (g : Progress)
      → g.rep.store ≡ a
      → AllKeyed g.heap
      → All Mounted rs
      → let g' = reconcile_regions t rs g in
        All (λ region. NoNewer (value g' (addr region)) (value g' a)) rs
        × (g'.rep.store ≡ a)
        × AllKeyed g'.heap
        × (g'.failures ≡ g.failures)
  unfolding reconcile_regions
  one_pass [] g h v m = (tt, h, v, refl)
  one_pass (region ∷ rs) g h v m =
      let r = merged g region h v m.0 in
      let g' = reconcile_region t region g in
      let keyed = region-AllKeyed t region g v in
      let rest = one_pass rs g' r.3 keyed m.1 in
      (
        (all_cover rs g' (addr region) r.3 keyed m.1 (side_covered g region h v m.0), rest.0),
        rest.1,
        rest.2,
        rest.3 ∙ r.4,
      )

  -- Where the local store has a newest revision, a pass leaves it and lifts the target to it.
  lifts :
      (g : Progress) (region : String) (c : ℕ) (top : Option Policy)
      → g.rep.store ≡ a
      → AllKeyed g.heap
      → Mounted region
      → value g a ≡ top
      → NoNewer (value g (addr region)) top
      → let g' = reconcile_region t region g in
        (value g' a ≡ top)
        × NoNewer top (value g' (addr region))
        × (NoNewer top (value g c) → NoNewer top (value g' c))
        × (NoNewer (value g c) top → NoNewer (value g' c) top)
  lifts g region c top h v m e n =
      let r = merged g region h v m in
      let g' = reconcile_region t region g in
      let y = value g (addr region) in
      let still : value g' a ≡ top = r.0 ∙ ap (λ x. winner x y) e ∙ winner_absorbs top y n in
      let up : NoNewer top (value g' (addr region)) =
        moved refl (sym (r.1 ∙ ap (winner y) e)) (second-NoNewer y top) in
      (
        still,
        up,
        (λ k. elim (ℕ_discrete c a) [
          | yes q ↦
              subst (λ z. NoNewer top (value g' z)) (sym q)
                (moved refl (sym still) (NoNewer_refl top))
          | no na ↦ elim (ℕ_discrete c (addr region)) [
            | yes q ↦ subst (λ z. NoNewer top (value g' z)) (sym q) up
            | no nb ↦ moved refl (sym (r.2 c na nb)) k
          ]
        ]),
        (λ k. moved refl still (covers g region c h v m (moved refl (sym e) k))),
      )

  second_pass :
      (rs : List String) (g : Progress) (top : Option Policy)
      → g.rep.store ≡ a
      → AllKeyed g.heap
      → All Mounted rs
      → value g a ≡ top
      → All (λ region. NoNewer (value g (addr region)) top) rs
      → let g' = reconcile_regions t rs g in
        (value g' a ≡ top)
        × All (λ region. NoNewer top (value g' (addr region))) rs
        × ((c : ℕ) → NoNewer top (value g c) → NoNewer top (value g' c))
  unfolding reconcile_regions
  second_pass [] g top h v m e n = (e, tt, λ c k. k)
  second_pass (region ∷ rs) g top h v m e n =
      let r = merged g region h v m.0 in
      let g' = reconcile_region t region g in
      let one = λ (c : ℕ). lifts g region c top h v m.0 e n.0 in
      let rest =
        second_pass rs g' top r.3 (region-AllKeyed t region g v) m.1 (one a).0
          (All-map rs (λ q k. (one (addr q)).3 k) n.1) in
      (rest.0, (rest.2 (addr region) (one a).1, rest.1), (λ c k. rest.2 c ((one c).2 k)))

  -- The store behind a region holds under the name what the local store holds: no policy on
  -- either side, or revisions that `compareRevision` finds equal.
  abbrev pub Agrees : Progress → String → Type 0
  Agrees g region = SameRevision (value g (addr region)) (value g a)

  -- After two passes over mounted regions whose stores are other objects, the store of each region agrees with the
  -- local store on every name: both lack it, or hold revisions of one version and time. No step fails.
  pub two_passes_agree :
      (rs : List String) (g : Progress)
      → g.rep.store ≡ a
      → AllKeyed g.heap
      → All Mounted rs
      → let g' = reconcile_regions t rs (reconcile_regions t rs g) in
        All (Agrees g') rs × (g'.failures ≡ g.failures)
  two_passes_agree rs g h v m =
      let g1 = reconcile_regions t rs g in
      let first = one_pass rs g h v m in
      let again = one_pass rs g1 first.1 first.2 m in
      let g2 = reconcile_regions t rs g1 in
      let up = second_pass rs g1 (value g1 a) first.1 first.2 m refl first.0 in
      (
        All-both rs
            (λ r down lifted.
              both_ways (value g2 (addr r)) (value g2 a) down (moved (sym up.0) refl lifted))
            again.0 up.1,
        again.3 ∙ first.3,
      )
