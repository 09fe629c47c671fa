-- ===== src/Federation/Regions/Routing.antt =====
-- internal/federation/region.go: the region that a request goes to.
use symkernel.Base.{
  ◌≡◌, refl, ◌⊎◌, inl, inr, List, [], ◌∷◌, Bool, true, false, not, String, Option, none, some,
  if◌then◌else◌, str_dec, keep_if, Elem, Elem-keep_if, keep_if_keeps, ◌≢◌, All-Elem, arith,
  Bool-cases, ap, ◌∙◌, subst, sym,
}
use symkernel.Base.Int.{ltb_ℤ}
use symkernel.Base.TextOrder.{str_lt, str_lt_asym, str_le_trans}
use symkernel.Base.Insertion.{
  IsOrder, then_by, then_by-IsOrder, sort_by-InOrder, Elem-sort_by, InOrder, sort_by_keeps,
}
use symkernel.Federation.Regions.{
  Region, RegionRegistry, ranks_before, rank_regions, healthy_regions, regions_of, route,
  find_region, route_failover, is_known, first_of,
}

by_known : Region → Region → Bool
by_known a b = if is_known a then not (is_known b) else false

by_known-IsOrder : IsOrder by_known
unfolding by_known
by_known-IsOrder = record {
  asym = λ a b h. ground (arith, h);
  le_trans = λ a b c h k. ground (arith, h, k);
}

by_latency : Region → Region → Bool
by_latency a b = ltb_ℤ a.latency b.latency

by_latency-IsOrder : IsOrder by_latency
unfolding by_latency
by_latency-IsOrder = record {
  asym = λ a b h. ground (arith, h);
  le_trans = λ a b c h k. ground (arith, h, k);
}

by_priority : Region → Region → Bool
by_priority a b = ltb_ℤ a.priority b.priority

by_priority-IsOrder : IsOrder by_priority
unfolding by_priority
by_priority-IsOrder = record {
  asym = λ a b h. ground (arith, h);
  le_trans = λ a b c h k. ground (arith, h, k);
}

by_name : Region → Region → Bool
by_name a b = str_lt a.id b.id

by_name-IsOrder : IsOrder by_name
unfolding by_name
by_name-IsOrder = record {
  asym = λ a b h. str_lt_asym a.id b.id h;
  le_trans = λ a b c h k. str_le_trans a.id b.id c.id h k;
}

by_rank : Region → Region → Bool
by_rank = then_by by_known (then_by by_latency (then_by by_priority by_name))

by_rank-IsOrder : IsOrder by_rank
unfolding by_rank
by_rank-IsOrder =
    then_by-IsOrder by_known (then_by by_latency (then_by by_priority by_name)) by_known-IsOrder (
      then_by-IsOrder by_latency (then_by by_priority by_name) by_latency-IsOrder
        (then_by-IsOrder by_priority by_name by_priority-IsOrder by_name-IsOrder))

ranks_before_lem : (a b : Region) → ranks_before a b ≡ by_rank a b
unfolding ranks_before by_rank by_known by_latency by_priority by_name
ranks_before_lem a b = ground arith

ranks_before-IsOrder : IsOrder ranks_before
ranks_before-IsOrder = record {
  asym = λ a b h. ranks_before_lem b a ∙ by_rank-IsOrder.asym a b (sym (ranks_before_lem a b) ∙ h);
  le_trans = λ a b c h k.
      ranks_before_lem c a
      ∙ by_rank-IsOrder.le_trans a b c (sym (ranks_before_lem b a) ∙ h)
          (sym (ranks_before_lem c b) ∙ k);
}

-- A healthy region is in the ranking, and nothing else is.
ranked :
    (r : RegionRegistry) (reg : Region)
    → Elem reg (healthy_regions r)
    → Elem reg (regions_of r.regions) × (reg.healthy ≡ true)
unfolding healthy_regions rank_regions
ranked r reg e =
    Elem-keep_if (λ x. x.healthy) reg (regions_of r.regions)
      (Elem-sort_by ranks_before reg (keep_if (λ x. x.healthy) (regions_of r.regions)) e)

in_ranking :
    (r : RegionRegistry) (reg : Region)
    → Elem reg (regions_of r.regions)
    → reg.healthy ≡ true
    → Elem reg (healthy_regions r)
unfolding healthy_regions rank_regions
in_ranking r reg e h =
    sort_by_keeps ranks_before reg (keep_if (λ x. x.healthy) (regions_of r.regions))
      (keep_if_keeps (λ x. x.healthy) reg (regions_of r.regions) e h)

ranking-InOrder : (r : RegionRegistry) → InOrder ranks_before (healthy_regions r)
unfolding healthy_regions rank_regions
ranking-InOrder r =
    sort_by-InOrder ranks_before ranks_before-IsOrder
      (keep_if (λ x. x.healthy) (regions_of r.regions))

not_itself : (a : Region) → ranks_before a a ≡ false
not_itself a = elim (Bool-cases (ranks_before a a)) [
  | inl h ↦ ranks_before-IsOrder.asym a a h
  | inr h ↦ h
]

-- What a route is: none where no region is healthy, else a healthy one that none outranks.
abbrev pub IsBest : List Region → Option Region → Type 0
IsBest rs none = (reg : Region) → Elem reg rs → reg.healthy ≡ false
IsBest rs (some best) =
    Elem best rs
    × (best.healthy ≡ true)
    × ((reg : Region) → Elem reg rs → reg.healthy ≡ true → ranks_before reg best ≡ false)

first-IsBest :
    (r : RegionRegistry) (ranking : List Region)
    → healthy_regions r ≡ ranking
    → IsBest (regions_of r.regions) (first_of ranking)
first-IsBest r [] h = λ reg e. elim (Bool-cases reg.healthy) [
  | inl k ↦ absurd (subst (λ l. Elem reg l) h (in_ranking r reg e k))
  | inr k ↦ k
]
first-IsBest r (best ∷ rest) h =
    let own = ranked r best (subst (λ l. Elem best l) (sym h) (inl refl)) in
    let order = subst (InOrder ranks_before) h (ranking-InOrder r) in
    (
      own.0,
      own.1,
      λ reg e k. elim (subst (λ l. Elem reg l) h (in_ranking r reg e k)) [
        | inl same ↦ subst (λ x. ranks_before x best ≡ false) (sym same) (not_itself best)
        | inr later ↦ All-Elem (λ y. ranks_before y best ≡ false) reg rest order.0 later
      ],
    )

find_region_found :
    (id : String) (reg : Region) (rs : List Region)
    → Elem reg rs
    → reg.id ≡ id
    → (s : Region) × (find_region id rs ≡ some s) × Elem s rs × (s.id ≡ id)
unfolding find_region
find_region_found id reg [] e h = absurd e
find_region_found id reg (x ∷ xs) e h = elim (str_dec x.id id) [
  | yes k ↦ (x, ground arith, inl refl, k)
  | no ne ↦ elim e [
    | inl same ↦ absurd (ne (ap (λ (y : Region). y.id) (sym same) ∙ h))
    | inr later ↦
        let (s, f, m, i) = find_region_found id reg xs later h in (s, ground (arith, f), inr m, i)
  ]
]

find_region_missing :
    (id : String) (rs : List Region)
    → ((reg : Region) → Elem reg rs → reg.id ≢ id)
    → find_region id rs ≡ none
unfolding find_region
find_region_missing id [] h = refl
find_region_missing id (x ∷ xs) h =
    ground (arith, h x (inl refl), find_region_missing id xs (λ reg e. h reg (inr e)))

-- `Route` returns none exactly where no region is healthy, else a healthy one that no healthy one outranks.
-- `RouteFailover` returns a healthy region of the preferred name where there is one, and what
-- `Route` returns where there is none, or no name is given.
pub route-IsBest :
    (r : RegionRegistry) (preferred : String)
    → IsBest (regions_of r.regions) (route r)
      × ((reg : Region)
          → preferred ≢ ""
          → Elem reg (regions_of r.regions)
          → reg.healthy ≡ true
          → reg.id ≡ preferred
          → (s : Region) × (route_failover r preferred ≡ some s)
            × Elem s (regions_of r.regions)
            × (s.id ≡ preferred)
            × (s.healthy ≡ true))
      × (((preferred ≡ "")
            ⊎ ((reg : Region)
                → Elem reg (regions_of r.regions)
                → reg.healthy ≡ true
                → reg.id ≢ preferred))
          → route_failover r preferred ≡ route r)
unfolding route route_failover
route-IsBest r preferred = (
  first-IsBest r (healthy_regions r) refl,
  (λ reg named e k same.
      let (s, f, m, i) =
        find_region_found preferred reg (healthy_regions r) (in_ranking r reg e k) same in
      let own = ranked r s m in (s, ground (arith, f), own.0, i, own.1)),
  (λ h. elim h [
    | inl empty ↦ ground arith
    | inr none_such ↦
        let e =
          find_region_missing preferred (healthy_regions r)
            (λ reg m. let own = ranked r reg m in none_such reg own.0 own.1) in
        ground (arith, e)
  ]),
)
