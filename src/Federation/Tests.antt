-- ===== src/Federation/Tests.antt =====
-- Runs of the federation's models, and the theorems about them at them.
use symkernel.Base.{
  arith, ℕ, ◌≡◌, ◌≢◌, refl, ◌⊎◌, List, [], ◌∷◌, true, String, some, str_dec, Elem, All,
}
use symkernel.Base.Int.{pos}
use symkernel.Base.Dict.{lookup}
use symkernel.Federation.Store.{Policy, replication_sync, replication_async}
use symkernel.Federation.Regions.{
  Region, RegionRegistry, register, new_region_registry, route, route_failover, regions_of,
}
use symkernel.Federation.Regions.Routing.{IsBest, route-IsBest}
use symkernel.Federation.Transport.{Heap, LocalTransport, put_at, store_at, get_at, store_for}
use symkernel.Federation.Replicator.{Progress, new_replicator, reconcile_region, reconcile_regions}
use symkernel.Federation.Replicator.Keys.{nil-IsKeyed}
use symkernel.Federation.Replicator.Merge.{winner, region_merges}
use symkernel.Federation.Replicator.Kept.{AllKeyed, put_at-AllKeyed}
use symkernel.Federation.Replicator.Converge.{Agrees, two_passes_agree}
use symkernel.Federation.Member.{
  Federation, put, apply_settings, apply_setting, with_transport, with_config, new,
}
use symkernel.Federation.Member.Delivery.{IsNextVersion, Delivered, put_delivers}

abbrev policy : String → ℕ → String → ℕ → Policy
policy id version region time = record {
  id = id;
  version = version;
  body = version ∷ [];
  origin_region = region;
  updated_at = pos time;
}

abbrev transport : LocalTransport
transport = ("eu", 1) ∷ ("ap", 2) ∷ []

-- The local store is at 0; the region eu holds a newer revision, ap another policy.
abbrev heap : Heap
heap =
    put_at (put_at (put_at [] 0 (policy "limit" 1 "us" 5)) 1 (policy "limit" 2 "eu" 7)) 2
      (policy "deny" 1 "ap" 6)

empty-AllKeyed : AllKeyed []
unfolding store_at lookup
empty-AllKeyed c = nil-IsKeyed

heap-AllKeyed : AllKeyed heap
heap-AllKeyed =
    put_at-AllKeyed (put_at (put_at [] 0 (policy "limit" 1 "us" 5)) 1 (policy "limit" 2 "eu" 7)) 2
      (policy "deny" 1 "ap" 6)
      (put_at-AllKeyed (put_at [] 0 (policy "limit" 1 "us" 5)) 1 (policy "limit" 2 "eu" 7)
        (put_at-AllKeyed [] 0 (policy "limit" 1 "us" 5) empty-AllKeyed))

abbrev start : Progress
start = record {
  rep = new_replicator "us" 0 (record { mode = replication_async; interval = pos 0; regions = [] });
  heap = heap;
  failures = [];
}

start-store : start.rep.store ≡ 0
unfolding new_replicator
start-store = refl

eu_mounted : store_for transport "eu" ≡ some 1
unfolding store_for lookup str_dec
eu_mounted = refl

ap_mounted : store_for transport "ap" ≡ some 2
unfolding store_for lookup str_dec
ap_mounted = refl

region_merges_example :
    let g' = reconcile_region transport "eu" start in
    ((id : String)
      → (get_at g'.heap 0 id ≡ winner (get_at heap 0 id) (get_at heap 1 id))
        × (get_at g'.heap 1 id ≡ winner (get_at heap 1 id) (get_at heap 0 id))
        × ((c : ℕ) → c ≢ 0 → c ≢ 1 → get_at g'.heap c id ≡ get_at heap c id))
    × (g'.rep.store ≡ 0)
    × (g'.failures ≡ [])
region_merges_example =
    region_merges transport "eu" start 0 1 start-store (λ e. cc) eu_mounted (heap-AllKeyed 0)
      (heap-AllKeyed 1)

abbrev address : String → ℕ
address region = elim (str_dec region "eu") [ yes _ ↦ 1 | no _ ↦ 2 ]

two_passes_agree_example :
    let rs : List String = "eu" ∷ "ap" ∷ [] in
    let g' = reconcile_regions transport rs (reconcile_regions transport rs start) in
    All (Agrees transport 0 address "limit" g') rs × (g'.failures ≡ [])
unfolding str_dec
two_passes_agree_example =
    two_passes_agree transport 0 address "limit" ("eu" ∷ "ap" ∷ []) start start-store heap-AllKeyed
      ((eu_mounted, λ e. cc), ((ap_mounted, λ e. cc), tt))

abbrev member : Federation
member = new "us" 0 (
    with_transport transport
    ∷ with_config
        (record { mode = replication_sync; interval = pos 0; regions = "eu" ∷ "gone" ∷ [] })
    ∷ [])

put_delivers_example :
    (v : ℕ) × IsNextVersion (get_at heap 0 "limit") v
    × Delivered member.cfg.mode member heap
        (record {
          id = "limit";
          version = v;
          body = 9 ∷ [];
          origin_region = "us";
          updated_at = pos 8;
        })
        (put member heap "limit" (9 ∷ []) (pos 8))
unfolding new apply_settings apply_setting new_replicator
put_delivers_example = put_delivers member heap "limit" (9 ∷ []) (pos 8) (λ e. cc) (omega arith)

abbrev region : String → ℕ → Region
region id latency = record {
  id = id;
  endpoint = "";
  priority = pos 1;
  latency = pos latency;
  healthy = true;
}

abbrev registry : RegionRegistry
registry = register (register (new_region_registry "us") (region "eu" 20)) (region "ap" 10)

abbrev preferred : String
preferred = "eu"

route-IsBest_example :
    IsBest (regions_of registry.regions) (route registry)
    × ((reg : Region)
        → preferred ≢ ""
        → Elem reg (regions_of registry.regions)
        → reg.healthy ≡ true
        → reg.id ≡ preferred
        → (s : Region) × (route_failover registry preferred ≡ some s)
          × Elem s (regions_of registry.regions)
          × (s.id ≡ preferred)
          × (s.healthy ≡ true))
    × (((preferred ≡ "")
          ⊎ ((reg : Region)
              → Elem reg (regions_of registry.regions)
              → reg.healthy ≡ true
              → reg.id ≢ preferred))
        → route_failover registry preferred ≡ route registry)
route-IsBest_example = route-IsBest registry preferred
