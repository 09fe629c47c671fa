-- ===== src/Federation/Regions.antt =====
-- internal/federation/region.go: the known regions and the choice among the healthy ones.
-- `sort.Slice` by a total order on distinct names has one result, which insertion sort gives.
pub mod Routing
use symkernel.Base.{
  List, [], ◌∷◌, Bool, true, false, not, String, Option, none, some, if◌then◌else◌, str_dec, str_is,
  keep_if,
}
use symkernel.Base.Int.{ℤ, pos, ltb_ℤ}
use symkernel.Base.Dict.{lookup, insert, erase}
use symkernel.Base.TextOrder.{str_lt}
use symkernel.Base.Insertion.{sort_by}

pub record Region : Type 0 where
  pub id : String
  pub endpoint : String
  pub priority : ℤ
  pub latency : ℤ
  pub healthy : Bool

pub record RegionRegistry : Type 0 where
  pub self : String
  pub regions : List (String × Region)

abbrev pub local_region : String → Region
local_region self = record {
  id = self;
  endpoint = "";
  priority = pos 0;
  latency = pos 0;
  healthy = true;
}

unfoldable pub new_region_registry : String → RegionRegistry
new_region_registry self = record {
  self = self;
  regions = if str_is self "" then [] else (self, local_region self) ∷ [];
}

unfoldable pub register : RegionRegistry → Region → RegionRegistry
register r reg = record r { regions = insert str_dec reg.id reg r.regions }

unfoldable pub unregister : RegionRegistry → String → RegionRegistry
unregister r id = if str_is id r.self then r else record r { regions = erase str_dec id r.regions }

-- Whether a call returns nil; otherwise it is ErrRegionNotFound.
unfoldable pub update_region : RegionRegistry → String → (Region → Region) → RegionRegistry × Bool
update_region r id f = elim (lookup str_dec id r.regions) [
  | none ↦ (r, false)
  | some reg ↦ (record r { regions = insert str_dec id (f reg) r.regions }, true)
]

unfoldable pub set_health : RegionRegistry → String → Bool → RegionRegistry × Bool
unfolding update_region
set_health r id healthy = update_region r id (λ reg. record reg { healthy = healthy })

unfoldable pub set_latency : RegionRegistry → String → ℤ → RegionRegistry × Bool
unfolding update_region
set_latency r id d = update_region r id (λ reg. record reg { latency = d })

unfoldable pub get_region : RegionRegistry → String → Option Region
get_region r id = lookup str_dec id r.regions

abbrev pub regions_of : List (String × Region) → List Region
regions_of [] = []
regions_of ((k, reg) ∷ rs) = reg ∷ regions_of rs

unfoldable pub list : RegionRegistry → List Region
list r = sort_by (λ a b. str_lt a.id b.id) (regions_of r.regions)

abbrev pub is_known : Region → Bool
is_known a = ltb_ℤ (pos 0) a.latency

abbrev int_ne : ℤ → ℤ → Bool
int_ne a b = if ltb_ℤ a b then true else ltb_ℤ b a

abbrev bool_ne : Bool → Bool → Bool
bool_ne a b = if a then not b else b

-- The comparison of `rankRegions`.
unfoldable pub ranks_before : Region → Region → Bool
ranks_before a b =
    if bool_ne (is_known a) (is_known b)
    then is_known a
    else if int_ne a.latency b.latency
    then ltb_ℤ a.latency b.latency
    else if int_ne a.priority b.priority
    then ltb_ℤ a.priority b.priority
    else str_lt a.id b.id

unfoldable pub rank_regions : List Region → List Region
rank_regions rs = sort_by ranks_before rs

unfoldable pub healthy_regions : RegionRegistry → List Region
healthy_regions r = rank_regions (keep_if (λ reg. reg.healthy) (regions_of r.regions))

abbrev first_of : List Region → Option Region
first_of [] = none
first_of (reg ∷ rs) = some reg

-- `none` is ErrRegionNotFound.
unfoldable pub route : RegionRegistry → Option Region
route r = first_of (healthy_regions r)

unfoldable pub find_region : String → List Region → Option Region
find_region id [] = none
find_region id (reg ∷ rs) =
    let rest = find_region id rs in if str_is reg.id id then some reg else rest

abbrev or_first : Option Region → List Region → Option Region
or_first none rs = first_of rs
or_first (some reg) rs = some reg

unfoldable pub route_failover : RegionRegistry → String → Option Region
route_failover r preferred =
    let healthy = healthy_regions r in
    if str_is preferred ""
    then first_of healthy
    else or_first (find_region preferred healthy) healthy
