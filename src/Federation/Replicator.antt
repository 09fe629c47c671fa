-- ===== src/Federation/Replicator.antt =====
-- internal/federation/replicator.go: one pass of anti-entropy over the target regions.
pub mod Keys
pub mod Pass
pub mod Merge
pub mod Kept
pub mod Newer
pub mod Converge
use symkernel.Base.{
  ℕ, suc, ◌+◌, ◌%◌, List, [], ◌∷◌, ◌++◌, Bool, true, false, String, Option, none, some,
  if◌then◌else◌, ite, str_dec, str_is, ℕ_discrete, ltb, ◌==◌,
}
use symkernel.Base.Int.{ℤ, pos, ltb_ℤ}
use symkernel.Base.Dict.{lookup, insert, erase}
use symkernel.Federation.Store.{Policy, MemoryStore, ReplicationConfig, list, policies_of}
use symkernel.Federation.Regions.{Region, RegionRegistry, healthy_regions}
use symkernel.Federation.Transport.{
  Heap, LocalTransport, store_at, put_at, put_policy, list_policies,
}

-- A uint64 counter, one up.
abbrev pub bump : ℕ → ℕ
bump n = (n + 1) % 18_446_744_073_709_551_616

-- `store` is the address of the local store.
pub record Replicator : Type 0 where
  pub self : String
  pub store : ℕ
  pub cfg : ReplicationConfig
  pub scans : ℕ
  pub pushed : ℕ
  pub pulled : ℕ
  pub skipped : ℕ
  pub errors : ℕ

abbrev default_interval : ℤ
default_interval = pos 30_000_000_000

unfoldable pub new_replicator : String → ℕ → ReplicationConfig → Replicator
new_replicator self store cfg = record {
  self = self;
  store = store;
  cfg = record cfg {
    interval = if ltb_ℤ (pos 0) cfg.interval then cfg.interval else default_interval;
  };
  scans = 0;
  pushed = 0;
  pulled = 0;
  skipped = 0;
  errors = 0;
}

unfoldable pub has : List String → String → Bool
has [] a = false
has (b ∷ bs) a = if str_is b a then true else has bs a

-- The loop over the allowlist: `seen` are the regions taken so far.
unfoldable pub allowed : String → List String → List String → List String
allowed self seen [] = []
allowed self seen (id ∷ ids) =
    let skip = allowed self seen ids in
    let take = id ∷ allowed self (id ∷ seen) ids in
    if str_is id self then skip else if has seen id then skip else take

unfoldable pub other_ids : String → List Region → List String
other_ids self [] = []
other_ids self (reg ∷ rs) =
    let rest = other_ids self rs in if str_is reg.id self then rest else reg.id ∷ rest

unfoldable pub targets : Replicator → RegionRegistry → List String
targets rep r = elim rep.cfg.regions [
  | [] ↦ other_ids rep.self (healthy_regions r)
  | id ∷ ids ↦ allowed rep.self [] (id ∷ ids)
]

pub data Revision : Type 0 where
  older same newer : Revision

unfoldable pub compare_revision : Policy → Policy → Revision
compare_revision a b =
    if a.version == b.version
    then if ltb_ℤ a.updated_at b.updated_at
      then older
      else if ltb_ℤ b.updated_at a.updated_at
      then newer
      else same
    else if ltb b.version a.version
    then newer
    else older

-- What can go wrong in a pass: all of it is ErrRegionNotFound.
pub data Failure : Type 0 where
  not_listed : Failure
  not_pushed : String → Failure

-- The replicator, the stores, and the errors so far.
pub record Progress : Type 0 where
  pub rep : Replicator
  pub heap : Heap
  pub failures : List Failure

unfoldable pub pull : Progress → Policy → Progress
pull g p = record g {
  heap = put_at g.heap g.rep.store p;
  rep = record (g.rep) { pulled = bump g.rep.pulled };
}

abbrev pub pushed_to : Option Heap → Progress → Policy → Progress
pushed_to none g p = record g {
  rep = record (g.rep) { errors = bump g.rep.errors };
  failures = g.failures ++ not_pushed p.id ∷ [];
}
pushed_to (some h) g p = record g { heap = h; rep = record (g.rep) { pushed = bump g.rep.pushed } }

unfoldable pub push : LocalTransport → String → Progress → Policy → Progress
push t region g p = pushed_to (put_policy t g.heap region p) g p

unfoldable pub skip : Progress → Progress
skip g = record g { rep = record (g.rep) { skipped = bump g.rep.skipped } }

abbrev pub copy_newer : Revision → LocalTransport → String → Progress → Policy → Policy → Progress
copy_newer newer t region g local remote = push t region g local
copy_newer older t region g local remote = pull g remote
copy_newer same t region g local remote = skip g

unfoldable pub reconcile_policy :
    LocalTransport → String → Progress → Option Policy → Option Policy → Progress
reconcile_policy t region g none none = g
reconcile_policy t region g none (some remote) = pull g remote
reconcile_policy t region g (some local) none = push t region g local
reconcile_policy t region g (some local) (some remote) =
    copy_newer (compare_revision local remote) t region g local remote

-- `remoteByID`.
unfoldable pub by_id : MemoryStore → List Policy → MemoryStore
by_id m [] = m
by_id m (p ∷ ps) = by_id (insert str_dec p.id p m) ps

-- The loop over the local policies; it takes each id out of the map.
unfoldable pub reconcile_locals :
    LocalTransport → String → Progress → MemoryStore → List Policy → Progress × MemoryStore
reconcile_locals t region g m [] = (g, m)
reconcile_locals t region g m (p ∷ ps) =
    reconcile_locals t region (reconcile_policy t region g (some p) (lookup str_dec p.id m))
      (erase str_dec p.id m) ps

-- The loop over what is left in the map.
unfoldable pub reconcile_remotes : LocalTransport → String → Progress → List Policy → Progress
reconcile_remotes t region g [] = g
reconcile_remotes t region g (p ∷ ps) =
    reconcile_remotes t region (reconcile_policy t region g none (some p)) ps

abbrev pub reconcile_listed :
    Option (List Policy) → LocalTransport → String → Progress → List Policy → Progress
reconcile_listed none t region g local = record g {
  rep = record (g.rep) { errors = bump g.rep.errors };
  failures = g.failures ++ not_listed ∷ [];
}
reconcile_listed (some remote) t region g local =
    let r = reconcile_locals t region g (by_id [] remote) local in
    reconcile_remotes t region r.0 (policies_of r.1)

unfoldable pub reconcile_region : LocalTransport → String → Progress → Progress
reconcile_region t region g =
    reconcile_listed (list_policies t g.heap region) t region g (list (store_at g.heap g.rep.store))

unfoldable pub reconcile_regions : LocalTransport → List String → Progress → Progress
reconcile_regions t [] g = g
reconcile_regions t (region ∷ rs) g = reconcile_regions t rs (reconcile_region t region g)

unfoldable pub reconcile : LocalTransport → RegionRegistry → Replicator → Heap → Progress
reconcile t r rep h =
    reconcile_regions t (targets rep r)
      (record { rep = record rep { scans = bump rep.scans }; heap = h; failures = [] })
