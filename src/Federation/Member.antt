-- ===== src/Federation/Member.antt =====
-- internal/federation/replicator.go: the facade, which authors policies and pushes them.
pub mod Delivery
use symkernel.Base.{
  ℕ, List, [], ◌∷◌, ◌++◌, Bool, true, false, String, Option, none, some, if◌then◌else◌, str_is,
}
use symkernel.Base.Int.{ℤ, pos}
use symkernel.Federation.Store.{
  Policy, ReplicationConfig, ReplicationMode, replication_async, replication_sync, delete,
}
use symkernel.Federation.Regions.{RegionRegistry, new_region_registry, set_health, set_latency}
use symkernel.Federation.Transport.{Heap, LocalTransport, store_at, put_at, get_at, put_policy}
use symkernel.Federation.Replicator.{Replicator, Progress, new_replicator, targets, reconcile, bump}
use symkernel.Base.Dict.{insert}
use symkernel.Base.{ℕ_discrete, length, count_if}
use symkernel.Federation.Store.{list as list_policies}
use symkernel.Federation.Regions.{list as list_regions}

-- The local store is the replicator's; `reconcile` and `put` act on the same heap.
pub record Federation : Type 0 where
  pub self : String
  pub registry : RegionRegistry
  pub transport : LocalTransport
  pub replicator : Replicator
  pub cfg : ReplicationConfig
  pub authored : ℕ
  pub sync_pushes : ℕ

pub data Setting : Type 0 where
  with_store : ℕ → Setting
  with_registry : RegionRegistry → Setting
  with_transport : LocalTransport → Setting
  with_config : ReplicationConfig → Setting

pub record Parts : Type 0 where
  pub store : Option ℕ
  pub registry : Option RegionRegistry
  pub transport : Option LocalTransport
  pub cfg : ReplicationConfig

unfoldable pub apply_setting : Parts → Setting → Parts
apply_setting f (with_store s) = record f { store = some s }
apply_setting f (with_registry r) = record f { registry = some r }
apply_setting f (with_transport t) = record f { transport = some t }
apply_setting f (with_config c) = record f { cfg = c }

unfoldable pub apply_settings : Parts → List Setting → Parts
apply_settings f [] = f
apply_settings f (o ∷ os) = apply_settings (apply_setting f o) os

abbrev given {ℓ} : {A : Type ℓ} → Option A → A → A
given none d = d
given (some a) d = a

-- `fresh` is the address of the memory store that is made where none is given. The replicator
-- sets the default interval.
unfoldable pub new : String → ℕ → List Setting → Federation
new self fresh options =
    let f =
      apply_settings
        (record {
          store = none;
          registry = none;
          transport = none;
          cfg = record { mode = replication_async; interval = pos 0; regions = [] };
        })
        options in
    let rep = new_replicator self (given f.store fresh) f.cfg in
    record {
      self = self;
      registry = given f.registry (new_region_registry self);
      transport = given f.transport [];
      replicator = rep;
      cfg = rep.cfg;
      authored = 0;
      sync_pushes = 0;
    }

-- The heap, the regions that could not be reached, and the counter of `pushNow`.
pub record Sent : Type 0 where
  pub heap : Heap
  pub unreached : List String
  pub count : ℕ

abbrev pub push_one : Option Heap → String → Sent → Sent
push_one none region s = record s { unreached = s.unreached ++ region ∷ [] }
push_one (some h) region s = record s { heap = h; count = bump s.count }

unfoldable pub push_now : LocalTransport → Policy → List String → Sent → Sent
push_now t p [] s = s
push_now t p (region ∷ rs) s = push_now t p rs (push_one (put_policy t s.heap region p) region s)

pub data PutResult : Type 0 where
  empty_id : PutResult
  replicated : Policy → PutResult
  partly_pushed : Policy → List String → PutResult

abbrev pub next_version : Option Policy → ℕ
next_version none = 1
next_version (some cur) = bump cur.version

abbrev pub authored_policy : Federation → Heap → String → List ℕ → ℤ → Policy
authored_policy f h id body now = record {
  id = id;
  version = next_version (get_at h f.replicator.store id);
  body = body;
  origin_region = f.self;
  updated_at = now;
}

abbrev pub result_of : Policy → List String → PutResult
result_of p [] = replicated p
result_of p (region ∷ rs) = partly_pushed p (region ∷ rs)

-- The synchronous mode pushes what was written; the other leaves it to the next pass.
unfoldable pub deliver :
    ReplicationMode → Federation → Heap → Policy → (Federation × Heap) × PutResult
deliver replication_async f h p = ((f, h), replicated p)
deliver replication_sync f h p =
    let sent =
      push_now f.transport p (targets f.replicator f.registry)
        (record { heap = h; unreached = []; count = f.sync_pushes }) in
    ((record f { sync_pushes = sent.count }, sent.heap), result_of p sent.unreached)

unfoldable pub put : Federation → Heap → String → List ℕ → ℤ → (Federation × Heap) × PutResult
put f h id body now =
    if str_is id ""
    then ((f, h), empty_id)
    else (let p = authored_policy f h id body now in
        deliver f.cfg.mode (record f { authored = bump f.authored }) (put_at h f.replicator.store p)
          p)

unfoldable pub get : Federation → Heap → String → Option Policy
get f h id = get_at h f.replicator.store id

-- `Delete` is local only.
unfoldable pub delete_local : Federation → Heap → String → Heap
delete_local f h id =
    insert ℕ_discrete f.replicator.store (delete (store_at h f.replicator.store) id) h

unfoldable pub reconcile_once : Federation → Heap → Federation × Progress
reconcile_once f h =
    let g = reconcile f.transport f.registry f.replicator h in (record f { replicator = g.rep }, g)

unfoldable pub set_region_health : Federation → String → Bool → Federation × Bool
unfolding set_health
set_region_health f id healthy =
    let r = set_health f.registry id healthy in (record f { registry = r.0 }, r.1)

unfoldable pub set_region_latency : Federation → String → ℤ → Federation × Bool
unfolding set_latency
set_region_latency f id d =
    let r = set_latency f.registry id d in (record f { registry = r.0 }, r.1)

abbrev mode_text : ReplicationMode → String
mode_text replication_async = "async"
mode_text replication_sync = "sync"

-- `interval` is rendered by the source.
pub record FederationStats : Type 0 where
  pub self : String
  pub mode : String
  pub interval : ℤ
  pub regions : ℕ
  pub healthy_regions : ℕ
  pub targets : ℕ
  pub policies : ℕ
  pub authored : ℕ
  pub sync_pushes : ℕ
  pub scans : ℕ
  pub pushed : ℕ
  pub pulled : ℕ
  pub skipped : ℕ
  pub errors : ℕ

unfoldable pub stats : Federation → Heap → FederationStats
stats f h = record {
  self = f.self;
  mode = mode_text f.cfg.mode;
  interval = f.cfg.interval;
  regions = length (list_regions f.registry);
  healthy_regions = count_if (λ reg. reg.healthy) (list_regions f.registry);
  targets = length (targets f.replicator f.registry);
  policies = length (list_policies (store_at h f.replicator.store));
  authored = f.authored;
  sync_pushes = f.sync_pushes;
  scans = f.replicator.scans;
  pushed = f.replicator.pushed;
  pulled = f.replicator.pulled;
  skipped = f.replicator.skipped;
  errors = f.replicator.errors;
}
