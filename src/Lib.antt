-- ===== src/Lib.antt =====
-- symkernel: models and proofs of the parts of the verification kernel that keep state.
--
-- symkernel checks policies with several engines (CEL, Z3, WebAssembly) behind HTTP handlers.
-- Around the engines stand components with state of their own: a circuit breaker that guards
-- calls of Z3, a cache of results, a router between the engines, nodes that elect a leader and
-- share out work, a hash ring that assigns keys to nodes, the governance of policies from draft
-- to retirement, and their replication between regions. They do not share state: each is
-- a module here, with its state as a record and one function for each operation.
-- A method that holds a mutex is one step. The clock, timers and random draws are arguments of
-- the steps, so that theorems hold for all readings and draws.
--
-- CircuitBreaker.antt: internal/circuitbreaker/circuitbreaker.go. `new`, `allow`,
--   `record_timeout` and `record_success` are New, Allow, RecordTimeout and RecordSuccess;
--   instants are nanoseconds in the integers and do not overflow. Below it, Invariant, Trips
--   and Probe hold the proofs about all calls, the trip and the half-open probe.
-- Coordination.antt: internal/distributed/coordination/coordination.go. Node is the state,
--   Receive the handlers and timers (`handle`, `step_timers`, `run_tick`), Work is Assign and
--   NodeLoad, Cluster a cluster of nodes as a step relation: any node ticks, or any message
--   that was ever sent arrives at it. Delay, loss, repetition and partitions are choices of steps.
--   Terms are 64-bit and wrap around. Quorum and Deal are about a leader alone and about the
--   turns that Assign takes, Election about votes in a cluster.
-- Sharding.antt: internal/distributed/sharding/ring.go as Ring, with the proofs in Owner,
--   Counts, Moves and Migration. The hash (xxhash) and sort.Slice are parameters: any
--   function, and any sorter that permutes into order. NodeManager is node_manager.go over the
--   ring: `join`, `heartbeat`, `leave` and `check_health`, whose proofs are in Agreement and
--   Silence; what OnChange is handed is part of the result. Durations do not overflow.
-- Governance.antt: internal/governance. Version and Schema are schema.go, Lifecycle and its
--   Store lifecycle.go, Approval, Staging, Rollback and BlueGreen the files of those names.
--   Policies are handed on by value. A map that the code ranges over is an association list in
--   an arbitrary order. `migration_chain` takes a number of steps as fuel, for the
--   code's loop has no bound.
-- Federation.antt: internal/federation. Store is policy.go, Regions region.go; Transport is
--   LocalTransport, Replicator the anti-entropy pass and Member the facade, all of
--   replicator.go. A store is an object at an address of a heap, and Mount binds a region to an
--   address, so two names can share a store. Counters and versions wrap at 2^64. Regions.Routing is
--   about the router, Replicator.Pass and Merge about one pass over a region, Newer and
--   Converge about passes in turn, Member.Delivery about what a write reaches.
-- Orchestrator.antt: internal/orchestrator/orchestrator.go. `select_tier` is selectTier, `route` is
--   Route, `stats` Stats. The texts of reasons are the values they are rendered from, the map
--   of counters a function of the tier, and an average its two terms. Choice,
--   Selection, Others and Counts are about the tier, the alternatives and the counters.
-- Cache.antt: internal/cache/cache.go. Store holds the state and removeEntryLocked, Evict is
--   evictLocked with the slices that share one array, Calls the methods. Hashes are parameters, a
--   panic is the result `none`. The second pass takes the length of the order as fuel, which is
--   enough because each turn shortens the order. Ends is about that loop, Unexpired, Fill and
--   Turns about Set where nothing has expired, Forgets about eviction, Exhaust and Hits about
--   what follows, Tags, Consistent, Methods and Invalidation about the tag index.
-- Base.antt: what the others share: tests and conditionals, lists, integers, maps
--   (`lookup`, `insert`, `erase`), sorted texts, the order of texts, sorting by insertion and
--   decimal numbers.
--
-- The modules named Tests hold runs at concrete inputs and the theorems applied to them.
--
-- Not modelled: the engines and their drivers (internal/cel, z3, smt, smthttp, sandbox), which
-- call code outside the repository; the handlers, the distributed cache and the one of
-- symbolic results, tenants, imports, repair, audit and metrics (the other
-- directories of internal); the commands under cmd.
-- ParseSchemaVersion, which reads with fmt.Sscanf, and functions that only render are left out.
pub mod Base
pub mod CircuitBreaker
pub mod Coordination
pub mod Sharding
pub mod Governance
pub mod Federation
pub mod Orchestrator
pub mod Cache
