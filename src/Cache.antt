-- ===== src/Cache.antt =====
-- internal/cache/cache.go: the cache of evaluation results. A method is one step under the lock.
pub mod Store
pub mod Evict
pub mod Calls
pub mod Unexpired
pub mod Fill
pub mod Turns
pub mod Ends
pub mod Forgets
pub mod Exhaust
pub mod Hits
pub mod Tags
pub mod Consistent
pub mod Methods
pub mod Invalidation
mod Tests
