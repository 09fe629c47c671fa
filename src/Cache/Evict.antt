-- ===== src/Cache/Evict.antt =====
-- internal/cache/cache.go: evictLocked and the slices that it works on.
use symkernel.Base.{
  ℕ, zero, suc, List, [], ◌∷◌, ◌++◌, Option, none, some, if◌then◌else◌, ltb, length, get_elem?,
}
use symkernel.Base.Int.{ℤ}
use symkernel.Base.Dict.{lookup}
use symkernel.Cache.Store.{CacheKey, key_dec, CacheEntry, Cache, bump, remove_entry, is_expired}

unfoldable pub last_key : CacheKey → List CacheKey → CacheKey
last_key k [] = k
last_key k (j ∷ js) = last_key j js

-- The array behind the access order while the first pass of `evictLocked` ranges over it: the order,
-- then the places that removals have left at its end, each with what stood last at that time.
abbrev pub left_over : List CacheKey → List CacheKey → List CacheKey → List CacheKey
left_over [] after stale = stale
left_over (k ∷ ks) after stale =
    if ltb (length after) (length (k ∷ ks)) then last_key k ks ∷ stale else stale

-- The first pass: the cache, what the array holds past its order, and the slice `fresh`.
pub record Sweep (A : Type 0) : Type 0 where
  pub cache : Cache A
  pub stale : List CacheKey
  pub fresh : List CacheKey

abbrev pub and_then : {A B : Type 0} → Option A → (A → Option B) → Option B
and_then none f = none
and_then (some a) f = f a

-- `none` is the panic of reading an entry that is not there.
abbrev pub sweep_key :
    {A : Type 0} → CacheKey → Option (CacheEntry A) → ℤ → Sweep A → Option (Sweep A)
sweep_key key none now s = none
sweep_key key (some e) now s =
    let c = remove_entry key s.cache in
    if is_expired now e
    then some (record {
      cache = record c { evicts = bump c.evicts };
      stale = left_over s.cache.access_order c.access_order s.stale;
      fresh = s.fresh;
    })
    else some (record s { fresh = s.fresh ++ key ∷ [] })

-- The array keeps its length, so a place is always there.
abbrev pub sweep_place : {A : Type 0} → Option CacheKey → ℤ → Sweep A → Option (Sweep A)
sweep_place none now s = some s
sweep_place (some key) now s = sweep_key key (lookup key_dec key s.cache.entries) now s

-- The places from `i` on, `steps` of them.
unfoldable pub sweep : {A : Type 0} → ℕ → ℕ → ℤ → Sweep A → Option (Sweep A)
sweep zero i now s = some s
sweep (suc steps) i now s =
    and_then (sweep_place (get_elem? (s.cache.access_order ++ s.stale) i) now s)
      (sweep steps (suc i) now)

-- `c.accessOrder = c.accessOrder[1:]`, which panics where nothing is left.
abbrev pub reslice : {A : Type 0} → List CacheKey → Cache A → Option (Cache A)
reslice [] c = none
reslice (k ∷ ks) c = some (record c { access_order = ks; evicts = bump c.evicts })

abbrev pub evict_oldest : {A : Type 0} → List CacheKey → Cache A → Option (Cache A)
evict_oldest [] c = some c
evict_oldest (key ∷ ks) c = let c' = remove_entry key c in reslice c'.access_order c'

-- The second pass. A turn shortens the order, so its length is steps enough.
unfoldable pub evict_over : {A : Type 0} → ℕ → Cache A → Option (Cache A)
evict_over zero c = some c
evict_over (suc steps) c =
    let next = and_then (evict_oldest c.access_order c) (evict_over steps) in
    if ltb c.capacity (length c.entries) then next else some c

abbrev pub second_pass : {A : Type 0} → Sweep A → Option (Cache A)
second_pass s = evict_over (length s.fresh) (record (s.cache) { access_order = s.fresh })

unfoldable pub evict : {A : Type 0} → ℤ → Cache A → Option (Cache A)
evict now c =
    and_then (sweep (length c.access_order) 0 now (record { cache = c; stale = []; fresh = [] }))
      second_pass
