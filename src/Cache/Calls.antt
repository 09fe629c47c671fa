-- ===== src/Cache/Calls.antt =====
-- internal/cache/cache.go: the methods. `now` is the first reading of the clock of a call and, in `set`,
-- `later` the one that evictLocked makes.
use symkernel.Base.{
  ℕ, ◌+◌, List, [], ◌∷◌, ◌++◌, Bool, String, Option, none, some, if◌then◌else◌, str_dec, str_is,
  length,
}
use symkernel.Base.Int.{ℤ, pos, ltb_ℤ, ◌+ℤ◌}
use symkernel.Base.Dict.{lookup, insert}
use symkernel.Cache.Store.{
  CacheKey, key_dec, CacheEntry, KeySet, TagIndex, Cache, bump, keys_of, tag_all, remove_entry,
  promote, is_expired,
}
use symkernel.Cache.Evict.{evict}

abbrev pub missed : {A : Type 0} → Cache A → Cache A
missed c = record c { misses = bump c.misses }

abbrev pub touched : {A : Type 0} → CacheKey → ℤ → CacheEntry A → Cache A → Cache A
touched key now e c = record c {
  entries = insert key_dec key (record e { last_access = now }) c.entries;
}

abbrev pub got : {A : Type 0} → Option (CacheEntry A) → CacheKey → ℤ → Cache A → Cache A × Option A
got none key now c = (missed c, none)
got (some e) key now c =
    if is_expired now e
    then (missed (remove_entry key c), none)
    else (let c' = promote key (touched key now e c) in
        (record c' { hits = bump c'.hits }, some e.value))

unfoldable pub get_by_key : {A : Type 0} → CacheKey → ℤ → Cache A → Cache A × Option A
get_by_key key now c = got (lookup key_dec key c.entries) key now c

abbrev pub got_hashed :
    {A : Type 0} → Option String → String → ℤ → Cache A → Option (Cache A × Option A)
got_hashed none expr_hash now c = none
got_hashed (some context_hash) expr_hash now c =
    some (get_by_key (record { expr_hash = expr_hash; context_hash = context_hash }) now c)

-- SHA-256 and JSON encoding are parameters; `none` is a context that cannot be encoded.
unfoldable pub get :
    {A B : Type 0}
    → (String → String)
    → (B → Option String)
    → String
    → B
    → ℤ
    → Cache A
    → Option (Cache A × Option A)
get hash_expr hash_context expr ctx now c = got_hashed (hash_context ctx) (hash_expr expr) now c

abbrev pub ttl_of : ℤ → Option ℤ → ℤ
ttl_of ttl none = ttl
ttl_of ttl (some d) = if ltb_ℤ (pos 0) d then d else ttl

abbrev pub new_entry : {A : Type 0} → A → List String → ℤ → ℤ → CacheEntry A
new_entry value tags ttl now = record {
  value = value;
  tags = tags;
  expires_at = now +ℤ ttl;
  last_access = now;
}

-- The entry is put under the key, which the cache does not hold.
abbrev pub store_entry : {A : Type 0} → CacheKey → CacheEntry A → Cache A → Cache A
store_entry key e c = record c {
  entries = insert key_dec key e c.entries;
  access_order = c.access_order ++ key ∷ [];
  tag_index = tag_all key e.tags c.tag_index;
}

-- `remove_entry` does nothing where the key is missing, as the guard of the source.
unfoldable pub set :
    {A : Type 0} → CacheKey → A → List String → Option ℤ → ℤ → ℤ → Cache A → Option (Cache A)
set key value tags ttl_override now later c =
    evict later
      (store_entry key (new_entry value tags (ttl_of c.ttl ttl_override) now) (remove_entry key c))

unfoldable pub remove_all : {A : Type 0} → KeySet → Cache A → Cache A
remove_all [] c = c
remove_all ((k, u) ∷ ks) c = remove_all ks (remove_entry k c)

-- A removal deletes no other key from the set that the source ranges over.
unfoldable pub invalidate_by_tag : {A : Type 0} → String → Cache A → Cache A × ℕ
invalidate_by_tag tag c =
    let ks = keys_of (lookup str_dec tag c.tag_index) in (remove_all ks c, length ks)

unfoldable pub invalidate_all : {A : Type 0} → Cache A → Cache A × ℕ
invalidate_all c = (record c { entries = []; access_order = []; tag_index = [] }, length c.entries)

-- The body of an invalidation request; `none` is the answer 400.
pub record InvalidateRequest : Type 0 where
  pub tag : String
  pub tags : List String
  pub all : Bool

unfoldable pub invalidate_tags : {A : Type 0} → List String → Cache A → ℕ → Cache A × ℕ
invalidate_tags [] c count = (c, count)
invalidate_tags (tag ∷ tags) c count =
    let r = invalidate_by_tag tag c in invalidate_tags tags r.0 (count + r.1)

abbrev pub invalidate_named : {A : Type 0} → List String → String → Cache A → Option (Cache A × ℕ)
invalidate_named [] tag c = if str_is tag "" then none else some (invalidate_by_tag tag c)
invalidate_named (t ∷ ts) tag c = some (invalidate_tags (t ∷ ts) c 0)

-- A body that cannot be decoded counts as a request for all.
unfoldable pub handle_invalidate :
    {A : Type 0} → Option InvalidateRequest → Cache A → Option (Cache A × ℕ)
handle_invalidate none c = some (invalidate_all c)
handle_invalidate (some r) c =
    if r.all then some (invalidate_all c) else invalidate_named r.tags r.tag c

pub record CacheStats : Type 0 where
  pub size : ℕ
  pub capacity : ℕ
  pub hits : ℕ
  pub misses : ℕ
  pub evictions : ℕ
  pub tags : ℕ
  pub default_ttl : ℤ
  pub tag_count : List (String × ℕ)

unfoldable pub tag_counts : TagIndex → List (String × ℕ)
tag_counts [] = []
tag_counts ((tag, ks) ∷ index) = (tag, length ks) ∷ tag_counts index

unfoldable pub stats : {A : Type 0} → Cache A → CacheStats
stats c = record {
  size = length c.entries;
  capacity = c.capacity;
  hits = c.hits;
  misses = c.misses;
  evictions = c.evicts;
  tags = length c.tag_index;
  default_ttl = c.ttl;
  tag_count = tag_counts c.tag_index;
}
