-- ===== src/Cache/Store.antt =====
-- internal/cache/cache.go: the cache of evaluation results, its entries and its tag index.
use symkernel.Base.{
  ℕ, ◌+◌, ◌%◌, ◌≡◌, List, [], ◌∷◌, ◌++◌, Bool, String, Option, none, some, if◌then◌else◌, ite,
  str_dec, ap,
}
use symkernel.Base.Int.{ℤ, pos, negsuc, ltb_ℤ}
use symkernel.Base.Dict.{lookup, insert, erase}

-- The two hashes.
pub record CacheKey : Type 0 where
  pub expr_hash : String
  pub context_hash : String

pub key_parts :
    {a b : CacheKey} → a.expr_hash ≡ b.expr_hash → a.context_hash ≡ b.context_hash → a ≡ b
key_parts p q i = record { expr_hash = p i; context_hash = q i }

unfoldable pub key_dec : Discrete CacheKey
key_dec a b = elim (str_dec a.expr_hash b.expr_hash) [
  | no n ↦ no (λ e. n (ap (λ k. k.expr_hash) e))
  | yes p ↦ elim (str_dec a.context_hash b.context_hash) [
    | no n ↦ no (λ e. n (ap (λ k. k.context_hash) e))
    | yes q ↦ yes (key_parts p q)
  ]
]

-- Any JSON value is an `A`; instants and durations are nanoseconds.
pub record CacheEntry (A : Type 0) : Type 0 where
  pub value : A
  pub tags : List String
  pub expires_at : ℤ
  pub last_access : ℤ

-- A set of keys is a map into the unit type.
abbrev pub KeySet : Type 0
KeySet = List (CacheKey × Unit)

abbrev pub TagIndex : Type 0
TagIndex = List (String × KeySet)

pub record Cache (A : Type 0) : Type 0 where
  pub entries : List (CacheKey × CacheEntry A)
  pub access_order : List CacheKey
  pub tag_index : TagIndex
  pub capacity : ℕ
  pub ttl : ℤ
  pub hits : ℕ
  pub misses : ℕ
  pub evicts : ℕ

-- Of the options only a positive number counts.
pub data CacheOption : Type 0 where
  with_capacity : ℤ → CacheOption
  with_ttl : ℤ → CacheOption

abbrev pub count_of : ℤ → ℕ
count_of (pos n) = n
count_of (negsuc n) = 0

unfoldable pub apply_option : {A : Type 0} → Cache A → CacheOption → Cache A
apply_option c (with_capacity n) = if ltb_ℤ (pos 0) n then record c { capacity = count_of n } else c
apply_option c (with_ttl d) = if ltb_ℤ (pos 0) d then record c { ttl = d } else c

unfoldable pub apply_options : {A : Type 0} → Cache A → List CacheOption → Cache A
apply_options c [] = c
apply_options c (o ∷ os) = apply_options (apply_option c o) os

unfoldable pub new : {A : Type 0} → List CacheOption → Cache A
new options =
    apply_options
      (record {
        entries = [];
        access_order = [];
        tag_index = [];
        capacity = 10_000;
        ttl = pos 300_000_000_000;
        hits = 0;
        misses = 0;
        evicts = 0;
      })
      options

abbrev pub bump : ℕ → ℕ
bump n = (n + 1) % 18_446_744_073_709_551_616

abbrev pub keys_of : Option KeySet → KeySet
keys_of none = []
keys_of (some ks) = ks

abbrev pub shrink : String → KeySet → TagIndex → TagIndex
shrink tag [] index = erase str_dec tag index
shrink tag (k ∷ ks) index = insert str_dec tag (k ∷ ks) index

-- The loop of `removeEntryLocked` over the tags.
unfoldable pub untag : CacheKey → List String → TagIndex → TagIndex
untag key [] index = index
untag key (tag ∷ tags) index =
    untag key tags (shrink tag (erase key_dec key (keys_of (lookup str_dec tag index))) index)

-- The loop of `Set` over the tags.
unfoldable pub tag_all : CacheKey → List String → TagIndex → TagIndex
tag_all key [] index = index
tag_all key (tag ∷ tags) index =
    tag_all key tags
      (insert str_dec tag (insert key_dec key tt (keys_of (lookup str_dec tag index))) index)

-- The first place of the key is closed up.
unfoldable pub drop_first : CacheKey → List CacheKey → List CacheKey
drop_first key [] = []
drop_first key (k ∷ ks) = ite (key_dec k key) ks (k ∷ drop_first key ks)

abbrev pub removed : {A : Type 0} → Option (CacheEntry A) → CacheKey → Cache A → Cache A
removed none key c = c
removed (some e) key c = record c {
  tag_index = untag key e.tags c.tag_index;
  entries = erase key_dec key c.entries;
  access_order = drop_first key c.access_order;
}

unfoldable pub remove_entry : {A : Type 0} → CacheKey → Cache A → Cache A
remove_entry key c = removed (lookup key_dec key c.entries) key c

unfoldable pub promote : {A : Type 0} → CacheKey → Cache A → Cache A
promote key c = record c { access_order = drop_first key c.access_order ++ key ∷ [] }

abbrev pub is_expired : {A : Type 0} → ℤ → CacheEntry A → Bool
is_expired now e = ltb_ℤ e.expires_at now
