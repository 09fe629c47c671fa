-- ===== src/Cache/Fill.antt =====
-- internal/cache/cache.go: Set on a cache in which nothing has expired, below its capacity and at it.
use symkernel.Base.{
  ℕ, ◌≡◌, ◌≢◌, refl, List, [], ◌∷◌, ◌++◌, String, Option, none, some, All, All-append, arith,
  length, ap, sym, ◌∙◌, length_one,
}
use symkernel.Base.Int.{ℤ, ◌≤ℤ◌}
use symkernel.Base.Dict.{lookup, lookup-insert}
use symkernel.Base.Distinct.{IsDistinct, insert-IsDistinct}
use symkernel.Cache.Store.{CacheKey, key_dec, CacheEntry, Cache, drop_first, remove_entry}
use symkernel.Cache.Evict.{and_then, evict}
use symkernel.Cache.Calls.{ttl_of, new_entry, store_entry, set}
use symkernel.Cache.Unexpired.{Held}

-- No key twice.
abbrev pub Once : List CacheKey → Type 0
Once [] = Unit
Once (k ∷ ks) = All (λ j. j ≢ k) ks × Once ks

pub Once-append :
    (xs : List CacheKey) (y : CacheKey) → Once xs → All (λ x. x ≢ y) xs → Once (xs ++ y ∷ [])
Once-append [] y h a = ground arith
Once-append (x ∷ xs) y h a =
    (All-append (λ j. j ≢ x) xs (y ∷ []) h.0 ((λ e. a.0 (sym e)), tt), Once-append xs y h.1 a.1)

-- The arguments of `Set`, and the readings of the clock.
pub record SetCall (A : Type 0) : Type 0 where
  pub key : CacheKey
  pub value : A
  pub tags : List String
  pub ttl_override : Option ℤ
  pub now : ℤ
  pub later : ℤ

pub drop_first_head : (k : CacheKey) (ks : List CacheKey) → drop_first k (k ∷ ks) ≡ ks
unfolding drop_first
drop_first_head k ks = ground arith

pub map_all :
    {A : Type 0} (P Q : A → Type 0) (xs : List A) → ((x : A) → P x → Q x) → All P xs → All Q xs
map_all P Q [] f h = tt
map_all P Q (x ∷ xs) f h = (f x h.0, map_all P Q xs f h.1)

pub map_both :
    {A : Type 0} (P Q R : A → Type 0) (xs : List A)
    → ((x : A) → P x → Q x → R x)
    → All P xs
    → All Q xs
    → All R xs
map_both P Q R [] f h k = tt
map_both P Q R (x ∷ xs) f h k = (f x h.0 k.0, map_both P Q R xs f h.1 k.1)

pub two_left :
    (ks : List CacheKey) (k : CacheKey)
    → (b : CacheKey) × (rest : List CacheKey) × (ks ++ k ∷ [] ≡ b ∷ rest)
      × (length rest ≡ length ks)
two_left [] k = (k, [], refl, refl)
two_left (j ∷ ks) k = (j, ks ++ k ∷ [], refl, length_one ks k)

module _ {A : Type 0} where
  abbrev pub make : SetCall A → Cache A → Option (Cache A)
  make x c = set x.key x.value x.tags x.ttl_override x.now x.later c

  unfoldable pub fill : List (SetCall A) → Cache A → Option (Cache A)
  fill [] c = some c
  fill (x ∷ xs) c = and_then (make x c) (fill xs)

  abbrev pub entry_of : ℤ → SetCall A → CacheEntry A
  entry_of ttl x = new_entry x.value x.tags (ttl_of ttl x.ttl_override) x.now

  -- The entry lasts to the instant, and `evictLocked` reads no later one.
  abbrev pub InTime : ℤ → ℤ → SetCall A → Type 0
  InTime t ttl x = (x.later ≤ℤ t) × (t ≤ℤ (entry_of ttl x).expires_at)

  abbrev pub stored : SetCall A → Cache A → Cache A
  stored x c = store_entry x.key (entry_of c.ttl x) c

  pub remove_missing :
      (k : CacheKey) (c : Cache A) → lookup key_dec k c.entries ≡ none → remove_entry k c ≡ c
  unfolding remove_entry
  remove_missing k c h = rw h refl

  pub make_new :
      (x : SetCall A) (c : Cache A)
      → lookup key_dec x.key c.entries ≡ none
      → make x c ≡ evict x.later (store_entry x.key (entry_of c.ttl x) c)
  unfolding set
  make_new x c h =
      ap (λ d. evict x.later (store_entry x.key (entry_of c.ttl x) d)) (remove_missing x.key c h)

  pub record IsLive (t ttl : ℤ) (n : ℕ) (c : Cache A) : Type 0 where
    pub same_ttl : c.ttl ≡ ttl
    pub same_capacity : c.capacity ≡ n
    pub distinct : IsDistinct key_dec c.entries
    pub once : Once c.access_order
    pub held : All (Held t c) c.access_order

  pub stored-Held :
      (t : ℤ) (c : Cache A) (k : CacheKey) (e : CacheEntry A)
      → t ≤ℤ e.expires_at
      → (j : CacheKey) → Held t c j
      → Held t (store_entry k e c) j
  stored-Held t c k e lasts j (f, found, on) = elim (key_dec k j) [
    | yes p ↦ (e, ground (arith, lookup-insert key_dec k j e c.entries, p), lasts)
    | no ne ↦ (f, ground (arith, lookup-insert key_dec k j e c.entries, ne, found), on)
  ]

  pub other_key :
      (t : ℤ) (c : Cache A) (k : CacheKey)
      → lookup key_dec k c.entries ≡ none
      → (j : CacheKey) → Held t c j
      → j ≢ k
  other_key t c k h j (f, found, on) e =
      ground (arith, sym found ∙ ap (λ i. lookup key_dec i c.entries) e ∙ h)

  pub store_entry-IsLive :
      (t ttl : ℤ) (n : ℕ) (c : Cache A) (k : CacheKey) (e : CacheEntry A)
      → IsLive t ttl n c
      → lookup key_dec k c.entries ≡ none
      → t ≤ℤ e.expires_at
      → IsLive t ttl n (store_entry k e c)
  store_entry-IsLive t ttl n c k e v h lasts = record {
    same_ttl = v.same_ttl;
    same_capacity = v.same_capacity;
    distinct = insert-IsDistinct key_dec k e c.entries v.distinct;
    once =
        Once-append c.access_order k v.once
          (map_all (Held t c) (λ j. j ≢ k) c.access_order (other_key t c k h) v.held);
    held =
        All-append (Held t (store_entry k e c)) c.access_order (k ∷ [])
          (map_all (Held t c) (Held t (store_entry k e c)) c.access_order
            (stored-Held t c k e lasts) v.held)
          ((e, ground (arith, lookup-insert key_dec k k e c.entries), lasts), tt);
  }
