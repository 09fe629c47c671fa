-- ===== src/Cache/Hits.antt =====
-- internal/cache/cache.go: what GetByKey answers after Set.
use symkernel.Base.{
  ℕ, suc, ◌≤◌, ◌≡◌, ◌≢◌, refl, List, Option, none, some, if◌then◌else◌, arith, length, ap, ◌∙◌, sym,
}
use symkernel.Base.Int.{ℤ, ltb_ℤ, ◌+ℤ◌}
use symkernel.Base.Dict.{lookup, insert, lookup-insert}
use symkernel.Cache.Store.{CacheKey, key_dec, CacheEntry, Cache, is_expired}
use symkernel.Cache.Calls.{got, get_by_key, ttl_of}
use symkernel.Cache.Fill.{SetCall, make, entry_of, stored, InTime, IsLive}
use symkernel.Cache.Turns.{room_step}

module _ {A : Type 0} where
  -- The value of an entry that has not expired.
  abbrev pub answer : Option (CacheEntry A) → ℤ → Option A
  answer none at = none
  answer (some e) at = if is_expired at e then none else some e.value

  got-answer :
      (o : Option (CacheEntry A)) (k : CacheKey) (at : ℤ) (c : Cache A)
      → (got o k at c).1 ≡ answer o at
  got-answer none k at c = refl
  got-answer (some e) k at c = ground arith

  pub get_by_key-answer :
      (k : CacheKey) (at : ℤ) (c : Cache A)
      → (get_by_key k at c).1 ≡ answer (lookup key_dec k c.entries) at
  unfolding get_by_key
  get_by_key-answer k at c = got-answer (lookup key_dec k c.entries) k at c

  found_new :
      (k : CacheKey) (e : CacheEntry A) (m : List (CacheKey × CacheEntry A))
      → lookup key_dec k (insert key_dec k e m) ≡ some e
  found_new k e m = ground (arith, lookup-insert key_dec k k e m)

  found_other :
      (k j : CacheKey) (e : CacheEntry A) (m : List (CacheKey × CacheEntry A))
      → j ≢ k
      → lookup key_dec j (insert key_dec k e m) ≡ lookup key_dec j m
  found_other k j e m ne = ground (arith, lookup-insert key_dec k j e m, ne)

  -- In a cache with room in which nothing has expired, Set for a new key returns, and any later
  -- GetByKey answers the value that was set up to the instant at which the entry expires and
  -- nothing after it, and for other keys what it answered before.
  pub set_then_get :
      (t ttl : ℤ) (n : ℕ) (c : Cache A) (x : SetCall A) (at : ℤ)
      → IsLive t ttl n c
      → lookup key_dec x.key c.entries ≡ none
      → InTime t ttl x
      → suc (length c.entries) ≤ n
      → (c' : Cache A) × (make x c ≡ some c')
        × ((get_by_key x.key at c').1
            ≡ (if ltb_ℤ (x.now +ℤ ttl_of ttl x.ttl_override) at then none else some x.value))
        × ((j : CacheKey) → j ≢ x.key → (get_by_key j at c').1 ≡ (get_by_key j at c).1)
  set_then_get t ttl n c x at v h i room =
      let step = room_step t ttl n c x v h i room in
      let c' = stored x c in
      (
        c',
        step.0,
        get_by_key-answer x.key at c'
            ∙ ap (λ o. answer o at) (found_new x.key (entry_of c.ttl x) c.entries)
            ∙ ap (λ l. if ltb_ℤ (x.now +ℤ ttl_of l x.ttl_override) at then none else some x.value)
                v.same_ttl,
        λ j ne.
            get_by_key-answer j at c'
            ∙ ap (λ o. answer o at) (found_other x.key j (entry_of c.ttl x) c.entries ne)
            ∙ sym (get_by_key-answer j at c),
      )
