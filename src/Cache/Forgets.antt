-- ===== src/Cache/Forgets.antt =====
-- internal/cache/cache.go: evictLocked over its capacity, where nothing has expired.
use symkernel.Base.{
  ℕ, zero, suc, ◌+◌, ◌≤◌, ◌≡◌, refl, List, [], ◌∷◌, Bool, true, false, none, some, if◌then◌else◌,
  All, arith, length, ap, sym, subst, ◌∙◌,
}
use symkernel.Base.Int.{ℤ, ◌≤ℤ◌}
use symkernel.Base.Dict.{lookup, lookup-erase}
use symkernel.Base.Distinct.{length-erase}
use symkernel.Cache.Store.{CacheKey, key_dec, CacheEntry, Cache}
use symkernel.Cache.Evict.{and_then, evict_over, evict}
use symkernel.Cache.Tags.{key_is}
use symkernel.Cache.Unexpired.{Held, evict_unexpired, under_capacity, over_capacity}
use symkernel.Cache.Fill.{IsLive}
use symkernel.Cache.Turns.{after_oldest, oldest_goes, after_oldest-IsLive}

-- Every other key, up to a number of them: those that go.
abbrev pub evicted : ℕ → List CacheKey → List CacheKey
evicted zero order = []
evicted (suc d) [] = []
evicted (suc d) (a ∷ []) = a ∷ []
evicted (suc d) (a ∷ b ∷ order) = a ∷ evicted d order

-- What is left of the order without that many pairs of keys.
abbrev pub without_pairs : ℕ → List CacheKey → List CacheKey
without_pairs zero order = order
without_pairs (suc d) [] = []
without_pairs (suc d) (a ∷ []) = []
without_pairs (suc d) (a ∷ b ∷ order) = without_pairs d order

abbrev pub is_among : CacheKey → List CacheKey → Bool
is_among j [] = false
is_among j (k ∷ ks) = if key_is k j then true else is_among j ks

first_two :
    (d : ℕ) (order : List CacheKey)
    → suc d + suc d ≤ length order
    → (a : CacheKey) × (b : CacheKey) × (ks : List CacheKey) × (order ≡ a ∷ b ∷ ks)
first_two d [] h = absurd (omega (arith, h))
first_two d (a ∷ []) h = absurd (omega (arith, h))
first_two d (a ∷ b ∷ ks) h = (a, b, ks, refl)

module _ {A : Type 0} where
  -- `c'` is `c` without the evicted keys and without the places of their followers.
  abbrev pub Forgets : ℕ → Cache A → Cache A → Type 0
  Forgets d c c' =
      (length c'.entries ≡ c.capacity)
      × (c'.access_order ≡ without_pairs d c.access_order)
      × ((j : CacheKey)
          → lookup key_dec j c'.entries
            ≡ (if is_among j (evicted d c.access_order) then none else lookup key_dec j c.entries))

  one_more :
      (d : ℕ) (a b : CacheKey) (e : CacheEntry A) (ks : List CacheKey) (c c' : Cache A)
      → c.access_order ≡ a ∷ b ∷ ks
      → Forgets d (after_oldest a e ks c) c'
      → Forgets (suc d) c c'
  one_more d a b e ks c c' o (size, order, found) = (
    size,
    order ∙ ap (without_pairs (suc d)) (sym o),
    (λ j.
        found j
        ∙ ap (λ x. if is_among j (evicted d ks) then none else x)
            (lookup-erase key_dec a j c.entries)
        ∙ ground arith
        ∙ ap (λ l. if is_among j (evicted (suc d) l) then none else lookup key_dec j c.entries)
            (sym o)),
  )

  turns :
      (t ttl : ℤ) (n d steps : ℕ) (c : Cache A)
      → IsLive t ttl n c
      → length c.entries ≡ c.capacity + d
      → d + d ≤ length c.access_order
      → length c.access_order ≤ steps
      → (c' : Cache A) × (evict_over steps c ≡ some c') × Forgets d c c'
  turns t ttl n zero steps c v size room fuel =
      (c, under_capacity steps c (omega (arith, size)), (omega (arith, size), refl, λ j. refl))
  turns t ttl n (suc d) zero c v size room fuel = absurd (omega (arith, room, fuel))
  turns t ttl n (suc d) (suc steps) c v size room fuel =
      let (a, b, ks, o) = first_two d c.access_order room in
      let (e, found, on) : Held t c a = (subst (All (Held t c)) o v.held).0 in
      let c1 = after_oldest a e ks c in
      let less = length-erase key_dec a e c.entries v.distinct found in
      let long = ap length o in
      let (c', done, forgets) =
        turns t ttl n d steps c1 (after_oldest-IsLive t ttl n a b e ks c o v)
          (omega (arith, less, size)) (omega (arith, long, room)) (omega (arith, long, fuel)) in
      (
        c',
        over_capacity steps c (omega (arith, size))
            ∙ ap (λ r. and_then r (evict_over steps)) (oldest_goes a b ks e c o found)
            ∙ done,
        one_more d a b e ks c c' o forgets,
      )

  -- In a cache with distinct keys in its entries, where each key of the access order stands there once and has
  -- an entry that lasts to the instant `t`, with `d` entries more than the capacity and an order of
  -- at least twice as many keys, evictLocked at an instant up to `t` returns. The cache is then at its
  -- capacity; the first key of the order and every other one after it, `d` in all, have lost their
  -- entries, and no other entry is touched; the keys between them keep their entries but have lost
  -- their places, and the rest of the order is as it was.
  pub evict-Forgets :
      (t ttl now : ℤ) (n d : ℕ) (c : Cache A)
      → IsLive t ttl n c
      → now ≤ℤ t
      → length c.entries ≡ c.capacity + d
      → d + d ≤ length c.access_order
      → (c' : Cache A) × (evict now c ≡ some c') × Forgets d c c'
  evict-Forgets t ttl now n d c v h size room =
      let (c', done, forgets) =
        turns t ttl n d (length c.access_order) c v size room (omega arith) in
      (c', evict_unexpired now t c h v.held ∙ done, forgets)
