-- ===== src/Cache/Turns.antt =====
-- internal/cache/cache.go: one call of Set for a new key, with room, at the capacity, and with no order left.
use symkernel.Base.{
  ℕ, suc, ◌≤◌, ◌≡◌, ◌≢◌, refl, List, [], ◌∷◌, ◌++◌, none, some, All, arith, length, ap, sym, subst,
  ◌∙◌, length_one,
}
use symkernel.Base.Int.{ℤ, ◌≤ℤ◌}
use symkernel.Base.Dict.{lookup, erase, lookup-insert, lookup-erase}
use symkernel.Base.Distinct.{erase-IsDistinct, length-erase, length-insert}
use symkernel.Cache.Store.{CacheKey, key_dec, CacheEntry, Cache, untag, remove_entry, bump}
use symkernel.Cache.Evict.{and_then, evict_oldest, evict_over}
use symkernel.Cache.Calls.{store_entry}
use symkernel.Cache.Unexpired.{Held, evict_unexpired, under_capacity, over_capacity}
use symkernel.Cache.Fill.{
  InTime, IsLive, Once, SetCall, drop_first_head, entry_of, make, make_new, map_both,
  store_entry-IsLive, stored, two_left,
}

module _ {A : Type 0} where
  -- The second pass at its one turn: the oldest goes, and the next place with it.
  abbrev pub after_oldest : CacheKey → CacheEntry A → List CacheKey → Cache A → Cache A
  after_oldest a e ks c = record c {
    tag_index = untag a e.tags c.tag_index;
    entries = erase key_dec a c.entries;
    access_order = ks;
    evicts = bump c.evicts;
  }

  pub oldest_goes :
      (a b : CacheKey) (ks : List CacheKey) (e : CacheEntry A) (c : Cache A)
      → c.access_order ≡ a ∷ b ∷ ks
      → lookup key_dec a c.entries ≡ some e
      → evict_oldest c.access_order c ≡ some (after_oldest a e ks c)
  unfolding remove_entry
  oldest_goes a b ks e c o h = rw (o, h, drop_first_head a (b ∷ ks)) refl

  nothing_left :
      (a : CacheKey) (e : CacheEntry A) (c : Cache A)
      → c.access_order ≡ a ∷ []
      → lookup key_dec a c.entries ≡ some e
      → evict_oldest c.access_order c ≡ none
  unfolding remove_entry
  nothing_left a e c o h = rw (o, h, drop_first_head a []) refl

  still-Held :
      (t : ℤ) (a : CacheKey) (e : CacheEntry A) (ks : List CacheKey) (c : Cache A) (j : CacheKey)
      → j ≢ a
      → Held t c j
      → Held t (after_oldest a e ks c) j
  still-Held t a e ks c j ne (f, found, on) =
      (f, ground (arith, lookup-erase key_dec a j c.entries, ne, found), on)

  pub after_oldest-IsLive :
      (t ttl : ℤ) (n : ℕ) (a b : CacheKey) (e : CacheEntry A) (ks : List CacheKey) (c : Cache A)
      → c.access_order ≡ a ∷ b ∷ ks
      → IsLive t ttl n c
      → IsLive t ttl n (after_oldest a e ks c)
  after_oldest-IsLive t ttl n a b e ks c o v =
      let once : Once (a ∷ b ∷ ks) = subst Once o v.once in
      let held : All (Held t c) (a ∷ b ∷ ks) = subst (All (Held t c)) o v.held in
      record {
        same_ttl = v.same_ttl;
        same_capacity = v.same_capacity;
        distinct = erase-IsDistinct key_dec a c.entries v.distinct;
        once = once.1.1;
        held =
            map_both (λ j. j ≢ a) (Held t c) (Held t (after_oldest a e ks c)) ks
              (λ j ne h. still-Held t a e ks c j ne h) once.0.1 held.1.1;
      }

  -- Other keys that were missing still are.
  abbrev pub StillMissing : CacheKey → Cache A → Cache A → Type 0
  StillMissing k c c' =
      (j : CacheKey)
      → j ≢ k
      → lookup key_dec j c.entries ≡ none
      → lookup key_dec j c'.entries ≡ none

  -- Where there is room, Set of a new key stores its entry and evicts nothing.
  pub room_step :
      (t ttl : ℤ) (n : ℕ) (c : Cache A) (x : SetCall A)
      → IsLive t ttl n c
      → lookup key_dec x.key c.entries ≡ none
      → InTime t ttl x
      → suc (length c.entries) ≤ n
      → let c' = stored x c in
        (make x c ≡ some c')
        × IsLive t ttl n c'
        × (length c'.entries ≡ suc (length c.entries))
        × (length c'.access_order ≡ suc (length c.access_order))
        × StillMissing x.key c c'
  room_step t ttl n c x v h i room =
      let e = entry_of c.ttl x in
      let c' = store_entry x.key e c in
      let lasts = subst (λ l. t ≤ℤ (entry_of l x).expires_at) (sym v.same_ttl) i.1 in
      let v' = store_entry-IsLive t ttl n c x.key e v h lasts in
      let size = length-insert key_dec x.key e c.entries h in
      (
        make_new x c h
            ∙ evict_unexpired x.later t c' i.0 v'.held
            ∙ under_capacity (length c'.access_order) c'
                (omega (arith, size, v.same_capacity, room)),
        v',
        size,
        length_one c.access_order x.key,
        λ j ne m. ground (arith, lookup-insert key_dec x.key j e c.entries, ne, m),
      )

  pub full_step :
      (t ttl : ℤ) (n : ℕ) (c : Cache A) (x : SetCall A) (a : CacheKey) (ks : List CacheKey)
      → IsLive t ttl n c
      → lookup key_dec x.key c.entries ≡ none
      → InTime t ttl x
      → length c.entries ≡ n
      → c.access_order ≡ a ∷ ks
      → (c' : Cache A) × (make x c ≡ some c')
        × IsLive t ttl n c'
        × (length c'.entries ≡ n)
        × (length c'.access_order ≡ length ks)
        × StillMissing x.key c c'
  full_step t ttl n c x a ks v h i full o =
      let e = entry_of c.ttl x in
      let s = store_entry x.key e c in
      let lasts = subst (λ l. t ≤ℤ (entry_of l x).expires_at) (sym v.same_ttl) i.1 in
      let v' = store_entry-IsLive t ttl n c x.key e v h lasts in
      let size = length-insert key_dec x.key e c.entries h in
      let (b, rest, two, left) = two_left ks x.key in
      let order : s.access_order ≡ a ∷ b ∷ rest =
        ap (λ l. l ++ x.key ∷ []) o ∙ ap (λ l. a ∷ l) two in
      let (f, found, on) : Held t s a = (subst (All (Held t s)) order v'.held).0 in
      let c' = after_oldest a f rest s in
      let less = length-erase key_dec a f s.entries v'.distinct found in
      (
        c',
        make_new x c h
            ∙ evict_unexpired x.later t s i.0 v'.held
            ∙ ap (λ l. evict_over l s) (length_one c.access_order x.key)
            ∙ over_capacity (length c.access_order) s (omega (arith, size, v.same_capacity, full))
            ∙ ap (λ d. and_then d (evict_over (length c.access_order)))
                (oldest_goes a b rest f s order found)
            ∙ under_capacity (length c.access_order) c'
                (omega (arith, less, size, full, v.same_capacity)),
        after_oldest-IsLive t ttl n a b f rest s order v',
        omega (arith, less, size, full),
        left,
        λ j ne m. ground (
          arith,
          lookup-erase key_dec a j s.entries,
          lookup-insert key_dec x.key j e c.entries,
          ne,
          m,
        ),
      )

  pub empty_step :
      (t ttl : ℤ) (n : ℕ) (c : Cache A) (x : SetCall A)
      → IsLive t ttl n c
      → lookup key_dec x.key c.entries ≡ none
      → InTime t ttl x
      → length c.entries ≡ n
      → c.access_order ≡ []
      → make x c ≡ none
  empty_step t ttl n c x v h i full o =
      let e = entry_of c.ttl x in
      let s = store_entry x.key e c in
      let lasts = subst (λ l. t ≤ℤ (entry_of l x).expires_at) (sym v.same_ttl) i.1 in
      let v' = store_entry-IsLive t ttl n c x.key e v h lasts in
      let size = length-insert key_dec x.key e c.entries h in
      make_new x c h
      ∙ evict_unexpired x.later t s i.0 v'.held
      ∙ ap (λ l. evict_over l s) (length_one c.access_order x.key)
      ∙ over_capacity (length c.access_order) s (omega (arith, size, v.same_capacity, full))
      ∙ ap (λ d. and_then d (evict_over (length c.access_order)))
          (nothing_left x.key e s (ap (λ l. l ++ x.key ∷ []) o)
            (ground (arith, lookup-insert key_dec x.key x.key e c.entries)))
