-- ===== src/Cache/Unexpired.antt =====
-- internal/cache/cache.go: evictLocked where no entry of the access order has expired.
use symkernel.Base.{
  ℕ, zero, suc, ◌≤◌, ◌<◌, ◌≡◌, refl, List, [], ◌∷◌, ◌++◌, false, some, All, arith, length,
  get_elem?, ap, sym, ◌∙◌, append_nil, append_one, length_one, get_elem_at,
}
use symkernel.Base.Int.{ℤ, ◌≤ℤ◌}
use symkernel.Base.Dict.{lookup}
use symkernel.Cache.Store.{CacheKey, key_dec, CacheEntry, Cache, is_expired}
use symkernel.Cache.Evict.{
  Sweep, and_then, sweep_place, sweep, evict_oldest, evict_over, second_pass, evict,
}

module _ {A : Type 0} where
  -- The key has an entry that lasts to an instant.
  abbrev pub Held : ℤ → Cache A → CacheKey → Type 0
  Held t c k = (e : CacheEntry A) × (lookup key_dec k c.entries ≡ some e) × (t ≤ℤ e.expires_at)

  abbrev untouched : Cache A → List CacheKey → Sweep A
  untouched c fresh = record { cache = c; stale = []; fresh = fresh }

  unexpired :
      (now t : ℤ) (e : CacheEntry A) → now ≤ℤ t → t ≤ℤ e.expires_at → is_expired now e ≡ false
  unexpired now t e h k = ground arith

  sweep_place-Held :
      (now t : ℤ) (c : Cache A) (fresh : List CacheKey) (k : CacheKey)
      → now ≤ℤ t
      → Held t c k
      → sweep_place (some k) now (untouched c fresh) ≡ some (untouched c (fresh ++ k ∷ []))
  sweep_place-Held now t c fresh k h (e, found, lasts) = rw (found, unexpired now t e h lasts) refl

  sweep_rest :
      (now t : ℤ) (c : Cache A) (read rest : List CacheKey)
      → now ≤ℤ t
      → c.access_order ≡ read ++ rest
      → All (Held t c) rest
      → sweep (length rest) (length read) now (untouched c read) ≡ some (untouched c (read ++ rest))
  unfolding sweep
  sweep_rest now t c read [] h e all = ap (λ l. some (untouched c l)) (sym (append_nil read))
  sweep_rest now t c read (k ∷ rest) h e all =
      let place : get_elem? (c.access_order ++ []) (length read) ≡ some k =
        ap (λ l. get_elem? l (length read)) (append_nil c.access_order ∙ e)
        ∙ get_elem_at read rest k in
      ap
        (λ o.
          and_then (sweep_place o now (untouched c read))
            (sweep (length rest) (suc (length read)) now))
        place
      ∙ ap (λ o. and_then o (sweep (length rest) (suc (length read)) now))
          (sweep_place-Held now t c read k h all.0)
      ∙ ap (λ n. sweep (length rest) n now (untouched c (read ++ k ∷ []))) (sym (length_one read k))
      ∙ sweep_rest now t c (read ++ k ∷ []) rest h (e ∙ sym (append_one read rest k)) all.1
      ∙ ap (λ l. some (untouched c l)) (append_one read rest k)

  -- Where nothing in the order has expired, the first pass changes nothing.
  pub evict_unexpired :
      (now t : ℤ) (c : Cache A)
      → now ≤ℤ t
      → All (Held t c) c.access_order
      → evict now c ≡ evict_over (length c.access_order) c
  unfolding evict
  evict_unexpired now t c h all =
      ap (λ o. and_then o second_pass) (sweep_rest now t c [] c.access_order h refl all)

  pub under_capacity :
      (n : ℕ) (c : Cache A) → length c.entries ≤ c.capacity → evict_over n c ≡ some c
  unfolding evict_over
  under_capacity zero c h = refl
  under_capacity (suc n) c h = ground (arith, h)

  -- The first in the order goes, and with it the place of the second.
  pub over_capacity :
      (n : ℕ) (c : Cache A)
      → c.capacity < length c.entries
      → evict_over (suc n) c ≡ and_then (evict_oldest c.access_order c) (evict_over n)
  unfolding evict_over
  over_capacity n c h = ground (arith, h)
