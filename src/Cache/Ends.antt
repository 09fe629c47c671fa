-- ===== src/Cache/Ends.antt =====
-- internal/cache/cache.go: the loop of the second pass ends as its condition says.
use symkernel.Base.{
  ℕ, zero, suc, ◌≤◌, ◌≡◌, refl, ◌⊎◌, inl, inr, List, [], ◌∷◌, Option, none, some, arith, length, ap,
  sym, subst, Option-cases, Bool-cases, ltb, nil_of_length,
}
use symkernel.Base.Dict.{lookup}
use symkernel.Cache.Store.{CacheKey, key_dec, drop_first, remove_entry, Cache}
use symkernel.Cache.Evict.{and_then, reslice, evict_oldest, evict_over}
use symkernel.Cache.Unexpired.{under_capacity, over_capacity}

drop_first_shorter : (k : CacheKey) (ks : List CacheKey) → length (drop_first k ks) ≤ length ks
unfolding drop_first
drop_first_shorter k [] = omega arith
drop_first_shorter k (j ∷ js) = ground (arith, drop_first_shorter k js)

module _ {A : Type 0} where
  shorter :
      (k : CacheKey) (c : Cache A) → length (remove_entry k c).access_order ≤ length c.access_order
  unfolding remove_entry
  shorter k c = elim (Option-cases (lookup key_dec k c.entries)) [
    | inl h ↦ rw h (omega arith)
    | inr (e, h) ↦ rw h (drop_first_shorter k c.access_order)
  ]

  -- A pass that does not panic is within the capacity, or has no order left.
  abbrev pub Ends : Option (Cache A) → Type 0
  Ends none = Unit
  Ends (some c) = (length c.entries ≤ c.capacity) ⊎ (c.access_order ≡ [])

  after_reslice :
      (n m : ℕ) (l : List CacheKey) (c : Cache A)
      → length l ≤ m
      → m ≤ suc n
      → ((d : Cache A) → length d.access_order ≤ n → Ends (evict_over n d))
      → Ends (and_then (reslice l c) (evict_over n))
  after_reslice n m [] c h k rest = tt
  after_reslice n m (j ∷ js) c h k rest = rest _ (omega (arith, h, k))

  one_turn :
      (n : ℕ) (l : List CacheKey) (c : Cache A)
      → c.access_order ≡ l
      → length l ≤ suc n
      → ((d : Cache A) → length d.access_order ≤ n → Ends (evict_over n d))
      → Ends (and_then (evict_oldest l c) (evict_over n))
  one_turn n [] c o h rest = rest c (omega (arith, ap length o))
  one_turn n (k ∷ ks) c o h rest =
      after_reslice n (length c.access_order) (remove_entry k c).access_order (remove_entry k c)
        (shorter k c) (omega (arith, ap length o, h)) rest

  -- As many steps as the order is long are enough: the fuel does not end the second pass.
  pub evict_over-Ends : (n : ℕ) (c : Cache A) → length c.access_order ≤ n → Ends (evict_over n c)
  unfolding evict_over
  evict_over-Ends zero c h = inr (nil_of_length c.access_order (omega (arith, h)))
  evict_over-Ends (suc n) c h = elim (Bool-cases (ltb c.capacity (length c.entries))) [
    | inl over ↦
        subst Ends (sym (over_capacity n c (ground (arith, over))))
          (one_turn n c.access_order c refl h (λ d k. evict_over-Ends n d k))
    | inr fits ↦
        subst Ends (sym (under_capacity (suc n) c (ground (arith, fits))))
          (inl (ground (arith, fits)))
  ]
