-- ===== src/Cache/Exhaust.antt =====
-- internal/cache/cache.go: Set of one new key after another, until the access order has run out.
use symkernel.Base.{
  nil_of_length, ℕ, suc, ◌+◌, ◌≡◌, ◌≢◌, refl, List, [], ◌∷◌, ◌++◌, none, some, All, arith, length,
  ap, sym, subst, ◌∙◌,
}
use symkernel.Base.Int.{ℤ}
use symkernel.Base.Dict.{lookup, lookup-nil}
use symkernel.Base.Distinct.{IsDistinct}
use symkernel.Cache.Unexpired.{Held}
use symkernel.Cache.Store.{CacheKey, key_dec, Cache}
use symkernel.Cache.Evict.{and_then}
use symkernel.Cache.Fill.{Once, SetCall, make, fill, InTime, IsLive, stored, map_both}
use symkernel.Cache.Turns.{StillMissing, room_step, full_step, empty_step}

head_of :
    (l : List CacheKey) (n : ℕ)
    → length l ≡ suc n
    → (a : CacheKey) × (ks : List CacheKey) × (l ≡ a ∷ ks)
head_of [] n e = absurd (ground (arith, e))
head_of (a ∷ ks) n e = (a, ks, refl)

module _ {A : Type 0} where
  -- No two calls for one key.
  abbrev pub NewKeys : List (SetCall A) → Type 0
  NewKeys [] = Unit
  NewKeys (x ∷ xs) = All (λ y. y.key ≢ x.key) xs × NewKeys xs

  abbrev pub IsMissing : Cache A → SetCall A → Type 0
  IsMissing c x = lookup key_dec x.key c.entries ≡ none

  then-IsMissing :
      (c c' : Cache A) (x : SetCall A) (xs : List (SetCall A))
      → StillMissing x.key c c'
      → All (λ y. y.key ≢ x.key) xs
      → All (IsMissing c) xs
      → All (IsMissing c') xs
  then-IsMissing c c' x xs s ne m =
      map_both (λ y. y.key ≢ x.key) (IsMissing c) (IsMissing c') xs (λ y d h. s y.key d h) ne m

  fill_one :
      (x : SetCall A) (xs : List (SetCall A)) (c c' c'' : Cache A)
      → make x c ≡ some c'
      → fill xs c' ≡ some c''
      → fill (x ∷ xs) c ≡ some c''
  unfolding fill
  fill_one x xs c c' c'' e f = ap (λ o. and_then o (fill xs)) e ∙ f

  fill_none : (c : Cache A) → fill [] c ≡ some c
  unfolding fill
  fill_none c = refl

  empty-IsLive :
      (t : ℤ) (c : Cache A) → c.entries ≡ [] → c.access_order ≡ [] → IsLive t c.ttl c.capacity c
  empty-IsLive t c e o = record {
    same_ttl = refl;
    same_capacity = refl;
    distinct = subst (IsDistinct key_dec) (sym e) tt;
    once = subst Once (sym o) tt;
    held = subst (All (Held t c)) (sym o) tt;
  }

  all-IsMissing : (c : Cache A) (xs : List (SetCall A)) → c.entries ≡ [] → All (IsMissing c) xs
  all-IsMissing c [] e = tt
  all-IsMissing c (x ∷ xs) e =
      (ap (lookup key_dec x.key) e ∙ lookup-nil key_dec x.key, all-IsMissing c xs e)

  -- What a run of calls leaves, with the calls still to come.
  abbrev Left : ℤ → ℤ → ℕ → List (SetCall A) → List (SetCall A) → Cache A → ℕ → Type 0
  Left t ttl n calls rest c m =
      (c' : Cache A) × (fill calls c ≡ some c')
      × IsLive t ttl n c'
      × (length c'.entries ≡ n)
      × (length c'.access_order ≡ m)
      × All (IsMissing c') rest
      × NewKeys rest

  module _ (t ttl : ℤ) (n : ℕ) (rest : List (SetCall A)) where
    fills_up :
        (calls : List (SetCall A)) (c : Cache A)
        → IsLive t ttl n c
        → length c.entries + length calls ≡ n
        → length c.access_order ≡ length c.entries
        → All (InTime t ttl) calls
        → All (IsMissing c) (calls ++ rest)
        → NewKeys (calls ++ rest)
        → Left t ttl n calls rest c n
    fills_up [] c v size same i m k =
        (c, fill_none c, v, omega (arith, size), omega (arith, size, same), m, k)
    fills_up (x ∷ xs) c v size same i m k =
        let (made, v', size', order', still) =
          room_step t ttl n c x v m.0 i.0 (omega (arith, size)) in
        let (c'', f, v'', full, order, m', k') =
          fills_up xs (stored x c) v' (omega (arith, size, size'))
            (omega (arith, size', order', same)) i.1
            (then-IsMissing c (stored x c) x (xs ++ rest) still k.0 m.1) k.1 in
        (c'', fill_one x xs c (stored x c) c'' made f, v'', full, order, m', k')

    runs_down :
        (calls : List (SetCall A)) (c : Cache A)
        → IsLive t ttl n c
        → length c.entries ≡ n
        → length c.access_order ≡ length calls
        → All (InTime t ttl) calls
        → All (IsMissing c) (calls ++ rest)
        → NewKeys (calls ++ rest)
        → Left t ttl n calls rest c 0
    runs_down [] c v full order i m k = (c, fill_none c, v, full, order, m, k)
    runs_down (x ∷ xs) c v full order i m k =
        let (a, ks, o) = head_of c.access_order (length xs) order in
        let (c', made, v', full', order', still) = full_step t ttl n c x a ks v m.0 i.0 full o in
        let (c'', f, v'', full'', order'', m', k') =
          runs_down xs c' v' full' (omega (arith, order', order, ap length o)) i.1
            (then-IsMissing c c' x (xs ++ rest) still k.0 m.1) k.1 in
        (c'', fill_one x xs c c' c'' made f, v'', full'', order'', m', k')

  -- Into a cache without entries whose access order is empty too go as many calls of Set as its
  -- capacity, and as many again, all of which return; the cache is then full, its access order is
  -- empty again, and one more call panics. The keys of all these calls differ from one another, and
  -- no entry expires: each is made to last to an instant `t` that none of the calls has passed.
  pub order_runs_out :
      (t : ℤ) (c : Cache A) (first second : List (SetCall A)) (last : SetCall A)
      → c.entries ≡ []
      → c.access_order ≡ []
      → length first ≡ c.capacity
      → length second ≡ c.capacity
      → All (InTime t c.ttl) first
      → All (InTime t c.ttl) second
      → InTime t c.ttl last
      → NewKeys (first ++ (second ++ last ∷ []))
      → (c1 : Cache A) × (c2 : Cache A) × (fill first c ≡ some c1)
        × (fill second c1 ≡ some c2)
        × (length c2.entries ≡ c.capacity)
        × (c2.access_order ≡ [])
        × (make last c2 ≡ none)
  order_runs_out t c first second last empty none_in_order l1 l2 i1 i2 i k =
      let (c1, f1, v1, full1, o1, m1, k1) =
        fills_up t c.ttl c.capacity (second ++ last ∷ []) first c
          (empty-IsLive t c empty none_in_order) (omega (arith, ap length empty, l1))
          (omega (arith, ap length empty, ap length none_in_order)) i1
          (all-IsMissing c (first ++ (second ++ last ∷ [])) empty) k in
      let (c2, f2, v2, full2, o2, m2, k2) =
        runs_down t c.ttl c.capacity (last ∷ []) second c1 v1 full1 (omega (arith, o1, l2)) i2 m1
          k1 in
      let gone = nil_of_length c2.access_order o2 in
      (c1, c2, f1, f2, full2, gone, empty_step t c.ttl c.capacity c2 last v2 m2.0 i full2 gone)
