-- ===== src/Cache/Invalidation.antt =====
-- internal/cache/cache.go: sequences of calls, and what InvalidateByTag removes.
use symkernel.Base.{
  suc, ◌+◌, ◌≡◌, inl, inr, List, [], ◌∷◌, true, false, String, Option, none, some, if◌then◌else◌,
  str_dec, arith, ap, subst, ◌∙◌, length, Option-cases,
}
use symkernel.Base.Int.{ℤ}
use symkernel.Base.Dict.{lookup}
use symkernel.Base.Distinct.{IsDistinct, length-erase}
use symkernel.Cache.Store.{
  CacheKey, key_dec, Cache, KeySet, keys_of, remove_entry, CacheOption, new,
}
use symkernel.Cache.Evict.{and_then}
use symkernel.Cache.Calls.{get_by_key, remove_all, invalidate_by_tag, invalidate_all}
use symkernel.Cache.Tags.{is_present, listed_in, listed}
use symkernel.Cache.Fill.{SetCall, make}
use symkernel.Cache.Consistent.{
  carries, IsConsistent, After, and_then-After, remove_entry-IsConsistent, lookup-remove_entry,
}
use symkernel.Cache.Methods.{
  set-IsConsistent, get_by_key-IsConsistent, remove_all-IsConsistent, empty-Agreement,
  apply_options-IsConsistent,
}

pub data CacheCall (A : Type 0) : Type 0 where
  sets : SetCall A → CacheCall A
  gets : CacheKey → ℤ → CacheCall A
  invalidates : String → CacheCall A
  invalidates_all : CacheCall A

absent_there :
    (k j : CacheKey) (ks : KeySet) → lookup key_dec k ks ≡ none → k ≡ j → listed_in j ks ≡ false
absent_there k j ks n p = ap is_present (subst (λ i. lookup key_dec i ks ≡ none) p n)

module _ {A : Type 0} where
  abbrev pub call : CacheCall A → Cache A → Option (Cache A)
  call (sets x) c = make x c
  call (gets k now) c = some (get_by_key k now c).0
  call (invalidates tag) c = some (invalidate_by_tag tag c).0
  call invalidates_all c = some (invalidate_all c).0

  -- `none` where a call panics.
  unfoldable pub run : List (CacheCall A) → Cache A → Option (Cache A)
  run [] c = some c
  run (x ∷ xs) c = and_then (call x c) (run xs)

  call-IsConsistent :
      (x : CacheCall A) (c : Cache A) → IsConsistent c → After IsConsistent (call x c)
  unfolding invalidate_by_tag invalidate_all
  call-IsConsistent (sets x) c v =
      set-IsConsistent x.key x.value x.tags x.ttl_override x.now x.later c v
  call-IsConsistent (gets k now) c v = get_by_key-IsConsistent k now c v
  call-IsConsistent (invalidates tag) c v =
      remove_all-IsConsistent (keys_of (lookup str_dec tag c.tag_index)) c v
  call-IsConsistent invalidates_all c v = empty-Agreement

  run_keeps :
      (xs : List (CacheCall A)) (c : Cache A) → IsConsistent c → After IsConsistent (run xs c)
  unfolding run
  run_keeps [] c v = v
  run_keeps (x ∷ xs) c v =
      and_then-After IsConsistent IsConsistent (call x c) (run xs) (call-IsConsistent x c v)
        (λ c' w. run_keeps xs c' w)

  new-IsConsistent : (options : List CacheOption) → IsConsistent (new {A = A} options)
  unfolding new
  new-IsConsistent options = apply_options-IsConsistent options _ empty-Agreement

  -- Unless a call panics, any calls of a new cache leave distinct keys in its entries and in the set of
  -- each tag, and a set lists a key exactly if the entry of the key carries the tag.
  pub run-IsConsistent :
      (options : List CacheOption) (xs : List (CacheCall A)) (c : Cache A)
      → run xs (new options) ≡ some c
      → IsConsistent c
  run-IsConsistent options xs c e =
      subst (After IsConsistent) e (run_keeps xs (new options) (new-IsConsistent options))

  lookup-remove_all :
      (ks : KeySet) (j : CacheKey) (c : Cache A)
      → lookup key_dec j (remove_all ks c).entries
        ≡ (if listed_in j ks then none else lookup key_dec j c.entries)
  unfolding remove_all lookup
  lookup-remove_all [] j c = ground arith
  lookup-remove_all ((k, u) ∷ ks) j c =
      lookup-remove_all ks j (remove_entry k c)
      ∙ ap (λ o. if listed_in j ks then none else o) (lookup-remove_entry k j c)
      ∙ ground arith

  length-remove_entry :
      (k : CacheKey) (c : Cache A)
      → IsDistinct key_dec c.entries
      → is_present (lookup key_dec k c.entries) ≡ true
      → suc (length (remove_entry k c).entries) ≡ length c.entries
  unfolding remove_entry
  length-remove_entry k c d p = elim (Option-cases (lookup key_dec k c.entries)) [
    | inl h ↦ absurd (ground (arith, h, p))
    | inr (e, h) ↦ rw h (length-erase key_dec k e c.entries d h)
  ]

  stays :
      (k : CacheKey) (u : Unit {0}) (ks : KeySet) (c : Cache A) (j : CacheKey)
      → lookup key_dec k ks ≡ none
      → (listed_in j ((k, u) ∷ ks) ≡ true → is_present (lookup key_dec j c.entries) ≡ true)
      → listed_in j ks ≡ true
      → is_present (lookup key_dec j (remove_entry k c).entries) ≡ true
  unfolding lookup
  stays k u ks c j n h l = elim (key_dec k j) [
    | yes p ↦ absurd (ground (arith, absent_there k j ks n p, l))
    | no ne ↦ ap is_present (lookup-remove_entry k j c) ∙ ground (arith, ne, h, l)
  ]

  length-remove_all :
      (ks : KeySet) (c : Cache A)
      → IsConsistent c
      → IsDistinct key_dec ks
      → ((j : CacheKey) → listed_in j ks ≡ true → is_present (lookup key_dec j c.entries) ≡ true)
      → length c.entries ≡ length (remove_all ks c).entries + length ks
  unfolding remove_all lookup
  length-remove_all [] c v d h = omega arith
  length-remove_all ((k, u) ∷ ks) c v d h =
      let c' = remove_entry k c in
      let rest =
        length-remove_all ks c' (remove_entry-IsConsistent k c v) d.1
          (λ j l. stays k u ks c j d.0 (h j) l) in
      let one = length-remove_entry k c v.distinct (h k (ground arith)) in omega (arith, rest, one)

  in_entries :
      (tag : String) (c : Cache A)
      → IsConsistent c
      → (j : CacheKey) → listed j tag c.tag_index ≡ true
      → is_present (lookup key_dec j c.entries) ≡ true
  in_entries tag c v j l = ground (arith, v.agrees tag j, l)

  -- In a consistent cache InvalidateByTag removes exactly the entries that carry the tag, leaves every
  -- other as it is, returns their number, and leaves a consistent cache.
  pub invalidate_exact :
      (tag : String) (c : Cache A)
      → IsConsistent c
      → let (c', count) = invalidate_by_tag tag c in
        ((j : CacheKey)
          → lookup key_dec j c'.entries ≡ (
              if carries tag (lookup key_dec j c.entries)
              then none
              else lookup key_dec j c.entries))
        × (length c.entries ≡ length c'.entries + count)
        × IsConsistent c'
  unfolding invalidate_by_tag
  invalidate_exact tag c v =
      let ks = keys_of (lookup str_dec tag c.tag_index) in
      (
        (λ j.
            lookup-remove_all ks j c
            ∙ ap (λ b. if b then none else lookup key_dec j c.entries) (v.agrees tag j)),
        length-remove_all ks c v (v.sets tag) (in_entries tag c v),
        remove_all-IsConsistent ks c v,
      )
