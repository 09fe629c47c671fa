-- ===== src/Cache/Methods.antt =====
-- internal/cache/cache.go: the methods keep the tag index in agreement with the entries.
use symkernel.Base.{
  ◌≡◌, refl, List, [], ◌∷◌, String, Option, none, some, str_dec, ap, subst, sym, ◌∙◌,
}
use symkernel.Base.Int.{ℤ, pos, ltb_ℤ}
use symkernel.Base.Dict.{lookup, lookup-nil}
use symkernel.Base.Distinct.{IsDistinct}
use symkernel.Cache.Store.{
  CacheKey, key_dec, CacheEntry, Cache, KeySet, keys_of, remove_entry, promote, is_expired,
  CacheOption, with_capacity, with_ttl, apply_option, apply_options,
}
use symkernel.Cache.Calls.{got, get_by_key, ttl_of, new_entry, store_entry, set, remove_all}
use symkernel.Cache.Tags.{is_present, listed_in}
use symkernel.Cache.Consistent.{
  After, Agreement, IsConsistent, carries, either, evict-IsConsistent, gone,
  remove_entry-IsConsistent, retouch, tag_one,
}

module _ {A : Type 0} where
  pub set-IsConsistent :
      (k : CacheKey) (value : A) (tags : List String) (ttl_override : Option ℤ) (now later : ℤ)
      (c : Cache A)
      → IsConsistent c
      → After IsConsistent (set k value tags ttl_override now later c)
  unfolding set
  set-IsConsistent k value tags ttl_override now later c v =
      let c' = remove_entry k c in
      let e = new_entry value tags (ttl_of c.ttl ttl_override) now in
      evict-IsConsistent later (store_entry k e c')
        (tag_one k e c'.entries c'.tag_index (remove_entry-IsConsistent k c v) (gone k c))

  got-IsConsistent :
      (o : Option (CacheEntry A)) (k : CacheKey) (now : ℤ) (c : Cache A)
      → lookup key_dec k c.entries ≡ o
      → IsConsistent c
      → IsConsistent (got o k now c).0
  unfolding promote
  got-IsConsistent none k now c h v = v
  got-IsConsistent (some e) k now c h v =
      either {B = Cache A × Option A} (λ r. IsConsistent r.0) (is_expired now e) _ _
        (remove_entry-IsConsistent k c v)
        (retouch k e (record e { last_access = now }) c.entries c.tag_index v h refl)

  pub get_by_key-IsConsistent :
      (k : CacheKey) (now : ℤ) (c : Cache A) → IsConsistent c → IsConsistent (get_by_key k now c).0
  unfolding get_by_key
  get_by_key-IsConsistent k now c v = got-IsConsistent (lookup key_dec k c.entries) k now c refl v

  pub remove_all-IsConsistent :
      (ks : KeySet) (c : Cache A) → IsConsistent c → IsConsistent (remove_all ks c)
  unfolding remove_all
  remove_all-IsConsistent [] c v = v
  remove_all-IsConsistent ((k, u) ∷ ks) c v =
      remove_all-IsConsistent ks (remove_entry k c) (remove_entry-IsConsistent k c v)

  pub empty-Agreement : Agreement {A = A} [] []
  empty-Agreement = record {
    distinct = tt;
    sets = λ u. subst (λ o. IsDistinct key_dec (keys_of o)) (sym (lookup-nil str_dec u)) tt;
    agrees = λ u j.
        ap (λ o. listed_in j (keys_of o)) (lookup-nil str_dec u)
        ∙ ap is_present (lookup-nil key_dec j)
        ∙ ap (carries u) (sym (lookup-nil key_dec j));
  }

  pub apply_options-IsConsistent :
      (os : List CacheOption) (c : Cache A) → IsConsistent c → IsConsistent (apply_options c os)
  unfolding apply_options apply_option
  apply_options-IsConsistent [] c v = v
  apply_options-IsConsistent (with_capacity n ∷ os) c v =
      apply_options-IsConsistent os (apply_option c (with_capacity n))
        (either IsConsistent (ltb_ℤ (pos 0) n) _ c v v)
  apply_options-IsConsistent (with_ttl d ∷ os) c v =
      apply_options-IsConsistent os (apply_option c (with_ttl d))
        (either IsConsistent (ltb_ℤ (pos 0) d) _ c v v)
