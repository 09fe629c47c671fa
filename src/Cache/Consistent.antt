-- ===== src/Cache/Consistent.antt =====
-- internal/cache/cache.go: the tag index and the entries agree after any calls.
use symkernel.Base.{
  ℕ, zero, suc, ◌≡◌, refl, inl, inr, List, [], ◌∷◌, ◌++◌, Bool, true, false, ◌&&◌, String, Option,
  none, some, if◌then◌else◌, ite, arith, ap, subst, sym, ◌∙◌, Option-cases, length, ltb, get_elem?,
}
use symkernel.Base.Int.{ℤ}
use symkernel.Base.Dict.{lookup, insert, erase, lookup-insert, lookup-erase}
use symkernel.Base.Distinct.{IsDistinct, insert-IsDistinct, erase-IsDistinct}
use symkernel.Cache.Store.{
  CacheKey, key_dec, CacheEntry, Cache, TagIndex, untag, tag_all, removed, remove_entry, is_expired,
}
use symkernel.Cache.Evict.{
  Sweep, and_then, sweep_key, sweep_place, sweep, reslice, evict_oldest, evict_over, second_pass,
  evict,
}
use symkernel.Cache.Tags.{
  has_tag, listed, listed-untag, listed-tag_all, SetsDistinct, untag-SetsDistinct,
  tag_all-SetsDistinct,
}

pub cut : (h l : Bool) → l ≡ h → (if h then false else l) ≡ false
cut h l e = ground (arith, e)

pub joined : (h l : Bool) → l ≡ false → (if h then true else l) ≡ h
joined h l e = ground (arith, e)

-- Where there is a result, it has the property.
abbrev pub After : {B : Type 0} → (B → Type 0) → Option B → Type 0
After P none = Unit
After P (some b) = P b

pub and_then-After :
    {B C : Type 0} (P : B → Type 0) (Q : C → Type 0) (o : Option B) (f : B → Option C)
    → After P o
    → ((b : B) → P b → After Q (f b))
    → After Q (and_then o f)
and_then-After P Q none f h g = tt
and_then-After P Q (some b) f h g = g b h

pub either : {B : Type 0} (P : B → Type 0) (b : Bool) (x y : B) → P x → P y → P (if b then x else y)
either P true x y p q = p
either P false x y p q = q

module _ {A : Type 0} where
  abbrev pub carries : String → Option (CacheEntry A) → Bool
  carries u none = false
  carries u (some e) = has_tag u e.tags

  -- Keys are distinct in the entries and in each set, and a set lists the keys whose entries carry its tag.
  pub record Agreement (entries : List (CacheKey × CacheEntry A)) (index : TagIndex) : Type 0 where
    pub distinct : IsDistinct key_dec entries
    pub sets : SetsDistinct index
    pub agrees :
        (u : String) (j : CacheKey) → listed j u index ≡ carries u (lookup key_dec j entries)

  abbrev pub IsConsistent : Cache A → Type 0
  IsConsistent c = Agreement c.entries c.tag_index

  pub at_key :
      (u : String) (k j : CacheKey) (o : Option (CacheEntry A))
      (entries : List (CacheKey × CacheEntry A)) (index : TagIndex)
      → Agreement entries index
      → lookup key_dec k entries ≡ o
      → k ≡ j
      → listed j u index ≡ carries u o
  at_key u k j o entries index v h p =
      v.agrees u j ∙ ap (carries u) (subst (λ i. lookup key_dec i entries ≡ o) p h)

  pub untag_one :
      (k : CacheKey) (e : CacheEntry A) (entries : List (CacheKey × CacheEntry A))
      (index : TagIndex)
      → Agreement entries index
      → lookup key_dec k entries ≡ some e
      → Agreement (erase key_dec k entries) (untag k e.tags index)
  untag_one k e entries index v h = record {
    distinct = erase-IsDistinct key_dec k entries v.distinct;
    sets = untag-SetsDistinct k e.tags index v.sets;
    agrees = λ u j.
        listed-untag k j u e.tags index
        ∙ elim (key_dec k j)
            as (λ d.
              (if ite d true false && has_tag u e.tags then false else listed j u index)
              ≡ carries u (ite d none (lookup key_dec j entries))) [
                | yes p ↦
                    cut (has_tag u e.tags) (listed j u index)
                      (at_key u k j (some e) entries index v h p)
                | no ne ↦ v.agrees u j
              ]
        ∙ ap (carries u) (sym (lookup-erase key_dec k j entries));
  }

  pub tag_one :
      (k : CacheKey) (e : CacheEntry A) (entries : List (CacheKey × CacheEntry A))
      (index : TagIndex)
      → Agreement entries index
      → lookup key_dec k entries ≡ none
      → Agreement (insert key_dec k e entries) (tag_all k e.tags index)
  tag_one k e entries index v h = record {
    distinct = insert-IsDistinct key_dec k e entries v.distinct;
    sets = tag_all-SetsDistinct k e.tags index v.sets;
    agrees = λ u j.
        listed-tag_all k j u e.tags index
        ∙ elim (key_dec k j)
            as (λ d.
              (if ite d true false && has_tag u e.tags then true else listed j u index)
              ≡ carries u (ite d (some e) (lookup key_dec j entries))) [
                | yes p ↦
                    joined (has_tag u e.tags) (listed j u index)
                      (at_key u k j none entries index v h p)
                | no ne ↦ v.agrees u j
              ]
        ∙ ap (carries u) (sym (lookup-insert key_dec k j e entries));
  }

  pub retouch :
      (k : CacheKey) (e f : CacheEntry A) (entries : List (CacheKey × CacheEntry A))
      (index : TagIndex)
      → Agreement entries index
      → lookup key_dec k entries ≡ some e
      → f.tags ≡ e.tags
      → Agreement (insert key_dec k f entries) index
  retouch k e f entries index v h same = record {
    distinct = insert-IsDistinct key_dec k f entries v.distinct;
    sets = v.sets;
    agrees = λ u j.
        elim (key_dec k j)
          as (λ d. listed j u index ≡ carries u (ite d (some f) (lookup key_dec j entries))) [
            | yes p ↦ at_key u k j (some e) entries index v h p ∙ ap (has_tag u) (sym same)
            | no ne ↦ v.agrees u j
          ]
        ∙ ap (carries u) (sym (lookup-insert key_dec k j f entries));
  }

  pub removed-IsConsistent :
      (o : Option (CacheEntry A)) (k : CacheKey) (c : Cache A)
      → lookup key_dec k c.entries ≡ o
      → IsConsistent c
      → IsConsistent (removed o k c)
  removed-IsConsistent none k c h v = v
  removed-IsConsistent (some e) k c h v = untag_one k e c.entries c.tag_index v h

  pub remove_entry-IsConsistent :
      (k : CacheKey) (c : Cache A) → IsConsistent c → IsConsistent (remove_entry k c)
  unfolding remove_entry
  remove_entry-IsConsistent k c v = removed-IsConsistent (lookup key_dec k c.entries) k c refl v

  pub missing_stays :
      (k j : CacheKey) (c : Cache A)
      → lookup key_dec k c.entries ≡ none
      → lookup key_dec j c.entries ≡ ite (key_dec k j) none (lookup key_dec j c.entries)
  missing_stays k j c h =
      elim (key_dec k j)
        as (λ d. lookup key_dec j c.entries ≡ ite d none (lookup key_dec j c.entries)) [
          | yes p ↦ subst (λ i. lookup key_dec i c.entries ≡ none) p h
          | no ne ↦ refl
        ]

  pub lookup-remove_entry :
      (k j : CacheKey) (c : Cache A)
      → lookup key_dec j (remove_entry k c).entries
        ≡ ite (key_dec k j) none (lookup key_dec j c.entries)
  unfolding remove_entry
  lookup-remove_entry k j c = elim (Option-cases (lookup key_dec k c.entries)) [
    | inl h ↦ rw h (missing_stays k j c h)
    | inr (e, h) ↦ rw h (lookup-erase key_dec k j c.entries)
  ]

  pub gone : (k : CacheKey) (c : Cache A) → lookup key_dec k (remove_entry k c).entries ≡ none
  gone k c = ground (arith, lookup-remove_entry k k c)

  abbrev pub IsSound : Sweep A → Type 0
  IsSound s = IsConsistent s.cache

  pub sweep_key-IsSound :
      (k : CacheKey) (o : Option (CacheEntry A)) (now : ℤ) (s : Sweep A)
      → IsSound s
      → After IsSound (sweep_key k o now s)
  sweep_key-IsSound k none now s v = tt
  sweep_key-IsSound k (some e) now s v =
      either (After IsSound) (is_expired now e) _ _ (remove_entry-IsConsistent k s.cache v) v

  pub sweep_place-IsSound :
      (o : Option CacheKey) (now : ℤ) (s : Sweep A)
      → IsSound s
      → After IsSound (sweep_place o now s)
  sweep_place-IsSound none now s v = v
  sweep_place-IsSound (some k) now s v =
      sweep_key-IsSound k (lookup key_dec k s.cache.entries) now s v

  pub sweep-IsSound :
      (steps i : ℕ) (now : ℤ) (s : Sweep A) → IsSound s → After IsSound (sweep steps i now s)
  unfolding sweep
  sweep-IsSound zero i now s v = v
  sweep-IsSound (suc steps) i now s v =
      and_then-After IsSound IsSound
        (sweep_place (get_elem? (s.cache.access_order ++ s.stale) i) now s)
        (sweep steps (suc i) now)
        (sweep_place-IsSound (get_elem? (s.cache.access_order ++ s.stale) i) now s v)
        (λ s' v'. sweep-IsSound steps (suc i) now s' v')

  pub reslice-IsConsistent :
      (ks : List CacheKey) (c : Cache A) → IsConsistent c → After IsConsistent (reslice ks c)
  reslice-IsConsistent [] c v = tt
  reslice-IsConsistent (k ∷ ks) c v = v

  pub evict_oldest-IsConsistent :
      (ks : List CacheKey) (c : Cache A) → IsConsistent c → After IsConsistent (evict_oldest ks c)
  evict_oldest-IsConsistent [] c v = v
  evict_oldest-IsConsistent (k ∷ ks) c v =
      reslice-IsConsistent (remove_entry k c).access_order (remove_entry k c)
        (remove_entry-IsConsistent k c v)

  pub evict_over-IsConsistent :
      (steps : ℕ) (c : Cache A) → IsConsistent c → After IsConsistent (evict_over steps c)
  unfolding evict_over
  evict_over-IsConsistent zero c v = v
  evict_over-IsConsistent (suc steps) c v =
      either (After IsConsistent) (ltb c.capacity (length c.entries))
        (and_then (evict_oldest c.access_order c) (evict_over steps)) (some c)
        (and_then-After IsConsistent IsConsistent (evict_oldest c.access_order c) (evict_over steps)
          (evict_oldest-IsConsistent c.access_order c v)
          (λ c' v'. evict_over-IsConsistent steps c' v'))
        v

  pub evict-IsConsistent :
      (now : ℤ) (c : Cache A) → IsConsistent c → After IsConsistent (evict now c)
  unfolding evict
  evict-IsConsistent now c v =
      and_then-After IsSound IsConsistent
        (sweep (length c.access_order) 0 now (record { cache = c; stale = []; fresh = [] }))
        second_pass
        (sweep-IsSound (length c.access_order) 0 now (record { cache = c; stale = []; fresh = [] })
          v)
        (λ s w.
          evict_over-IsConsistent (length s.fresh) (record (s.cache) { access_order = s.fresh }) w)
