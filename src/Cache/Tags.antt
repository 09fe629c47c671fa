-- ===== src/Cache/Tags.antt =====
-- internal/cache/cache.go: which keys the tag index lists under a tag.
use symkernel.Base.{
  ◌≡◌, refl, List, [], ◌∷◌, Bool, true, false, ◌&&◌, String, Option, none, some, if◌then◌else◌, ite,
  str_dec, str_is, arith, ap, subst, sym, ◌∙◌,
}
use symkernel.Base.Dict.{lookup, insert, erase, lookup-insert, lookup-erase}
use symkernel.Base.Distinct.{IsDistinct, insert-IsDistinct, erase-IsDistinct}
use symkernel.Cache.Store.{CacheKey, key_dec, KeySet, TagIndex, keys_of, shrink, untag, tag_all}

abbrev pub key_is : CacheKey → CacheKey → Bool
key_is k j = ite (key_dec k j) true false

abbrev pub has_tag : String → List String → Bool
has_tag u [] = false
has_tag u (t ∷ ts) = if str_is t u then true else has_tag u ts

abbrev pub is_present {ℓ} : {A : Type ℓ} → Option A → Bool
is_present none = false
is_present (some u) = true

abbrev pub listed_in : CacheKey → KeySet → Bool
listed_in k ks = is_present (lookup key_dec k ks)

abbrev pub listed : CacheKey → String → TagIndex → Bool
listed k u index = listed_in k (keys_of (lookup str_dec u index))

-- The set of the tag becomes the one given.
set_of-insert :
    (t u : String) (ks : KeySet) (index : TagIndex)
    → keys_of (lookup str_dec u (insert str_dec t ks index))
      ≡ (if str_is t u then ks else keys_of (lookup str_dec u index))
set_of-insert t u ks index = ground (arith, lookup-insert str_dec t u ks index)

set_of-shrink :
    (t u : String) (ks : KeySet) (index : TagIndex)
    → keys_of (lookup str_dec u (shrink t ks index))
      ≡ (if str_is t u then ks else keys_of (lookup str_dec u index))
set_of-shrink t u [] index = ground (arith, lookup-erase str_dec t u index)
set_of-shrink t u (k ∷ ks) index = set_of-insert t u (k ∷ ks) index

listed_in-erase :
    (k j : CacheKey) (ks : KeySet)
    → listed_in j (erase key_dec k ks) ≡ (if key_is k j then false else listed_in j ks)
listed_in-erase k j ks = ground (arith, lookup-erase key_dec k j ks)

listed_in-insert :
    (k j : CacheKey) (ks : KeySet)
    → listed_in j (insert key_dec k tt ks) ≡ (if key_is k j then true else listed_in j ks)
listed_in-insert k j ks = ground (arith, lookup-insert key_dec k j tt ks)

abbrev erased : CacheKey → String → TagIndex → KeySet
erased k t index = erase key_dec k (keys_of (lookup str_dec t index))

abbrev added : CacheKey → String → TagIndex → KeySet
added k t index = insert key_dec k tt (keys_of (lookup str_dec t index))

listed-shrink :
    (k j : CacheKey) (t u : String) (index : TagIndex)
    → listed j u (shrink t (erased k t index) index)
      ≡ (if str_is t u then (if key_is k j then false else listed j u index) else listed j u index)
listed-shrink k j t u index =
    ap (listed_in j) (set_of-shrink t u (erased k t index) index)
    ∙ elim (str_dec t u)
        as (λ d.
          listed_in j
            (if ite d true false then erased k t index else keys_of (lookup str_dec u index))
          ≡ (if ite d true false
              then (if key_is k j then false else listed j u index)
              else listed j u index)) [
                | yes e ↦
                    listed_in-erase k j (keys_of (lookup str_dec t index))
                    ∙ ap (λ v. if key_is k j then false else listed j v index) e
                | no ne ↦ refl
              ]

listed-insert :
    (k j : CacheKey) (t u : String) (index : TagIndex)
    → listed j u (insert str_dec t (added k t index) index)
      ≡ (if str_is t u then (if key_is k j then true else listed j u index) else listed j u index)
listed-insert k j t u index =
    ap (listed_in j) (set_of-insert t u (added k t index) index)
    ∙ elim (str_dec t u)
        as (λ d.
          listed_in j
            (if ite d true false then added k t index else keys_of (lookup str_dec u index))
          ≡ (if ite d true false
              then (if key_is k j then true else listed j u index)
              else listed j u index)) [
                | yes e ↦
                    listed_in-insert k j (keys_of (lookup str_dec t index))
                    ∙ ap (λ v. if key_is k j then true else listed j v index) e
                | no ne ↦ refl
              ]

both_tests :
    (a s h l v : Bool)
    → (if a && h then v else (if s then (if a then v else l) else l))
      ≡ (if a && (if s then true else h) then v else l)
both_tests true true true l v = refl
both_tests true true false l v = refl
both_tests true false h l v = refl
both_tests false true h l v = refl
both_tests false false h l v = refl

pub listed-untag :
    (k j : CacheKey) (u : String) (tags : List String) (index : TagIndex)
    → listed j u (untag k tags index)
      ≡ (if key_is k j && has_tag u tags then false else listed j u index)
unfolding untag
listed-untag k j u [] index = ground arith
listed-untag k j u (t ∷ ts) index =
    listed-untag k j u ts (shrink t (erased k t index) index)
    ∙ ap (λ b. if key_is k j && has_tag u ts then false else b) (listed-shrink k j t u index)
    ∙ both_tests (key_is k j) (str_is t u) (has_tag u ts) (listed j u index) false

pub listed-tag_all :
    (k j : CacheKey) (u : String) (tags : List String) (index : TagIndex)
    → listed j u (tag_all k tags index)
      ≡ (if key_is k j && has_tag u tags then true else listed j u index)
unfolding tag_all
listed-tag_all k j u [] index = ground arith
listed-tag_all k j u (t ∷ ts) index =
    listed-tag_all k j u ts (insert str_dec t (added k t index) index)
    ∙ ap (λ b. if key_is k j && has_tag u ts then true else b) (listed-insert k j t u index)
    ∙ both_tests (key_is k j) (str_is t u) (has_tag u ts) (listed j u index) true

one_of :
    (b : Bool) (ks js : KeySet)
    → IsDistinct key_dec ks
    → IsDistinct key_dec js
    → IsDistinct key_dec (if b then ks else js)
one_of true ks js p q = p
one_of false ks js p q = q

-- No set holds a key twice.
abbrev pub SetsDistinct : TagIndex → Type 0
SetsDistinct index = (u : String) → IsDistinct key_dec (keys_of (lookup str_dec u index))

pub untag-SetsDistinct :
    (k : CacheKey) (tags : List String) (index : TagIndex)
    → SetsDistinct index
    → SetsDistinct (untag k tags index)
unfolding untag
untag-SetsDistinct k [] index d = d
untag-SetsDistinct k (t ∷ ts) index d =
    untag-SetsDistinct k ts (shrink t (erased k t index) index) (λ u.
      subst (IsDistinct key_dec) (sym (set_of-shrink t u (erased k t index) index)) (
        one_of (str_is t u) (erased k t index) (keys_of (lookup str_dec u index))
          (erase-IsDistinct key_dec k (keys_of (lookup str_dec t index)) (d t)) (d u)))

pub tag_all-SetsDistinct :
    (k : CacheKey) (tags : List String) (index : TagIndex)
    → SetsDistinct index
    → SetsDistinct (tag_all k tags index)
unfolding tag_all
tag_all-SetsDistinct k [] index d = d
tag_all-SetsDistinct k (t ∷ ts) index d =
    tag_all-SetsDistinct k ts (insert str_dec t (added k t index) index) (λ u.
      subst (IsDistinct key_dec) (sym (set_of-insert t u (added k t index) index)) (
        one_of (str_is t u) (added k t index) (keys_of (lookup str_dec u index))
          (insert-IsDistinct key_dec k tt (keys_of (lookup str_dec t index)) (d t)) (d u)))
