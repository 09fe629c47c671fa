-- ===== src/Base/Distinct.antt =====
-- Maps whose keys are distinct, and their sizes.
use Prim.Native.Nat.{suc}
use mathlib.Core.Path.{◌≡◌, refl}
use mathlib.Core.Option.{none, some}
use mathlib.Core.List.{List, [], ◌∷◌}
use native.Mathlib.Omega.{arith}
use symkernel.Base.Lists.{length}
use symkernel.Base.Dict.{lookup, insert, erase, lookup-insert, lookup-erase}

module _ {ℓ} {K V : Type ℓ} (dec : Discrete K) where
  abbrev pub IsDistinct : List (K × V) → Type ℓ
  IsDistinct [] = Unit
  IsDistinct ((k, v) ∷ m) = (lookup dec k m ≡ none) × IsDistinct m

  pub insert-IsDistinct :
      (k : K) (v : V) (m : List (K × V)) → IsDistinct m → IsDistinct (insert dec k v m)
  unfolding insert lookup
  insert-IsDistinct k v [] h = ground arith
  insert-IsDistinct k v ((j, w) ∷ m) h =
      ground (arith, insert-IsDistinct k v m h.1, lookup-insert dec k j v m, h)

  pub erase-IsDistinct : (k : K) (m : List (K × V)) → IsDistinct m → IsDistinct (erase dec k m)
  unfolding erase
  erase-IsDistinct k [] h = h
  erase-IsDistinct k ((j, w) ∷ m) h =
      ground (arith, erase-IsDistinct k m h.1, lookup-erase dec k j m, h)

  erase_missing : (k : K) (m : List (K × V)) → lookup dec k m ≡ none → erase dec k m ≡ m
  unfolding erase lookup
  erase_missing k [] h = refl
  erase_missing k ((j, w) ∷ m) h = ground (arith, erase_missing k m, h)

  pub length-erase :
      (k : K) (v : V) (m : List (K × V))
      → IsDistinct m
      → lookup dec k m ≡ some v
      → suc (length (erase dec k m)) ≡ length m
  unfolding erase lookup
  length-erase k v [] d h = ground (arith, h)
  length-erase k v ((j, w) ∷ m) d h =
      ground (arith, length-erase k v m d.1, erase_missing k m, d, h)

  pub length-insert :
      (k : K) (v : V) (m : List (K × V))
      → lookup dec k m ≡ none
      → length (insert dec k v m) ≡ suc (length m)
  unfolding insert lookup
  length-insert k v [] h = refl
  length-insert k v ((j, w) ∷ m) h = ground (arith, length-insert k v m, h)
