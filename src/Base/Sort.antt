-- ===== src/Base/Sort.antt =====
-- `sort.Strings`: insertion sort by the order of the texts' bytes.
use Prim.Native.Nat.{suc, Ordering}
use Prim.Native.String.{String, compare}
use mathlib.Core.Path.{◌≡◌, refl}
use mathlib.Core.Bool.{Bool, true, false}
use mathlib.Core.List.{List, [], ◌∷◌}
use native.Mathlib.Omega.{arith}
use symkernel.Base.Tests.{if◌then◌else◌}
use symkernel.Base.Lists.{length}

unfoldable pub str_leb : String → String → Bool
str_leb s t = elim (compare s t) [ Ordering.gt ↦ false | _ ↦ true ]

unfoldable pub insert_string : String → List String → List String
insert_string s [] = s ∷ []
insert_string s (t ∷ ts) = if str_leb s t then s ∷ t ∷ ts else t ∷ insert_string s ts

unfoldable pub sort_strings : List String → List String
sort_strings [] = []
sort_strings (s ∷ ss) = insert_string s (sort_strings ss)

length-insert_string :
    (s : String) (ts : List String) → length (insert_string s ts) ≡ suc (length ts)
unfolding insert_string
length-insert_string s [] = refl
length-insert_string s (t ∷ ts) = ground (arith, length-insert_string s ts)

pub length-sort_strings : (ss : List String) → length (sort_strings ss) ≡ length ss
unfolding sort_strings
length-sort_strings [] = refl
length-sort_strings (s ∷ ss) =
    ground (arith, length-insert_string s (sort_strings ss), length-sort_strings ss)
