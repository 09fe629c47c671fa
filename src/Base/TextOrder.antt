-- ===== src/Base/TextOrder.antt =====
-- Go's `<` on strings is a strict order, which is total.
use Prim.Native.Nat.{Ordering}
use Prim.Native.Char.{Char, code}
use Prim.Native.String.{String, compare}
use Prim.Native.String.compare
use mathlib.Core.Path.{◌≡◌, ap, ◌∙◌}
use mathlib.Core.Bool.{Bool, true, false}
use native.Mathlib.Omega.{arith}
use symkernel.Base.Tests.{ltb, ◌==◌, if◌then◌else◌}

-- Go's `<`.
abbrev is_lt : Ordering → Bool
is_lt Ordering.lt = true
is_lt Ordering.eq = false
is_lt Ordering.gt = false

unfoldable pub str_lt : String → String → Bool
str_lt s t = is_lt (compare s t)

lt-cons :
    (c d : Char) (s t : String)
    → str_lt (String.◌∷◌ c s) (String.◌∷◌ d t)
      ≡ (if ltb (code c) (code d) then true else if code c == code d then str_lt s t else false)
unfolding str_lt
lt-cons c d s t = ap is_lt (compare.cons-cons c d s t) ∙ ground arith

lt-nil : (s : String) → str_lt s String.[] ≡ false
unfolding str_lt
lt-nil String.[] = ap is_lt compare.nil-nil
lt-nil (String.◌∷◌ c s) = ap is_lt (compare.cons-nil c s)

nil-lt : (c : Char) (s : String) → str_lt String.[] (String.◌∷◌ c s) ≡ true
unfolding str_lt
nil-lt c s = ap is_lt (compare.nil-cons c s)

-- Not being below is transitive.
pub str_le_trans : (s t u : String) → str_lt t s ≡ false → str_lt u t ≡ false → str_lt u s ≡ false
str_le_trans String.[] t u h k = lt-nil u
str_le_trans (String.◌∷◌ c s) String.[] u h k = ground (arith, nil-lt c s)
str_le_trans (String.◌∷◌ c s) (String.◌∷◌ d t) String.[] h k = ground (arith, nil-lt d t)
str_le_trans (String.◌∷◌ c s) (String.◌∷◌ d t) (String.◌∷◌ e u) h k =
    ground (arith, lt-cons d c t s, lt-cons e d u t, lt-cons e c u s, str_le_trans s t u)

pub str_lt_asym : (s t : String) → str_lt s t ≡ true → str_lt t s ≡ false
str_lt_asym String.[] t h = lt-nil t
str_lt_asym (String.◌∷◌ c s) String.[] h = ground (arith, lt-nil (String.◌∷◌ c s))
str_lt_asym (String.◌∷◌ c s) (String.◌∷◌ d t) h =
    ground (arith, lt-cons c d s t, lt-cons d c t s, str_lt_asym s t)

-- A text is not below itself.
pub str_lt_irrefl : (s : String) → str_lt s s ≡ false
str_lt_irrefl String.[] = lt-nil String.[]
str_lt_irrefl (String.◌∷◌ c s) = ground (arith, lt-cons c c s s, str_lt_irrefl s)
