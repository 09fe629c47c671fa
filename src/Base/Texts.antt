-- ===== src/Base/Texts.antt =====
-- Decidable equality of texts, in the two forms that the models branch on.
use Prim.Native.String.{String}
use mathlib.Core.Path.{◌≡◌, refl}
use mathlib.Core.Logic.{◌↔◌, ite}
use mathlib.Core.Bool.{Bool, true, false}
use native.Mathlib.Omega.{arith}
use text.Mathlib.Text.{◌==◌ as str_eq}
use text.Mathlib.TextEquality.{eq_iff}

dec_of_test : {s t : String} (b : Bool) → ((b ≡ true) ↔ (s ≡ t)) → Dec (s ≡ t)
dec_of_test true e = yes (e.0 refl)
dec_of_test false e = no (λ p. ground (arith, e.1 p))

-- Tests need it unfolded; proofs split on it while it is shut.
unfoldable pub str_dec : Discrete String
unfolding dec_of_test
str_dec s t = dec_of_test (str_eq s t) (eq_iff s t)

-- Go's `==` on strings.
abbrev pub str_is : String → String → Bool
str_is s t = ite (str_dec s t) true false
