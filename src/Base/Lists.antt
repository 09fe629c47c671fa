-- ===== src/Base/Lists.antt =====
-- Lists measured by native numbers, and predicates on their elements by recursion.
use Prim.Native.Nat.{ℕ, zero, suc, ◌+◌}
use mathlib.Core.Path.{ap, refl, subst, sym, ◌≡◌}
use mathlib.Core.Logic.{◌⊎◌, inl, inr}
use mathlib.Core.Bool.{Bool, true}
use mathlib.Core.List.{List, [], ◌∷◌, ◌++◌}
use mathlib.Core.Option.{Option, none, some}
use native.Mathlib.Omega.{arith}
use symkernel.Base.Tests.{if◌then◌else◌}

module _ {ℓ} {A : Type ℓ} where
  abbrev pub length : List A → ℕ
  length [] = 0
  length (x ∷ xs) = suc (length xs)

  abbrev pub get_elem? : List A → ℕ → Option A
  get_elem? [] i = none
  get_elem? (x ∷ xs) zero = some x
  get_elem? (x ∷ xs) (suc i) = get_elem? xs i

  pub length-append : (xs ys : List A) → length (xs ++ ys) ≡ length xs + length ys
  length-append [] ys = omega arith
  length-append (x ∷ xs) ys = omega (arith, length-append xs ys)

  -- How many elements pass a test.
  unfoldable pub count_if : (A → Bool) → List A → ℕ
  count_if p [] = 0
  count_if p (x ∷ xs) = (if p x then 1 else 0) + count_if p xs

  -- The elements that pass a test.
  unfoldable pub keep_if : (A → Bool) → List A → List A
  keep_if p [] = []
  keep_if p (x ∷ xs) = if p x then x ∷ keep_if p xs else keep_if p xs

module _ {ℓ κ} {A : Type ℓ} (P : A → Type κ) where
  abbrev pub All : List A → Type κ
  All [] = Unit
  All (x ∷ xs) = P x × All xs

  pub All-append : (xs ys : List A) → All xs → All ys → All (xs ++ ys)
  All-append [] ys hx hy = hy
  All-append (x ∷ xs) ys hx hy = (hx.0, All-append xs ys hx.1 hy)

module _ {ℓ} {A : Type ℓ} where
  pub length-count_if : (xs : List A) → length xs ≡ count_if (λ _. true) xs
  unfolding count_if
  length-count_if [] = refl
  length-count_if (x ∷ xs) = omega (arith, length-count_if xs)

  pub count_if-append :
      (p : A → Bool) (xs ys : List A) → count_if p (xs ++ ys) ≡ count_if p xs + count_if p ys
  unfolding count_if
  count_if-append p [] ys = omega arith
  count_if-append p (x ∷ xs) ys = omega (arith, count_if-append p xs ys)

-- Membership as a sum of equations.
abbrev pub Elem : {A : Type 0} → A → List A → Type 0
Elem a [] = ⊥
Elem a (x ∷ xs) = (a ≡ x) ⊎ Elem a xs

pub All-Elem : {A : Type 0} (P : A → Type 0) (x : A) (xs : List A) → All P xs → Elem x xs → P x
All-Elem P x [] h e = absurd e
All-Elem P x (y ∷ ys) h (inl e) = subst P (sym e) h.0
All-Elem P x (y ∷ ys) h (inr e) = All-Elem P x ys h.1 e

pub Elem-append_cases :
    {A : Type 0} (x : A) (xs ys : List A) → Elem x (xs ++ ys) → Elem x xs ⊎ Elem x ys
Elem-append_cases x [] ys e = inr e
Elem-append_cases x (y ∷ xs) ys (inl e) = inl (inl e)
Elem-append_cases x (y ∷ xs) ys (inr e) = elim (Elem-append_cases x xs ys e) [
  | inl l ↦ inl (inr l)
  | inr r ↦ inr r
]

pub Elem-append_left : {A : Type 0} (x : A) (xs ys : List A) → Elem x xs → Elem x (xs ++ ys)
Elem-append_left x (y ∷ xs) ys (inl e) = inl e
Elem-append_left x (y ∷ xs) ys (inr e) = inr (Elem-append_left x xs ys e)
Elem-append_left x [] ys e = absurd e

pub Elem-keep_if :
    {A : Type 0} (p : A → Bool) (x : A) (xs : List A)
    → Elem x (keep_if p xs)
    → Elem x xs × (p x ≡ true)
unfolding keep_if
Elem-keep_if p x [] e = absurd e
Elem-keep_if p x (y ∷ ys) e = ground (arith, Elem-keep_if p x ys)

pub keep_if_keeps :
    {A : Type 0} (p : A → Bool) (x : A) (xs : List A)
    → Elem x xs
    → p x ≡ true
    → Elem x (keep_if p xs)
unfolding keep_if
keep_if_keeps p x [] e h = absurd e
keep_if_keeps p x (y ∷ ys) e h = ground (arith, keep_if_keeps p x ys)

module _ {ℓ} {A : Type ℓ} where
  pub append_nil : (xs : List A) → xs ++ [] ≡ xs
  append_nil [] = refl
  append_nil (x ∷ xs) = ap (λ l. x ∷ l) (append_nil xs)

  pub append_one : (xs ys : List A) (y : A) → (xs ++ y ∷ []) ++ ys ≡ xs ++ y ∷ ys
  append_one [] ys y = refl
  append_one (x ∷ xs) ys y = ap (λ l. x ∷ l) (append_one xs ys y)

  pub length_one : (xs : List A) (y : A) → length (xs ++ y ∷ []) ≡ suc (length xs)
  length_one [] y = refl
  length_one (x ∷ xs) y = ap suc (length_one xs y)

  pub get_elem_at : (xs ys : List A) (y : A) → get_elem? (xs ++ y ∷ ys) (length xs) ≡ some y
  get_elem_at [] ys y = refl
  get_elem_at (x ∷ xs) ys y = get_elem_at xs ys y

  pub nil_of_length : (l : List A) → length l ≡ 0 → l ≡ []
  nil_of_length [] e = refl
  nil_of_length (x ∷ xs) e = absurd (ground (arith, e))
