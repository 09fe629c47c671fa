-- ===== src/Coordination/Election/Majority.antt =====
-- Two majorities of one list of members have a member in common.
use symkernel.Base.{
  ◌+◌, ◌≤◌, ◌<◌, ◌≡◌, refl, inl, inr, List, [], ◌∷◌, Bool, true, false, ◌||◌, String, arith, length,
  count_if, Elem, str_is, Bool-cases,
}
use symkernel.Coordination.Node.{majority_of}
use symkernel.Coordination.Election.During.{Distinct}

member_of : List String → String → Bool
member_of [] y = false
member_of (x ∷ xs) y = str_is y x || member_of xs y

member_of→Elem : (xs : List String) (y : String) → member_of xs y ≡ true → Elem y xs
unfolding member_of
member_of→Elem [] y h = cc
member_of→Elem (x ∷ xs) y h = ground (arith, member_of→Elem xs y)

not-member_of : (xs : List String) (y : String) → ¬ Elem y xs → member_of xs y ≡ false
unfolding member_of
not-member_of [] y h = refl
not-member_of (x ∷ xs) y h = ground (arith, not-member_of xs y)

module _ (q : String → Bool) (x : String) where
  count_if-le_or : (ids : List String) → count_if q ids ≤ count_if (λ y. str_is y x || q y) ids
  unfolding count_if
  count_if-le_or [] = omega arith
  count_if-le_or (i ∷ ids) = ground (arith, count_if-le_or ids)

  count_if-lt_or :
      (ids : List String)
      → Elem x ids
      → q x ≡ false
      → count_if q ids < count_if (λ y. str_is y x || q y) ids
  unfolding count_if
  count_if-lt_or [] e h = absurd e
  count_if-lt_or (i ∷ ids) e h = ground (arith, count_if-lt_or ids, count_if-le_or ids)

length-le-count_if :
    (xs ids : List String)
    → Distinct xs
    → ((x : String) → Elem x xs → Elem x ids)
    → length xs ≤ count_if (member_of xs) ids
unfolding member_of
length-le-count_if [] ids d h = omega arith
length-le-count_if (x ∷ xs) ids d h = omega (
  arith,
  length-le-count_if xs ids d.1 (λ y e. h y (inr e)),
  count_if-lt_or (member_of xs) x ids (h x (inl refl)) (not-member_of xs x d.0),
)

both_of_count :
    (p q : String → Bool) (ids : List String)
    → length ids < count_if p ids + count_if q ids
    → (x : String) × (p x ≡ true) × (q x ≡ true)
unfolding count_if
both_of_count p q [] h = absurd (omega arith)
both_of_count p q (i ∷ ids) h = elim (Bool-cases (p i)) [
  | inl hp ↦ elim (Bool-cases (q i)) [
    | inl hq ↦ (i, hp, hq)
    | inr nq ↦ both_of_count p q ids (ground arith)
  ]
  | inr np ↦ both_of_count p q ids (ground arith)
]

-- Two sets of members, each at least a majority, meet.
pub majorities_meet :
    (ids xs ys : List String)
    → Distinct xs
    → Distinct ys
    → ((x : String) → Elem x xs → Elem x ids)
    → ((y : String) → Elem y ys → Elem y ids)
    → majority_of (length ids) ≤ length xs
    → majority_of (length ids) ≤ length ys
    → (x : String) × Elem x xs × Elem x ys
majorities_meet ids xs ys dx dy sx sy mx my =
    let (x, hx, hy) =
      both_of_count (member_of xs) (member_of ys) ids
        (omega (arith, length-le-count_if xs ids dx sx, length-le-count_if ys ids dy sy)) in
    (x, member_of→Elem xs x hx, member_of→Elem ys x hy)
