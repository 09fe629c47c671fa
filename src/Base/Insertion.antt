-- ===== src/Base/Insertion.antt =====
-- A stable sort by a Boolean test, for `sort.Slice` with a total order and for hand-written
-- insertion sorts.
use mathlib.Core.Path.{◌≡◌, refl, subst, sym}
use mathlib.Core.Logic.{◌⊎◌, inl, inr}
use mathlib.Core.Bool.{Bool, true, false}
use mathlib.Core.List.{List, [], ◌∷◌}
use native.Mathlib.Omega.{arith}
use symkernel.Base.Tests.{if◌then◌else◌, Bool-cases}
use symkernel.Base.Lists.{count_if, All, Elem}

-- A test that is a strict order with comparable classes.
pub record IsOrder {ℓ} {A : Type ℓ} (less : A → A → Bool) : Type ℓ where
  pub asym : (a b : A) → less a b ≡ true → less b a ≡ false
  pub le_trans : (a b c : A) → less b a ≡ false → less c b ≡ false → less c a ≡ false

module _ {ℓ} {A : Type ℓ} (less : A → A → Bool) where
  unfoldable pub insert_by : A → List A → List A
  insert_by x [] = x ∷ []
  insert_by x (y ∷ ys) = if less y x then y ∷ insert_by x ys else x ∷ y ∷ ys

  unfoldable pub sort_by : List A → List A
  sort_by [] = []
  sort_by (x ∷ xs) = insert_by x (sort_by xs)

  -- Nothing is below an earlier element.
  abbrev pub InOrder : List A → Type ℓ
  InOrder [] = Unit
  InOrder (x ∷ xs) = All (λ y. less y x ≡ false) xs × InOrder xs

  pub count_if-insert_by :
      (p : A → Bool) (x : A) (ys : List A) → count_if p (insert_by x ys) ≡ count_if p (x ∷ ys)
  unfolding insert_by count_if
  count_if-insert_by p x [] = refl
  count_if-insert_by p x (y ∷ ys) = ground (arith, count_if-insert_by p x ys)

  pub count_if-sort_by : (p : A → Bool) (xs : List A) → count_if p (sort_by xs) ≡ count_if p xs
  unfolding sort_by count_if
  count_if-sort_by p [] = refl
  count_if-sort_by p (x ∷ xs) =
      let e = count_if-insert_by p x (sort_by xs) in
      let r = count_if-sort_by p xs in ground (arith, e, r)

  pub All-insert_by {κ} :
      (P : A → Type κ) (x : A) (ys : List A) → P x → All P ys → All P (insert_by x ys)
  unfolding insert_by
  All-insert_by P x [] h all = (h, all)
  All-insert_by P x (y ∷ ys) h all = elim (Bool-cases (less y x)) [
    | inl b ↦ rw b (all.0, All-insert_by P x ys h all.1)
    | inr b ↦ rw b (h, all)
  ]

  pub All-sort_by {κ} : (P : A → Type κ) (xs : List A) → All P xs → All P (sort_by xs)
  unfolding sort_by
  All-sort_by P [] all = all
  All-sort_by P (x ∷ xs) all = All-insert_by P x (sort_by xs) all.0 (All-sort_by P xs all.1)

  module _ (o : IsOrder less) where
    raised :
        (x y : A) (ys : List A)
        → less y x ≡ false
        → All (λ z. less z y ≡ false) ys
        → All (λ z. less z x ≡ false) ys
    raised x y [] h all = all
    raised x y (z ∷ ys) h all = (o.le_trans x y z h all.0, raised x y ys h all.1)

    insert_by-InOrder : (x : A) (ys : List A) → InOrder ys → InOrder (insert_by x ys)
    unfolding insert_by
    insert_by-InOrder x [] h = (tt, tt)
    insert_by-InOrder x (y ∷ ys) h = elim (Bool-cases (less y x)) [
      | inl b ↦ rw b (
        All-insert_by (λ z. less z y ≡ false) x ys (o.asym y x b) h.0,
        insert_by-InOrder x ys h.1,
      )
      | inr b ↦ rw b ((b, raised x y ys b h.0), h)
    ]

    pub sort_by-InOrder : (xs : List A) → InOrder (sort_by xs)
    unfolding sort_by
    sort_by-InOrder [] = tt
    sort_by-InOrder (x ∷ xs) = insert_by-InOrder x (sort_by xs) (sort_by-InOrder xs)

pub Elem-insert_by :
    {A : Type 0} (less : A → A → Bool) (z x : A) (ys : List A)
    → Elem z (insert_by less x ys)
    → (z ≡ x) ⊎ Elem z ys
unfolding insert_by
Elem-insert_by less z x [] e = e
Elem-insert_by less z x (y ∷ ys) e = ground (arith, Elem-insert_by less z x ys)

pub Elem-sort_by :
    {A : Type 0} (less : A → A → Bool) (z : A) (xs : List A) → Elem z (sort_by less xs) → Elem z xs
unfolding sort_by
Elem-sort_by less z [] e = e
Elem-sort_by less z (x ∷ xs) e = elim (Elem-insert_by less z x (sort_by less xs) e) [
  | inl h ↦ inl h
  | inr h ↦ inr (Elem-sort_by less z xs h)
]

insert_by_here :
    {A : Type 0} (less : A → A → Bool) (x : A) (ys : List A) → Elem x (insert_by less x ys)
unfolding insert_by
insert_by_here less x [] = inl refl
insert_by_here less x (y ∷ ys) = ground (arith, insert_by_here less x ys)

insert_by_keeps :
    {A : Type 0} (less : A → A → Bool) (z x : A) (ys : List A)
    → Elem z ys
    → Elem z (insert_by less x ys)
unfolding insert_by
insert_by_keeps less z x [] e = absurd e
insert_by_keeps less z x (y ∷ ys) e = ground (arith, insert_by_keeps less z x ys)

pub sort_by_keeps :
    {A : Type 0} (less : A → A → Bool) (z : A) (xs : List A) → Elem z xs → Elem z (sort_by less xs)
unfolding sort_by
sort_by_keeps less z (x ∷ xs) (inl e) =
    subst (λ w. Elem w (insert_by less x (sort_by less xs))) (sym e)
      (insert_by_here less x (sort_by less xs))
sort_by_keeps less z (x ∷ xs) (inr e) =
    insert_by_keeps less z x (sort_by less xs) (sort_by_keeps less z xs e)
sort_by_keeps less z [] e = absurd e

-- One order, and where it does not tell two elements apart, another.
abbrev pub then_by {ℓ} : {A : Type ℓ} → (A → A → Bool) → (A → A → Bool) → A → A → Bool
then_by f g a b = if f a b then true else if f b a then false else g a b

pub then_by-IsOrder {ℓ} :
    {A : Type ℓ} (f g : A → A → Bool) → IsOrder f → IsOrder g → IsOrder (then_by f g)
then_by-IsOrder f g p q = record {
  asym = λ a b h. ground (arith, p.asym a b, p.asym b a, q.asym a b);
  le_trans = λ a b c h k.
      ground (arith, p.le_trans a b c, p.le_trans b c a, p.le_trans c a b, q.le_trans a b c, h, k);
}
