-- ===== src/Governance/Schema/Sorting.antt =====
-- internal/governance/schema.go: the order of `List`.
use symkernel.Base.{
  ℕ, zero, suc, ◌≡◌, refl, inl, inr, List, [], ◌∷◌, Bool, false, String, length, count_if, keep_if,
  All, arith, Bool-cases,
}
use symkernel.Governance.Version.{version_gt, version_le_trans, version_gt_asym, version_gt_irrefl}
use symkernel.Governance.Schema.{
  PolicySchema, SchemaRegistry, exchange, sort_from, sort_schemas, list, wanted, values,
}

-- Newest first: nothing has a version above an earlier one's.
abbrev NotAbove : PolicySchema → PolicySchema → Type 0
NotAbove x s = version_gt s.version x.version ≡ false

abbrev pub Descending : List PolicySchema → Type 0
Descending [] = Unit
Descending (x ∷ xs) = All (NotAbove x) xs × Descending xs

length-exchange : (x : PolicySchema) (ys : List PolicySchema) → length (exchange x ys).1 ≡ length ys
unfolding exchange
length-exchange x [] = refl
length-exchange x (y ∷ ys) = ground (arith, length-exchange y ys, length-exchange x ys)

count_if-exchange :
    (p : PolicySchema → Bool) (x : PolicySchema) (ys : List PolicySchema)
    → count_if p ((exchange x ys).0 ∷ (exchange x ys).1) ≡ count_if p (x ∷ ys)
unfolding exchange count_if
count_if-exchange p x [] = refl
count_if-exchange p x (y ∷ ys) = ground (arith, count_if-exchange p y ys, count_if-exchange p x ys)

lowered :
    (a b : PolicySchema) (ss : List PolicySchema)
    → version_gt b.version a.version ≡ false
    → All (NotAbove b) ss
    → All (NotAbove a) ss
lowered a b [] h all = all
lowered a b (s ∷ ss) h all =
    (version_le_trans s.version b.version a.version all.0 h, lowered a b ss h all.1)

-- The element that a pass puts at its index is above none of the elements, the first included.
exchange_top :
    (x : PolicySchema) (ys : List PolicySchema)
    → (version_gt x.version (exchange x ys).0.version ≡ false)
      × All (NotAbove (exchange x ys).0) (exchange x ys).1
unfolding exchange
exchange_top x [] = (version_gt_irrefl x.version, tt)
exchange_top x (y ∷ ys) = elim (Bool-cases (version_gt y.version x.version)) [
  | inl h ↦ rw h (
      let e = exchange_top y ys in
      let up : version_gt x.version (exchange y ys).0.version ≡ false =
        version_le_trans x.version y.version (exchange y ys).0.version
          (version_gt_asym y.version x.version h) e.0 in
      (up, (up, e.1)))
  | inr h ↦ rw h (
      let e = exchange_top x ys in
      (e.0, (version_le_trans y.version x.version (exchange x ys).0.version h e.0, e.1)))
]

All-exchange :
    (P : PolicySchema → Type 0) (x : PolicySchema) (ys : List PolicySchema)
    → P x
    → All P ys
    → P (exchange x ys).0 × All P (exchange x ys).1
unfolding exchange
All-exchange P x [] h all = (h, tt)
All-exchange P x (y ∷ ys) h all = elim (Bool-cases (version_gt y.version x.version)) [
  | inl g ↦ rw g (let r = All-exchange P y ys all.0 all.1 in (r.0, (h, r.1)))
  | inr g ↦ rw g (let r = All-exchange P x ys h all.1 in (r.0, (all.0, r.1)))
]

All-sort_from :
    (P : PolicySchema → Type 0) (n : ℕ) (ss : List PolicySchema) → All P ss → All P (sort_from n ss)
unfolding sort_from
All-sort_from P zero ss all = all
All-sort_from P (suc n) [] all = all
All-sort_from P (suc n) (x ∷ ys) all =
    let r = All-exchange P x ys all.0 all.1 in (r.0, All-sort_from P n (exchange x ys).1 r.1)

sort_from-Descending :
    (n : ℕ) (ss : List PolicySchema) → length ss ≡ n → Descending (sort_from n ss)
unfolding sort_from
sort_from-Descending zero [] h = tt
sort_from-Descending zero (x ∷ ys) h = absurd (omega (arith, h))
sort_from-Descending (suc n) [] h = tt
sort_from-Descending (suc n) (x ∷ ys) h = (
  All-sort_from (NotAbove (exchange x ys).0) n (exchange x ys).1 (exchange_top x ys).1,
  sort_from-Descending n (exchange x ys).1 (omega (arith, length-exchange x ys, h)),
)

count_if-sort_from :
    (p : PolicySchema → Bool) (n : ℕ) (ss : List PolicySchema)
    → count_if p (sort_from n ss) ≡ count_if p ss
unfolding sort_from count_if
count_if-sort_from p zero ss = refl
count_if-sort_from p (suc n) [] = refl
count_if-sort_from p (suc n) (x ∷ ys) =
    let k = count_if-exchange p x ys in
    let l = count_if-sort_from p n (exchange x ys).1 in ground (arith, k, l)

-- `List` holds each registered schema of the id (of any id, where it is empty) as often as the map
-- does, counted by any test, and is in descending order of the versions.
pub list_sorted :
    (r : SchemaRegistry) (id : String) (p : PolicySchema → Bool)
    → Descending (list r id)
      × (count_if p (list r id) ≡ count_if p (keep_if (wanted id) (values r)))
unfolding list sort_schemas
list_sorted r id p =
    let ss = keep_if (wanted id) (values r) in
    (sort_from-Descending (length ss) ss refl, count_if-sort_from p (length ss) ss)
