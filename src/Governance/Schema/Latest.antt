-- ===== src/Governance/Schema/Latest.antt =====
-- internal/governance/schema.go: what `Latest` finds.
use symkernel.Base.{
  ◌≡◌, refl, ◌⊎◌, inl, inr, List, [], ◌∷◌, true, false, String, none, some, str_is, Elem, arith,
  Bool-cases, subst, sym, ap, ◌∙◌,
}
use symkernel.Governance.Version.{
  SchemaVersion, version_gt, version_le_trans, version_gt_asym, version_gt_irrefl,
}
use symkernel.Governance.Schema.{scan_latest, better, values, PolicySchema, SchemaRegistry, latest}

module _ {A : Type 0} (id_of : A → String) (version_of : A → SchemaVersion) where
  -- No element of the id in a list is above b.
  abbrev pub IsTop : String → A → List A → Type 0
  IsTop id b ss =
      (s : A)
      → Elem s ss
      → str_is (id_of s) id ≡ true
      → version_gt (version_of s) (version_of b) ≡ false

  abbrev Above : A → A → Type 0
  Above a b = version_gt (version_of a) (version_of b) ≡ false

  skipped :
      (id : String) (b x : A) (xs : List A)
      → str_is (id_of x) id ≡ false
      → IsTop id b xs
      → IsTop id b (x ∷ xs)
  skipped id b x xs h top s (inl e) k = absurd (ground (arith, ap (λ y. str_is (id_of y) id) e))
  skipped id b x xs h top s (inr e) k = top s e k

  added : (id : String) (b x : A) (xs : List A) → Above x b → IsTop id b xs → IsTop id b (x ∷ xs)
  added id b x xs h top s (inl e) k = subst (λ y. Above y b) (sym e) h
  added id b x xs h top s (inr e) k = top s e k

  later :
      (id : String) (a b x : A) (xs : List A)
      → (b ≡ a) ⊎ (Elem b xs × (str_is (id_of b) id ≡ true))
      → (b ≡ a) ⊎ (Elem b (x ∷ xs) × (str_is (id_of b) id ≡ true))
  later id a b x xs (inl e) = inl e
  later id a b x xs (inr (m, k)) = inr (inr m, k)

  met :
      (id : String) (x b : A) (xs : List A)
      → str_is (id_of x) id ≡ true
      → (b ≡ x) ⊎ (Elem b xs × (str_is (id_of b) id ≡ true))
      → Elem b (x ∷ xs) × (str_is (id_of b) id ≡ true)
  met id x b xs h (inl e) = (inl e, ap (λ y. str_is (id_of y) id) e ∙ h)
  met id x b xs h (inr (m, k)) = (inr m, k)

  out_cons :
      (id : String) (x : A) (xs : List A)
      → str_is (id_of x) id ≡ false
      → ((s : A) → Elem s xs → str_is (id_of s) id ≡ false)
      → (s : A) → Elem s (x ∷ xs)
      → str_is (id_of s) id ≡ false
  out_cons id x xs h out s (inl e) = ap (λ y. str_is (id_of y) id) e ∙ h
  out_cons id x xs h out s (inr m) = out s m

  scan_some :
      (id : String) (a : A) (ss : List A)
      → (b : A) × (scan_latest id_of version_of id (some a) ss ≡ some b)
        × ((b ≡ a) ⊎ (Elem b ss × (str_is (id_of b) id ≡ true)))
        × Above a b
        × IsTop id b ss
  unfolding scan_latest better
  scan_some id a [] = (a, refl, inl refl, version_gt_irrefl (version_of a), (λ s e k. absurd e))
  scan_some id a (x ∷ xs) = elim (Bool-cases (str_is (id_of x) id)) [
    | inr h ↦
        let (b, e, from, up, top) = scan_some id a xs in
        (b, rw h e, later id a b x xs from, up, skipped id b x xs h top)
    | inl h ↦ elim (Bool-cases (version_gt (version_of x) (version_of a))) [
      | inl g ↦
          let (b, e, from, up, top) = scan_some id x xs in
          (
            b,
            rw (h, g) e,
            inr (met id x b xs h from),
            version_le_trans (version_of a) (version_of x) (version_of b)
                (version_gt_asym (version_of x) (version_of a) g) up,
            added id b x xs up top,
          )
      | inr g ↦
          let (b, e, from, up, top) = scan_some id a xs in
          (
            b,
            rw (h, g) e,
            later id a b x xs from,
            up,
            added id b x xs (version_le_trans (version_of x) (version_of a) (version_of b) g up)
                top,
          )
    ]
  ]

  pub scan_none :
      (id : String) (ss : List A)
      → ((scan_latest id_of version_of id none ss ≡ none)
          × ((s : A) → Elem s ss → str_is (id_of s) id ≡ false))
        ⊎ ((b : A) × (scan_latest id_of version_of id none ss ≡ some b)
            × Elem b ss
            × (str_is (id_of b) id ≡ true)
            × IsTop id b ss)
  unfolding scan_latest better
  scan_none id [] = inl (refl, (λ s e. absurd e))
  scan_none id (x ∷ xs) = elim (Bool-cases (str_is (id_of x) id)) [
    | inr h ↦ elim (scan_none id xs) [
      | inl (e, out) ↦ inl (rw h e, out_cons id x xs h out)
      | inr (b, e, m, k, top) ↦ inr (b, rw h e, inr m, k, skipped id b x xs h top)
    ]
    | inl h ↦
        let (b, e, from, up, top) = scan_some id x xs in
        let (m, k) = met id x b xs h from in inr (b, rw h e, m, k, added id b x xs up top)
  ]

-- In whatever order the map is ranged over, `Latest` of an id finds no schema exactly where none of that
-- id is registered, and otherwise a registered one of that id such that no other of the id has a
-- higher version.
pub latest_is_top :
    (r : SchemaRegistry) (id : String)
    → ((latest r id ≡ none) × ((s : PolicySchema) → Elem s (values r) → str_is s.id id ≡ false))
      ⊎ ((b : PolicySchema) × (latest r id ≡ some b)
          × Elem b (values r)
          × (str_is b.id id ≡ true)
          × ((s : PolicySchema)
              → Elem s (values r)
              → str_is s.id id ≡ true
              → version_gt s.version b.version ≡ false))
unfolding latest
latest_is_top r id = scan_none (λ s. s.id) (λ s. s.version) id (values r)
