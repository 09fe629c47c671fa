-- ===== src/Governance/Schema/Chain.antt =====
-- internal/governance/schema.go: when `MigrationChain` ends, and what it returns.
use symkernel.Base.{
  ℕ, zero, suc, ◌<◌, ◌≡◌, refl, inl, inr, List, [], ◌∷◌, String, Option, none, some, Option-cases,
  arith, str_dec, ap, ◌∙◌,
}
use symkernel.Base.Dict.{lookup-insert}
use symkernel.Governance.Version.{SchemaVersion}
use symkernel.Governance.Schema.{
  PolicySchema, SchemaRegistry, get, predecessor, chain_from, migration_chain, put_first, register,
  register_over, registered, schema_key,
}

-- A list that starts at a schema, goes from each to the registered one that its previous version
-- names, and ends where there is none.
pub data IsChain : SchemaRegistry → String → Option PolicySchema → List PolicySchema → Type 0 where
  ended : (r : SchemaRegistry) (id : String) → IsChain r id none []
  linked :
      (r : SchemaRegistry) (id : String) (s : PolicySchema) (ss : List PolicySchema)
      → IsChain r id (predecessor r id s.previous_version) ss
      → IsChain r id (some s) (s ∷ ss)

-- A number for each schema that falls from a registered one to its predecessor.
abbrev pub Descends : SchemaRegistry → String → (PolicySchema → ℕ) → Type 0
Descends r id rank =
    (s t : PolicySchema) → predecessor r id s.previous_version ≡ some t → rank t < rank s

chain_none : (n : ℕ) (r : SchemaRegistry) (id : String) → chain_from n r id none ≡ some []
unfolding chain_from
chain_none zero r id = refl
chain_none (suc n) r id = refl

chain_step :
    (n : ℕ) (r : SchemaRegistry) (id : String) (s : PolicySchema)
    → chain_from (suc n) r id (some s)
      ≡ put_first s (chain_from n r id (predecessor r id s.previous_version))
unfolding chain_from
chain_step n r id s = refl

runs_out :
    (r : SchemaRegistry) (id : String) (rank : PolicySchema → ℕ)
    → Descends r id rank
    → (n : ℕ) (s : PolicySchema) → rank s < n
    → (ss : List PolicySchema) × (chain_from n r id (some s) ≡ some ss) × IsChain r id (some s) ss
runs_out r id rank d zero s h = absurd (omega (arith, h))
runs_out r id rank d (suc n) s h = elim (Option-cases (predecessor r id s.previous_version)) [
  | inl e ↦ (
    s ∷ [],
    rw (chain_step n r id s, e, chain_none n r id) refl,
    linked r id s [] (rw e (ended r id)),
  )
  | inr (t, e) ↦
      let (ss, k, c) = runs_out r id rank d n t (omega (arith, d s t e, h)) in
      (s ∷ ss, rw (chain_step n r id s, e, k) refl, linked r id s ss (rw e c))
]

-- Where some number falls along every link, `MigrationChain` ends: more steps than the number of the schema
-- asked for are enough, and it returns that schema and then each registered
-- predecessor in turn, down to one that has none.
pub migration_chain_ends :
    (r : SchemaRegistry) (id : String) (v : SchemaVersion) (rank : PolicySchema → ℕ)
    (s : PolicySchema)
    → Descends r id rank
    → get r id v ≡ some s
    → (n : ℕ) → rank s < n
    → (ss : List PolicySchema) × (migration_chain n r id v ≡ some ss) × IsChain r id (some s) ss
unfolding migration_chain
migration_chain_ends r id v rank s d h n k =
    let (ss, e, c) = runs_out r id rank d n s k in (ss, rw h e, c)

runs_on :
    (r : SchemaRegistry) (id : String) (s : PolicySchema) (n : ℕ)
    → predecessor r id s.previous_version ≡ some s
    → chain_from n r id (some s) ≡ none
unfolding chain_from
runs_on r id s zero h = refl
runs_on r id s (suc n) h = rw (h, runs_on r id s n h) refl

get-register :
    (r : SchemaRegistry) (s : PolicySchema)
    → get r s.id s.version ≡ none
    → get (register r s).0 s.id s.version ≡ some s
unfolding register register_over get
get-register r s h = rw h (
    ground
      (arith, lookup-insert str_dec (schema_key s.id s.version) (schema_key s.id s.version) s r))

accepted :
    (r : SchemaRegistry) (s : PolicySchema)
    → get r s.id s.version ≡ none
    → (register r s).1 ≡ registered
unfolding register register_over get
accepted r s h = rw h refl

own_predecessor :
    (r : SchemaRegistry) (s : PolicySchema)
    → predecessor r s.id (some s.version) ≡ get r s.id s.version
unfolding predecessor
own_predecessor r s = refl

-- A schema that names its own version as the previous one can be registered wherever its version is new, and
-- `MigrationChain` from it then never ends: no number of steps is enough.
pub self_predecessor_diverges :
    (r : SchemaRegistry) (s : PolicySchema) (n : ℕ)
    → get r s.id s.version ≡ none
    → s.previous_version ≡ some s.version
    → ((register r s).1 ≡ registered) × (migration_chain n (register r s).0 s.id s.version ≡ none)
unfolding migration_chain
self_predecessor_diverges r s n h e = (
  accepted r s h,
  rw (get-register r s h) (
      runs_on (register r s).0 s.id s n (
        ap (predecessor (register r s).0 s.id) e
        ∙ own_predecessor (register r s).0 s
        ∙ get-register r s h)),
)
