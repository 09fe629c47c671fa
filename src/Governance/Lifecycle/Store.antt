-- ===== src/Governance/Lifecycle/Store.antt =====
-- internal/governance/lifecycle.go: the store of policies. A range over the map goes through its
-- association list, whose order is as arbitrary as Go's. Policies are stored by value; a
-- transition through the pointer that `Get` returns changes neither key nor id nor version.
use Prim.Native.String.{◌++◌ as str_append}
use symkernel.Base.{
  ◌≡◌, refl, ◌⊎◌, List, [], ◌∷◌, true, false, String, Option, none, some, str_dec, str_is, Elem,
  keep_if, inl, inr, arith, Option-cases, ap, ◌∙◌,
}
use symkernel.Base.Dict.{lookup, insert, lookup-insert}
use symkernel.Governance.Version.{SchemaVersion, version_text, version_gt}
use symkernel.Governance.Lifecycle.{Policy, LifecycleState, state_is}
use symkernel.Governance.Schema.{values, scan_latest}
use symkernel.Governance.Schema.Latest.{scan_none}

abbrev pub PolicyStore : Type 0
PolicyStore = List (String × Policy)

unfoldable pub policy_store_key : String → SchemaVersion → String
policy_store_key id v = str_append id (str_append "@" (version_text v))

pub data AddResult : Type 0 where
  added already_exists : AddResult

unfoldable pub add_over : Option Policy → PolicyStore → Policy → PolicyStore × AddResult
add_over (some old) s p = (s, already_exists)
add_over none s p = (insert str_dec (policy_store_key p.id p.version) p s, added)

unfoldable pub add : PolicyStore → Policy → PolicyStore × AddResult
add s p = add_over (lookup str_dec (policy_store_key p.id p.version) s) s p

unfoldable pub get : PolicyStore → String → SchemaVersion → Option Policy
get s id v = lookup str_dec (policy_store_key id v) s

unfoldable pub latest : PolicyStore → String → Option Policy
latest s id = scan_latest (λ p. p.id) (λ p. p.version) id none (values s)

unfoldable pub list_by_state : PolicyStore → LifecycleState → List Policy
list_by_state s state = keep_if (λ p. state_is p.state state) (values s)

unfoldable pub add_all : PolicyStore → List Policy → PolicyStore
add_all s [] = s
add_all s (p ∷ ps) = add_all (add s p).0 ps

pair_path :
    (i j : String) (v w : SchemaVersion)
    → i ≡ j
    → v ≡ w
    → Path (String × SchemaVersion) (i, v) (j, w)
pair_path i j v w e f = rw (e, f) refl

held :
    (t : PolicyStore) (q p : Policy) (k : String)
    → lookup str_dec k t ≡ some p
    → lookup str_dec k (add t q).0 ≡ some p
unfolding add add_over
held t q p k h = elim (Option-cases (lookup str_dec (policy_store_key q.id q.version) t)) [
  | inr (old, e) ↦ rw e h
  | inl e ↦ rw e (ground (arith, lookup-insert str_dec (policy_store_key q.id q.version) k q t, h))
]

held_all :
    (t : PolicyStore) (qs : List Policy) (p : Policy) (k : String)
    → lookup str_dec k t ≡ some p
    → lookup str_dec k (add_all t qs) ≡ some p
unfolding add_all
held_all t [] p k h = h
held_all t (q ∷ qs) p k h = held_all (add t q).0 qs p k (held t q p k h)

refused_key :
    (t : PolicyStore) (q p : Policy)
    → lookup str_dec (policy_store_key q.id q.version) t ≡ some p
    → add t q ≡ (t, already_exists)
unfolding add add_over
refused_key t q p h = rw h refl

first_added :
    (s : PolicyStore) (p : Policy)
    → lookup str_dec (policy_store_key p.id p.version) s ≡ none
    → ((add s p).1 ≡ added)
      × (lookup str_dec (policy_store_key p.id p.version) (add s p).0 ≡ some p)
unfolding add add_over
first_added s p h = rw h (
  refl,
  ground (
    arith,
    lookup-insert str_dec (policy_store_key p.id p.version) (policy_store_key p.id p.version) p s,
  ),
)

-- A policy whose id and version the store does not hold is added; whatever is added afterwards,
-- `Get` finds it under them, and a policy of the same id and version is refused and changes nothing.
pub add_keeps :
    (s : PolicyStore) (p q : Policy) (ps : List Policy)
    → get s p.id p.version ≡ none
    → q.id ≡ p.id
    → q.version ≡ p.version
    → let t = add_all (add s p).0 ps in
      ((add s p).1 ≡ added) × (get t p.id p.version ≡ some p) × (add t q ≡ (t, already_exists))
unfolding get
add_keeps s p q ps h i v =
    let first = first_added s p h in
    let k = policy_store_key p.id p.version in
    let kept = held_all (add s p).0 ps p k first.1 in
    (
      first.0,
      kept,
      refused_key (add_all (add s p).0 ps) q p (
          ap (λ x. lookup str_dec (policy_store_key x.0 x.1) (add_all (add s p).0 ps))
            (pair_path q.id p.id q.version p.version i v)
          ∙ kept),
    )

-- In whatever order the map is ranged over, `Latest` of an id finds no policy exactly where the
-- store holds none of that id, and otherwise a stored one of that id such that no other of the id has a
-- higher version.
pub latest_policy_is_top :
    (s : PolicyStore) (id : String)
    → ((latest s id ≡ none) × ((p : Policy) → Elem p (values s) → str_is p.id id ≡ false))
      ⊎ ((b : Policy) × (latest s id ≡ some b)
          × Elem b (values s)
          × (str_is b.id id ≡ true)
          × ((p : Policy)
              → Elem p (values s)
              → str_is p.id id ≡ true
              → version_gt p.version b.version ≡ false))
unfolding latest
latest_policy_is_top s id = scan_none (λ p. p.id) (λ p. p.version) id (values s)
