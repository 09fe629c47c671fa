-- ===== src/Federation/Replicator/Keys.antt =====
-- internal/federation: maps from names to policies that hold each policy under its own name.
use symkernel.Base.{
  ℕ, ◌+◌, ◌≤◌, ◌≡◌, refl, List, [], ◌∷◌, Bool, true, String, Option, none, some, if◌then◌else◌,
  str_dec, str_is, count_if, All, arith, ap, ◌∙◌, sym,
}
use symkernel.Base.Dict.{lookup, insert, erase, lookup-insert}
use symkernel.Base.Insertion.{sort_by, insert_by, count_if-sort_by}
use symkernel.Federation.Store.{Policy, MemoryStore, get, list, policies_of, before}
use symkernel.Federation.Replicator.{by_id}

abbrev pub named : String → Policy → Bool
named id p = str_is p.id id

-- How many policies have a name.
abbrev pub copies : String → List Policy → ℕ
copies id = count_if (named id)

unfoldable pub find_policy : String → List Policy → Option Policy
find_policy id [] = none
find_policy id (p ∷ ps) = let rest = find_policy id ps in if named id p then some p else rest

-- Every policy stands under its own name, and no name twice.
pub record IsKeyed (m : MemoryStore) : Type 0 where
  pub own : All (λ e. str_is e.1.id e.0 ≡ true) m
  pub once : (id : String) → copies id (policies_of m) ≤ 1

abbrev OwnKeys : MemoryStore → Type 0
OwnKeys m = All (λ e. str_is e.1.id e.0 ≡ true) m

lookup-find :
    (id : String) (m : MemoryStore)
    → OwnKeys m
    → lookup str_dec id m ≡ find_policy id (policies_of m)
unfolding lookup find_policy
lookup-find id [] h = refl
lookup-find id ((k, p) ∷ m) h = ground (arith, lookup-find id m h.1)

pub find-missing : (id : String) (ps : List Policy) → copies id ps ≡ 0 → find_policy id ps ≡ none
unfolding find_policy count_if
find-missing id [] h = refl
find-missing id (p ∷ ps) h = ground (arith, find-missing id ps)

pub missing-find : (id : String) (ps : List Policy) → find_policy id ps ≡ none → copies id ps ≡ 0
unfolding find_policy count_if
missing-find id [] h = refl
missing-find id (p ∷ ps) h = ground (arith, missing-find id ps)

pub find-named :
    (id : String) (ps : List Policy) (p : Policy) → find_policy id ps ≡ some p → named id p ≡ true
unfolding find_policy
find-named id [] p h = ground arith
find-named id (q ∷ ps) p h = ground (arith, find-named id ps p)

pub copies-cons :
    (id : String) (p : Policy) (ps : List Policy)
    → copies id (p ∷ ps) ≡ (if named id p then 1 else 0) + copies id ps
unfolding count_if
copies-cons id p ps = refl

pub find-cons :
    (id : String) (p : Policy) (ps : List Policy)
    → find_policy id (p ∷ ps) ≡ (if named id p then some p else find_policy id ps)
unfolding find_policy
find-cons id p ps = refl

insert-OwnKeys : (p : Policy) (m : MemoryStore) → OwnKeys m → OwnKeys (insert str_dec p.id p m)
unfolding insert
insert-OwnKeys p [] h = ground arith
insert-OwnKeys p ((k, q) ∷ m) h = elim (str_dec k p.id) [
  | yes e ↦ ground (arith, e)
  | no ne ↦ ground (arith, insert-OwnKeys p m h.1)
]

copies-insert :
    (id : String) (p : Policy) (m : MemoryStore)
    → OwnKeys m
    → copies id (policies_of (insert str_dec p.id p m))
      ≡ (elim (lookup str_dec p.id m) [ none ↦ if named id p then 1 else 0 | some q ↦ 0 ])
        + copies id (policies_of m)
unfolding insert lookup count_if
copies-insert id p [] h = ground arith
copies-insert id p ((k, q) ∷ m) h = ground (arith, copies-insert id p m h.1)

pub insert-IsKeyed : (p : Policy) (m : MemoryStore) → IsKeyed m → IsKeyed (insert str_dec p.id p m)
insert-IsKeyed p m v = record {
  own = insert-OwnKeys p m v.own;
  once = λ id. ground (
    arith,
    copies-insert id p m v.own,
    v.once id,
    lookup-find p.id m v.own,
    missing-find p.id (policies_of m),
  );
}

erase-OwnKeys : (id : String) (m : MemoryStore) → OwnKeys m → OwnKeys (erase str_dec id m)
unfolding erase
erase-OwnKeys id [] h = tt
erase-OwnKeys id ((k, q) ∷ m) h = ground (arith, erase-OwnKeys id m h.1)

copies-erase :
    (id j : String) (m : MemoryStore)
    → copies j (policies_of (erase str_dec id m)) ≤ copies j (policies_of m)
unfolding erase count_if
copies-erase id j [] = omega arith
copies-erase id j ((k, q) ∷ m) = ground (arith, copies-erase id j m)

pub erase-IsKeyed : (id : String) (m : MemoryStore) → IsKeyed m → IsKeyed (erase str_dec id m)
erase-IsKeyed id m v = record {
  own = erase-OwnKeys id m v.own;
  once = λ j. omega (arith, copies-erase id j m, v.once j);
}

pub find-values :
    (id : String) (m : MemoryStore)
    → IsKeyed m
    → find_policy id (policies_of m) ≡ lookup str_dec id m
find-values id m v = sym (lookup-find id m v.own)

pub by_id-IsKeyed : (m : MemoryStore) (ps : List Policy) → IsKeyed m → IsKeyed (by_id m ps)
unfolding by_id
by_id-IsKeyed m [] v = v
by_id-IsKeyed m (p ∷ ps) v = by_id-IsKeyed (insert str_dec p.id p m) ps (insert-IsKeyed p m v)

pub nil-IsKeyed : IsKeyed []
unfolding count_if
nil-IsKeyed = record { own = tt; once = λ id. omega arith }

-- Without repeated names the map finds what the list holds.
pub lookup-by_id :
    (id : String) (m : MemoryStore) (ps : List Policy)
    → ((j : String) → copies j ps ≤ 1)
    → lookup str_dec id (by_id m ps)
      ≡ (elim (find_policy id ps) [ none ↦ lookup str_dec id m | some p ↦ some p ])
unfolding by_id find_policy
lookup-by_id id m [] u = refl
lookup-by_id id m (p ∷ ps) u = ground (
  arith,
  lookup-by_id id (insert str_dec p.id p m) ps
      (λ j. let c = copies-cons j p ps in let d = u j in ground arith),
  lookup-insert str_dec p.id id p m,
  u id,
  copies-cons id p ps,
  find-missing id ps,
)

-- Sorting keeps what is found.
find-insert :
    (less : Policy → Policy → Bool) (id : String) (p : Policy) (ps : List Policy)
    → copies id (p ∷ ps) ≤ 1
    → find_policy id (insert_by less p ps) ≡ find_policy id (p ∷ ps)
unfolding insert_by find_policy
find-insert less id p [] h = refl
find-insert less id p (q ∷ ps) h = ground (
  arith,
  find-insert less id p ps,
  copies-cons id p (q ∷ ps),
  copies-cons id q ps,
  copies-cons id p ps,
  h,
)

find-sort :
    (less : Policy → Policy → Bool) (id : String) (ps : List Policy)
    → copies id ps ≤ 1
    → find_policy id (sort_by less ps) ≡ find_policy id ps
unfolding sort_by find_policy
find-sort less id [] h = refl
find-sort less id (p ∷ ps) h =
    let c = copies-cons id p ps in
    let r = find-sort less id ps (ground (arith, h, c)) in
    let e = find-insert less id p (sort_by less ps) (
      ground
        (arith, h, c, copies-cons id p (sort_by less ps), count_if-sort_by less (named id) ps)) in
    e
    ∙ find-cons id p (sort_by less ps)
    ∙ ap (λ (o : Option Policy). if named id p then some p else o) r

pub find-list : (id : String) (s : MemoryStore) → IsKeyed s → find_policy id (list s) ≡ get s id
unfolding list get
find-list id s v = find-sort before id (policies_of s) (v.once id) ∙ find-values id s v

pub copies-list : (id : String) (s : MemoryStore) → IsKeyed s → copies id (list s) ≤ 1
unfolding list
copies-list id s v = ground (arith, count_if-sort_by before (named id) (policies_of s), v.once id)

pub lookup-named :
    (id : String) (m : MemoryStore) (p : Policy)
    → IsKeyed m
    → lookup str_dec id m ≡ some p
    → named id p ≡ true
lookup-named id m p v h = find-named id (policies_of m) p (find-values id m v ∙ h)
