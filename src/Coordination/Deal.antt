-- ===== src/Coordination/Deal.antt =====
-- The order in which a leader of internal/distributed/coordination assigns work.
use native.Mathlib.Nat.{mod-add-mod, mod-lt}
use symkernel.Base.{
  ℕ, zero, suc, ◌+◌, ◌%◌, ◌<◌, ◌≡◌, refl, ◌∙◌, ap, subst, List, [], ◌∷◌, String, some, arith,
  get_elem?, length,
}
use symkernel.Coordination.Node.{Node, leader}
use symkernel.Coordination.Work.{to_member, assign}

-- The node after a number of assignments.
unfoldable pub deal : ℕ → Node → Node
deal zero n = n
deal (suc t) n = (assign (deal t n)).0

get_elem?_total :
    {A : Type 0} (xs : List A) (i : ℕ) → i < length xs → (a : A) × (get_elem? xs i ≡ some a)
get_elem?_total [] i h = absurd (omega arith)
get_elem?_total (x ∷ xs) zero h = (x, refl)
get_elem?_total (x ∷ xs) (suc i) h = get_elem?_total xs i (omega arith)

-- One assignment by a leader: the next index, and the member there.
record Dealt (n : Node) : Type 0 where
  target : String
  found : get_elem? n.members ((n.rr_index + 1) % length n.members) ≡ some target
  answer : (assign n).1 ≡ to_member target
  index : (assign n).0.rr_index ≡ (n.rr_index + 1) % length n.members
  leads : (assign n).0.role ≡ leader
  members : (assign n).0.members ≡ n.members

dealt : (n : Node) → n.role ≡ leader → 0 < length n.members → Dealt n
unfolding assign
dealt n e h =
    let (target, found) =
      get_elem?_total n.members ((n.rr_index + 1) % length n.members) (mod-lt _ h) in
    record {
      target = target;
      found = found;
      answer = ground arith;
      index = ground arith;
      leads = ground arith;
      members = ground arith;
    }

record Dealing (t : ℕ) (n : Node) : Type 0 where
  leads : (deal t n).role ≡ leader
  members : (deal t n).members ≡ n.members
  index : (deal t n).rr_index ≡ (n.rr_index + t) % length n.members

dealing : (t : ℕ) (n : Node) → n.role ≡ leader → n.rr_index < length n.members → Dealing t n
unfolding deal
dealing zero n e h = record { leads = e; members = refl; index = grind arith }
dealing (suc t) n e h =
    let d = dealing t n e h in
    let one = dealt (deal t n) d.leads (rw d.members (omega arith)) in
    record {
      leads = one.leads;
      members = one.members ∙ d.members;
      index =
          one.index
          ∙ ap (λ (k : ℕ). ((deal t n).rr_index + 1) % k) (ap length d.members)
          ∙ ap (λ (k : ℕ). (k + 1) % length n.members) d.index
          ∙ mod-add-mod (n.rr_index + t) (length n.members) 1
          ∙ ap (λ (k : ℕ). k % length n.members) (omega arith);
    }

-- A leader whose index is within the members answers its call of `Assign` number t, counted
-- from 0, with the member t + 1 places after the index, cyclically: the members take turns, and
-- no call is out of range or refused.
pub assign_takes_turns :
    (t : ℕ) (n : Node)
    → n.role ≡ leader
    → n.rr_index < length n.members
    → (target : String) × (get_elem? n.members ((n.rr_index + t + 1) % length n.members)
        ≡ some target)
      × ((assign (deal t n)).1 ≡ to_member target)
assign_takes_turns t n e h =
    let d = dealing t n e h in
    let one = dealt (deal t n) d.leads (rw d.members (omega arith)) in
    (
      one.target,
      subst (λ i. get_elem? n.members i ≡ some one.target)
          (ap (λ (k : ℕ). (k + 1) % length n.members) d.index
            ∙ mod-add-mod (n.rr_index + t) (length n.members) 1)
          (subst (λ ms. get_elem? ms (((deal t n).rr_index + 1) % length ms) ≡ some one.target)
            d.members one.found),
      one.answer,
    )
