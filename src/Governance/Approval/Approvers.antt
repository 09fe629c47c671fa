-- ===== src/Governance/Approval/Approvers.antt =====
-- internal/governance/approval.go: the set of approvers that a workflow is made with.
use symkernel.Base.{
  ◌≡◌, refl, List, [], ◌∷◌, ◌++◌, true, false, String, if◌then◌else◌, str_is, ltb, length,
  length-append, arith, Bool-cases, inl, inr,
}
use symkernel.Base.Int.{ℤ}
use symkernel.Governance.Approval.{has, add_approvers, new_workflow, may_vote}

has-nil : (a : String) → has [] a ≡ false
unfolding has
has-nil a = refl

has-cons :
    (bs : List String) (a b : String) → has (b ∷ bs) a ≡ (if str_is b a then true else has bs a)
unfolding has
has-cons bs a b = refl

has_nonempty : (set : List String) (b : String) → has set b ≡ true → ltb 0 (length set) ≡ true
unfolding has
has_nonempty [] b h = ground arith
has_nonempty (c ∷ set) b h = ground arith

is_nonempty-add :
    (set more : List String)
    → ltb 0 (length (add_approvers set more))
      ≡ (if ltb 0 (length set) then true else ltb 0 (length more))
unfolding add_approvers
is_nonempty-add set [] = ground arith
is_nonempty-add set (b ∷ bs) = elim (Bool-cases (has set b)) [
  | inl h ↦ rw h (ground (arith, is_nonempty-add set bs, has_nonempty set b))
  | inr h ↦ rw h (ground (arith, is_nonempty-add (set ++ b ∷ []) bs, length-append set (b ∷ [])))
]

has-append :
    (set more : List String) (a : String)
    → has (set ++ more) a ≡ (if has set a then true else has more a)
unfolding has
has-append [] more a = refl
has-append (b ∷ bs) more a = ground (arith, has-append bs more a)

has-one : (a b : String) → has (b ∷ []) a ≡ str_is b a
unfolding has
has-one a b = ground arith

has-add :
    (set more : List String) (a : String)
    → has (add_approvers set more) a ≡ (if has set a then true else has more a)
unfolding add_approvers
has-add set [] a = ground (arith, has-nil a)
has-add set (b ∷ bs) a = elim (Bool-cases (has set b)) [
  | inl h ↦ rw h (ground (arith, has-add set bs a, has-cons bs a b))
  | inr h ↦ rw h (
      ground (
        arith,
        has-add (set ++ b ∷ []) bs a,
        has-append set (b ∷ []) a,
        has-one a b,
        has-cons bs a b,
      ))
]

pub may_vote-new :
    (required : ℤ) (approvers : List String) (a : String)
    → may_vote (new_workflow required approvers).approvers a ≡ may_vote approvers a
unfolding may_vote new_workflow
may_vote-new required approvers a =
    ground (arith, has-add [] approvers a, is_nonempty-add [] approvers, has-nil a)
