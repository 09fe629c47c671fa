-- ===== src/Governance/Approval.antt =====
-- internal/governance/approval.go: the quorum of a promotion and the votes cast for it.
pub mod Approvers
pub mod Votes
use symkernel.Base.{
  ℕ, suc, ◌+◌, ◌≤◌, ◌≡◌, ◌≢◌, ◌↔◌, ◌⊎◌, inl, inr, refl, List, [], ◌∷◌, ◌++◌, Bool, true, false, not,
  String, Option, none, some, if◌then◌else◌, str_dec, str_is, leb, ltb, length, count_if,
  count_if-append, length-append, All, All-append, Elem, arith, Bool-cases, map,
}
use symkernel.Base.Int.{ℤ, pos, negsuc, leb_ℤ}

pub data ApprovalStatus : Type 0 where
  pending granted rejected : ApprovalStatus

pub record ApprovalRecord : Type 0 where
  pub approver : String
  pub status : ApprovalStatus
  pub comment : String
  pub timestamp : ℤ

-- `approvers` is the key set of the Go map, whose values are all `true`.
pub record ApprovalWorkflow : Type 0 where
  pub required : ℤ
  pub approvers : List String
  pub records : List ApprovalRecord

pub data VoteResult : Type 0 where
  recorded not_authorized already_voted : VoteResult

unfoldable pub has : List String → String → Bool
has [] a = false
has (b ∷ bs) a = if str_is b a then true else has bs a

-- `aw.Approvers[a] = true` for each of the list.
unfoldable pub add_approvers : List String → List String → List String
add_approvers set [] = set
add_approvers set (a ∷ more) = add_approvers (if has set a then set else set ++ a ∷ []) more

unfoldable pub new_workflow : ℤ → List String → ApprovalWorkflow
new_workflow required approvers = record {
  required = required;
  approvers = add_approvers [] approvers;
  records = [];
}

unfoldable pub has_voted : List ApprovalRecord → String → Bool
has_voted [] a = false
has_voted (r ∷ rs) a = if str_is r.approver a then true else has_voted rs a

-- `len(w.Approvers) > 0 && !w.Approvers[actor]`, negated.
unfoldable pub may_vote : List String → String → Bool
may_vote approvers a = if ltb 0 (length approvers) then has approvers a else true

unfoldable pub vote :
    ApprovalWorkflow → String → ApprovalStatus → String → ℤ → ApprovalWorkflow × VoteResult
vote w actor status comment now =
    if not (may_vote w.approvers actor)
    then (w, not_authorized)
    else if has_voted w.records actor
    then (w, already_voted)
    else (
      record w {
        records =
            w.records
            ++ record { approver = actor; status = status; comment = comment; timestamp = now }
              ∷ [];
      },
      recorded,
    )

unfoldable pub grant : ApprovalWorkflow → String → String → ℤ → ApprovalWorkflow × VoteResult
grant w actor comment now = vote w actor granted comment now

unfoldable pub reject : ApprovalWorkflow → String → String → ℤ → ApprovalWorkflow × VoteResult
reject w actor comment now = vote w actor rejected comment now

abbrev pub is_granted : ApprovalRecord → Bool
is_granted r = elim r.status [ granted ↦ true | _ ↦ false ]

abbrev pub is_rejection : ApprovalRecord → Bool
is_rejection r = elim r.status [ rejected ↦ true | _ ↦ false ]

unfoldable pub grants : ApprovalWorkflow → ℕ
grants w = count_if is_granted w.records

unfoldable pub rejections : ApprovalWorkflow → ℕ
rejections w = count_if is_rejection w.records

unfoldable pub is_quorum_met : ApprovalWorkflow → Bool
is_quorum_met w = leb_ℤ w.required (pos (grants w))

unfoldable pub is_rejected : ApprovalWorkflow → Bool
is_rejected w = ltb 0 (rejections w)

unfoldable pub quorum : ApprovalWorkflow → ℕ × ℤ
quorum w = (grants w, w.required)
