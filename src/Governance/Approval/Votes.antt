-- ===== src/Governance/Approval/Votes.antt =====
-- internal/governance/approval.go: whose votes a workflow counts.
use symkernel.Base.{
  ℕ, ◌+◌, ◌≤◌, ◌≡◌, ◌↔◌, refl, List, [], ◌∷◌, ◌++◌, Bool, true, false, String, Option, none, some,
  if◌then◌else◌, str_is, length, count_if, count_if-append, length-append, arith, ◌∙◌, inl, inr,
  ◌⊎◌, subst,
}
use symkernel.Base.Int.{ℤ, pos, ◌≤ℤ◌}
use symkernel.Governance.Approval.Approvers.{may_vote-new}
use symkernel.Governance.Approval.{
  ApprovalStatus, granted, rejected, ApprovalRecord, ApprovalWorkflow, new_workflow, has_voted,
  may_vote, vote, grant, reject, is_granted, is_rejection, grants, rejections, is_quorum_met,
}

-- One call of `Grant` or of `Reject`.
pub data Ballot : Type 0 where
  in_favour : String → String → ℤ → Ballot
  against : String → String → ℤ → Ballot

unfoldable pub cast : ApprovalWorkflow → Ballot → ApprovalWorkflow
unfolding grant reject
cast w (in_favour actor comment now) = (grant w actor comment now).0
cast w (against actor comment now) = (reject w actor comment now).0

unfoldable pub cast_all : ApprovalWorkflow → List Ballot → ApprovalWorkflow
cast_all w [] = w
cast_all w (b ∷ bs) = cast_all (cast w b) bs

abbrev pub voter : Ballot → String
voter (in_favour actor comment now) = actor
voter (against actor comment now) = actor

abbrev pub choice : Ballot → ApprovalStatus
choice (in_favour actor comment now) = granted
choice (against actor comment now) = rejected

-- What an actor asked for first.
unfoldable pub first_choice : String → List Ballot → Option ApprovalStatus
first_choice a [] = none
first_choice a (b ∷ bs) =
    let later = first_choice a bs in if str_is (voter b) a then some (choice b) else later

-- What the records hold for an actor.
unfoldable pub recorded_choice : String → List ApprovalRecord → Option ApprovalStatus
recorded_choice a [] = none
recorded_choice a (r ∷ rs) =
    let later = recorded_choice a rs in if str_is r.approver a then some r.status else later

abbrev or_else : Option ApprovalStatus → Option ApprovalStatus → Option ApprovalStatus
or_else none o = o
or_else (some s) o = some s

recorded_choice-append :
    (a : String) (rs ss : List ApprovalRecord)
    → recorded_choice a (rs ++ ss) ≡ or_else (recorded_choice a rs) (recorded_choice a ss)
unfolding recorded_choice
recorded_choice-append a [] ss = refl
recorded_choice-append a (r ∷ rs) ss = ground (arith, recorded_choice-append a rs ss)

recorded_choice-one :
    (a : String) (r : ApprovalRecord)
    → recorded_choice a (r ∷ []) ≡ (if str_is r.approver a then some r.status else none)
unfolding recorded_choice
recorded_choice-one a r = ground arith

has_voted-recorded :
    (a : String) (rs : List ApprovalRecord)
    → (has_voted rs a ≡ false) ↔ (recorded_choice a rs ≡ none)
unfolding has_voted recorded_choice
has_voted-recorded a [] = ground arith
has_voted-recorded a (r ∷ rs) = ground (arith, has_voted-recorded a rs)

vote_choice :
    (a : String) (w : ApprovalWorkflow) (actor : String) (s : ApprovalStatus) (comment : String)
    (now : ℤ)
    → recorded_choice a (vote w actor s comment now).0.records
      ≡ or_else
          (recorded_choice a w.records)
          (if may_vote w.approvers a then if str_is actor a then some s else none else none)
unfolding vote
vote_choice a w actor s comment now = ground (
  arith,
  has_voted-recorded a w.records,
  recorded_choice-append a w.records
      (record { approver = actor; status = s; comment = comment; timestamp = now } ∷ []),
  recorded_choice-one a
      (record { approver = actor; status = s; comment = comment; timestamp = now }),
)

-- One ballot adds its choice for a voter that may vote and has not voted yet.
recorded_choice-cast :
    (a : String) (w : ApprovalWorkflow) (b : Ballot)
    → recorded_choice a (cast w b).records
      ≡ or_else (recorded_choice a w.records) (
          if may_vote w.approvers a
          then if str_is (voter b) a then some (choice b) else none
          else none)
unfolding cast grant reject
recorded_choice-cast a w (in_favour actor comment now) = vote_choice a w actor granted comment now
recorded_choice-cast a w (against actor comment now) = vote_choice a w actor rejected comment now

vote_keeps :
    (w : ApprovalWorkflow) (actor : String) (s : ApprovalStatus) (comment : String) (now : ℤ)
    → ((vote w actor s comment now).0.approvers ≡ w.approvers)
      × ((vote w actor s comment now).0.required ≡ w.required)
unfolding vote
vote_keeps w actor s comment now = ground arith

cast_keeps :
    (w : ApprovalWorkflow) (b : Ballot)
    → ((cast w b).approvers ≡ w.approvers) × ((cast w b).required ≡ w.required)
unfolding cast grant reject
cast_keeps w (in_favour actor comment now) = vote_keeps w actor granted comment now
cast_keeps w (against actor comment now) = vote_keeps w actor rejected comment now

cast_all_keeps :
    (w : ApprovalWorkflow) (bs : List Ballot)
    → ((cast_all w bs).approvers ≡ w.approvers) × ((cast_all w bs).required ≡ w.required)
unfolding cast_all
cast_all_keeps w [] = (refl, refl)
cast_all_keeps w (b ∷ bs) =
    let h = cast_keeps w b in let k = cast_all_keeps (cast w b) bs in (k.0 ∙ h.0, k.1 ∙ h.1)

recorded_choice-cast_all :
    (a : String) (w : ApprovalWorkflow) (bs : List Ballot)
    → recorded_choice a (cast_all w bs).records
      ≡ or_else
          (recorded_choice a w.records)
          (if may_vote w.approvers a then first_choice a bs else none)
unfolding cast_all first_choice
recorded_choice-cast_all a w [] = ground arith
recorded_choice-cast_all a w (b ∷ bs) =
    let h = recorded_choice-cast_all a (cast w b) bs in
    let k = recorded_choice-cast a w b in let e = (cast_keeps w b).0 in ground arith

-- How many records an actor has.
abbrev pub votes_of : String → List ApprovalRecord → ℕ
votes_of a = count_if (λ r. str_is r.approver a)

not_voted : (a : String) (rs : List ApprovalRecord) → has_voted rs a ≡ false → votes_of a rs ≡ 0
unfolding has_voted count_if
not_voted a [] h = refl
not_voted a (r ∷ rs) h = ground (arith, not_voted a rs)

-- No actor has two records, and each grants or rejects.
abbrev Fair : List ApprovalRecord → Type 0
Fair rs =
    ((a : String) → votes_of a rs ≤ 1)
    × (count_if is_granted rs + count_if is_rejection rs ≡ length rs)

count_if-one :
    (p : ApprovalRecord → Bool) (r : ApprovalRecord) → count_if p (r ∷ []) ≡ (if p r then 1 else 0)
unfolding count_if
count_if-one p r = omega arith

vote-Fair :
    (w : ApprovalWorkflow) (actor : String) (s : ApprovalStatus) (comment : String) (now : ℤ)
    → (s ≡ granted) ⊎ (s ≡ rejected)
    → Fair w.records
    → Fair (vote w actor s comment now).0.records
unfolding vote
vote-Fair w actor s comment now c (few, all) =
    let r : ApprovalRecord = record {
      approver = actor;
      status = s;
      comment = comment;
      timestamp = now;
    } in
    (
      (λ a. ground (
        arith,
        few a,
        not_voted a w.records,
        count_if-append (λ q. str_is q.approver a) w.records (r ∷ []),
        count_if-one (λ q. str_is q.approver a) r,
      )),
      ground (
        arith,
        length-append w.records (r ∷ []),
        count_if-append is_granted w.records (r ∷ []),
        count_if-append is_rejection w.records (r ∷ []),
        count_if-one is_granted r,
        count_if-one is_rejection r,
      ),
    )

cast-Fair : (w : ApprovalWorkflow) (b : Ballot) → Fair w.records → Fair (cast w b).records
unfolding cast grant reject
cast-Fair w (in_favour actor comment now) h = vote-Fair w actor granted comment now (inl refl) h
cast-Fair w (against actor comment now) h = vote-Fair w actor rejected comment now (inr refl) h

cast_all-Fair :
    (w : ApprovalWorkflow) (bs : List Ballot) → Fair w.records → Fair (cast_all w bs).records
unfolding cast_all
cast_all-Fair w [] h = h
cast_all-Fair w (b ∷ bs) h = cast_all-Fair (cast w b) bs (cast-Fair w b h)

new-Fair : (required : ℤ) (approvers : List String) → Fair (new_workflow required approvers).records
unfolding new_workflow count_if
new-Fair required approvers = ((λ a. omega arith), refl)

new_none :
    (a : String) (required : ℤ) (approvers : List String) (bs : List Ballot)
    → or_else
        (recorded_choice a (new_workflow required approvers).records)
        (if may_vote approvers a then first_choice a bs else none)
      ≡ (if may_vote approvers a then first_choice a bs else none)
unfolding new_workflow recorded_choice
new_none a required approvers bs = refl

new_choice :
    (a : String) (required : ℤ) (approvers : List String) (bs : List Ballot)
    → or_else
        (recorded_choice a (new_workflow required approvers).records)
        (if may_vote (new_workflow required approvers).approvers a then first_choice a bs else none)
      ≡ (if may_vote approvers a then first_choice a bs else none)
new_choice a required approvers bs =
    rw (may_vote-new required approvers a) (new_none a required approvers bs)

new_required :
    (required : ℤ) (approvers : List String) → (new_workflow required approvers).required ≡ required
unfolding new_workflow
new_required required approvers = refl

quorum_iff :
    (w : ApprovalWorkflow) (n : ℕ) → grants w ≡ n → (is_quorum_met w ≡ true) ↔ (w.required ≤ℤ pos n)
unfolding is_quorum_met
quorum_iff w n e = ground (arith, e)

-- Whatever ballots are cast on a new workflow, it holds for each actor that may vote (all of them
-- where no approvers are named, else those named) the choice that the actor made first, and
-- for others none; nobody has two records; every record is a grant or a rejection; and the
-- quorum is met exactly if the grants are at least as many as required at the start.
pub votes_counted :
    (required : ℤ) (approvers : List String) (bs : List Ballot) (a : String)
    → let w = cast_all (new_workflow required approvers) bs in
      (recorded_choice a w.records ≡ (if may_vote approvers a then first_choice a bs else none))
      × (votes_of a w.records ≤ 1)
      × (grants w + rejections w ≡ length w.records)
      × ((is_quorum_met w ≡ true) ↔ (required ≤ℤ pos (grants w)))
unfolding grants rejections
votes_counted required approvers bs a =
    let start = new_workflow required approvers in
    let fair = cast_all-Fair start bs (new-Fair required approvers) in
    (
      recorded_choice-cast_all a start bs ∙ new_choice a required approvers bs,
      fair.0 a,
      fair.1,
      subst
          (λ x.
            (is_quorum_met (cast_all start bs) ≡ true) ↔ (x ≤ℤ pos (grants (cast_all start bs))))
          ((cast_all_keeps start bs).1 ∙ new_required required approvers)
          (quorum_iff (cast_all start bs) (grants (cast_all start bs)) refl),
    )
