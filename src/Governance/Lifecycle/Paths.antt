-- ===== src/Governance/Lifecycle/Paths.antt =====
-- internal/governance/lifecycle.go: which states a policy goes through.
use symkernel.Base.{
  ◌≡◌, ◌≢◌, ◌++◌, refl, ◌⊎◌, ◌↔◌, inl, inr, List, [], ◌∷◌, ◌++◌, true, false, String, none, some,
  arith, Bool-cases, if◌then◌else◌,
}
use symkernel.Base.Int.{ℤ}
use symkernel.Governance.Version.{SchemaVersion}
use symkernel.Governance.Lifecycle.{
  LifecycleState, draft, pending_approval, approved, staged, deployed, deprecated, rolled_back,
  other, Policy, PolicyContent, TransitionRecord, unknown_state, not_permitted, TransitionResult,
  moved, refused, new_policy, transition, transition_among, valid_transitions, contains, state_is,
  can_transition, is_final_state,
}

-- A call of `Transition` at a reading of the clock.
pub record Attempt : Type 0 where
  pub target : LifecycleState
  pub by : String
  pub why : String
  pub at : ℤ

abbrev records_of : TransitionResult → List TransitionRecord → List TransitionRecord
records_of (moved rec) trail = rec ∷ trail
records_of (refused e) trail = trail

unfoldable pub attempt : Policy → Attempt → Policy × TransitionResult
unfolding transition
attempt p c = transition p c.target c.by c.why c.at

-- The policy and the records that the calls returned, the latest first.
unfoldable pub run : Policy × List TransitionRecord → List Attempt → Policy × List TransitionRecord
run s [] = s
run (p, trail) (c ∷ cs) = let r = attempt p c in run (r.0, records_of r.1 trail) cs

-- The states that a policy has gone through since it was a draft, the latest first.
unfoldable pub stages : LifecycleState → List LifecycleState
stages draft = []
stages pending_approval = pending_approval ∷ []
stages approved = approved ∷ pending_approval ∷ []
stages staged = staged ∷ approved ∷ pending_approval ∷ []
stages deployed = deployed ∷ staged ∷ approved ∷ pending_approval ∷ []
stages deprecated = deprecated ∷ deployed ∷ staged ∷ approved ∷ pending_approval ∷ []
stages rolled_back = rolled_back ∷ deployed ∷ staged ∷ approved ∷ pending_approval ∷ []
stages (other s) = other s ∷ []

unfoldable pub targets : List TransitionRecord → List LifecycleState
targets [] = []
targets (t ∷ ts) = t.to ∷ targets ts

-- An allowed move is one of the eight that the code lists.
allowed_moves :
    (s t : LifecycleState) → can_transition s t ≡ true → ((t ≡ draft) ⊎ (stages t ≡ t ∷ stages s))
unfolding can_transition valid_transitions contains state_is stages
allowed_moves s t h = ground arith

-- The records' states are a policy's stages, then older ones; it is in a state with a name.
abbrev InOrder : Policy → List TransitionRecord → Type 0
InOrder p trail =
    ((s : String) → p.state ≢ other s)
    × ((older : List LifecycleState) × (targets trail ≡ stages p.state ++ older))

-- `Transition` succeeds exactly if `CanTransition` says so, and then sets the state and the instant
-- and returns the record of the move; otherwise it changes nothing and names the two states, or
-- the current one if that has no entry.
pub transition_checked :
    (p : Policy) (to : LifecycleState) (actor reason : String) (now : ℤ)
    → transition p to actor reason now ≡ (
        if can_transition p.state to
        then (
          record p { state = to; updated_at = now },
          moved (record {
            policy_id = p.id;
            version = p.version;
            from = p.state;
            to = to;
            actor = actor;
            reason = reason;
            timestamp = now;
          }),
        )
        else (
          p,
          refused (elim (valid_transitions p.state) [
            | none ↦ unknown_state p.state
            | some allowed ↦ not_permitted p.state to
          ]),
        ))
unfolding transition transition_among can_transition
transition_checked p to actor reason now = ground arith

never_other : (s : LifecycleState) (u : String) → can_transition s (other u) ≡ false
unfolding can_transition valid_transitions contains state_is
never_other s u = ground arith

target_named : (s t : LifecycleState) (u : String) → can_transition s t ≡ true → t ≢ other u
target_named s t u h e = ground (arith, never_other s u)

drop_nil :
    (t : LifecycleState) (trail : List LifecycleState) → t ∷ trail ≡ stages draft ++ t ∷ trail
unfolding stages
drop_nil t trail = refl

-- A move from a state that the records lead to lengthens them in order.
next_stages :
    (s t : LifecycleState) (trail older : List LifecycleState)
    → can_transition s t ≡ true
    → trail ≡ stages s ++ older
    → (rest : List LifecycleState) × (t ∷ trail ≡ stages t ++ rest)
next_stages s t trail older h e = elim (allowed_moves s t h) [
  | inl d ↦ (t ∷ trail, rw d (drop_nil draft trail))
  | inr k ↦ (older, rw (k, e) refl)
]

attempt-InOrder :
    (p : Policy) (trail : List TransitionRecord) (c : Attempt)
    → InOrder p trail
    → InOrder (attempt p c).0 (records_of (attempt p c).1 trail)
unfolding attempt targets
attempt-InOrder p trail c (named, (older, e)) =
    elim (Bool-cases (can_transition p.state c.target)) [
      | inl h ↦
          rw (transition_checked p c.target c.by c.why c.at, h)
            (
              (λ u. target_named p.state c.target u h),
              next_stages p.state c.target (targets trail) older h e,
            )
      | inr h ↦ rw (transition_checked p c.target c.by c.why c.at, h) (named, (older, e))
    ]

run-InOrder :
    (p : Policy) (trail : List TransitionRecord) (cs : List Attempt)
    → InOrder p trail
    → InOrder (run (p, trail) cs).0 (run (p, trail) cs).1
unfolding run
run-InOrder p trail [] h = h
run-InOrder p trail (c ∷ cs) h =
    run-InOrder (attempt p c).0 (records_of (attempt p c).1 trail) cs (attempt-InOrder p trail c h)

-- Whatever transitions a new policy is asked for, permitted or not, it is in a state that a
-- constant names, and the records that they returned, the latest first, begin with exactly the
-- stages that lead from a draft to that state: a deployed policy was submitted, approved, staged and deployed
-- since it was last a draft, in this order and with nothing between.
pub stages_in_order :
    (id : String) (v : SchemaVersion) (content : PolicyContent) (schema_id : String) (now : ℤ)
    (cs : List Attempt)
    → let r = run (new_policy id v content schema_id now, []) cs in
      ((u : String) → r.0.state ≢ other u)
      × ((older : List LifecycleState) × (targets r.1 ≡ stages r.0.state ++ older))
unfolding new_policy targets stages
stages_in_order id v content schema_id now cs =
    run-InOrder (new_policy id v content schema_id now) [] cs ((λ u e. ground arith), ([], refl))

stuck : (s to : LifecycleState) → is_final_state s ≡ true → can_transition s to ≡ false
unfolding is_final_state can_transition valid_transitions contains
stuck s to h = ground arith

final_of_stuck :
    (s : LifecycleState)
    → ((to : LifecycleState) → can_transition s to ≡ false)
    → is_final_state s ≡ true
unfolding is_final_state can_transition valid_transitions contains state_is
final_of_stuck draft h = let e = h pending_approval in ground arith
final_of_stuck pending_approval h = let e = h draft in ground arith
final_of_stuck approved h = let e = h staged in ground arith
final_of_stuck staged h = let e = h deployed in ground arith
final_of_stuck deployed h = let e = h deprecated in ground arith
final_of_stuck deprecated h = refl
final_of_stuck rolled_back h = let e = h draft in ground arith
final_of_stuck (other u) h = refl

run_stuck :
    (p : Policy) (trail : List TransitionRecord) (cs : List Attempt)
    → is_final_state p.state ≡ true
    → run (p, trail) cs ≡ (p, trail)
unfolding run attempt
run_stuck p trail [] h = refl
run_stuck p trail (c ∷ cs) h =
    rw (transition_checked p c.target c.by c.why c.at, stuck p.state c.target h)
      (run_stuck p trail cs h)

-- A state is final exactly if no target can be reached from it, and then no calls change a policy
-- that is in it, nor return a record.
pub final_stays :
    (p : Policy) (trail : List TransitionRecord) (cs : List Attempt)
    → ((is_final_state p.state ≡ true)
        ↔ ((to : LifecycleState) → can_transition p.state to ≡ false))
      × (is_final_state p.state ≡ true → run (p, trail) cs ≡ (p, trail))
final_stays p trail cs =
    (((λ h to. stuck p.state to h), final_of_stuck p.state), run_stuck p trail cs)
