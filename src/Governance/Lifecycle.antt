-- ===== src/Governance/Lifecycle.antt =====
-- internal/governance/lifecycle.go: the lifecycle of a policy and the store of policies.
pub mod Paths
pub mod Store
use symkernel.Base.{
  ◌≡◌, refl, ◌⊎◌, inl, inr, List, [], ◌∷◌, ◌++◌, Bool, true, false, String, Option, none, some,
  if◌then◌else◌, str_dec, str_is, keep_if, Option-cases, Bool-cases, arith, length,
}
use symkernel.Base.Int.{ℤ}
use symkernel.Base.Dict.{lookup, insert}
use symkernel.Governance.Version.{SchemaVersion, version_text, version_gt}
use Prim.Native.String.{◌++◌ as str_append}

-- A `LifecycleState` is a string; `other` is any that no constant names.
pub data LifecycleState : Type 0 where
  draft pending_approval approved staged deployed deprecated rolled_back : LifecycleState
  other : String → LifecycleState

-- Go's `==` on states.
unfoldable pub state_is : LifecycleState → LifecycleState → Bool
state_is draft draft = true
state_is pending_approval pending_approval = true
state_is approved approved = true
state_is staged staged = true
state_is deployed deployed = true
state_is deprecated deprecated = true
state_is rolled_back rolled_back = true
state_is (other s) (other t) = str_is s t
state_is s t = false

-- The map `ValidTransitions`: a state that is no key has no entry.
unfoldable pub valid_transitions : LifecycleState → Option (List LifecycleState)
valid_transitions draft = some (pending_approval ∷ [])
valid_transitions pending_approval = some (draft ∷ approved ∷ [])
valid_transitions approved = some (staged ∷ [])
valid_transitions staged = some (deployed ∷ draft ∷ [])
valid_transitions deployed = some (deprecated ∷ rolled_back ∷ [])
valid_transitions deprecated = some []
valid_transitions rolled_back = some (draft ∷ [])
valid_transitions (other s) = none

pub record PolicyContent : Type 0 where
  pub raw : List String
  pub content_type : String
  pub sha256 : String

-- `labels` and `content` are stored and never read by the code. Instants are nanoseconds.
pub record Policy : Type 0 where
  pub id : String
  pub version : SchemaVersion
  pub state : LifecycleState
  pub content : PolicyContent
  pub schema_id : String
  pub labels : List (String × String)
  pub created_at : ℤ
  pub updated_at : ℤ

pub record TransitionRecord : Type 0 where
  pub policy_id : String
  pub version : SchemaVersion
  pub from : LifecycleState
  pub to : LifecycleState
  pub actor : String
  pub reason : String
  pub timestamp : ℤ

-- `ErrInvalidTransition`, wrapped in one of the two messages.
pub data TransitionError : Type 0 where
  unknown_state : LifecycleState → TransitionError
  not_permitted : LifecycleState → LifecycleState → TransitionError

pub data TransitionResult : Type 0 where
  moved : TransitionRecord → TransitionResult
  refused : TransitionError → TransitionResult

unfoldable pub new_policy : String → SchemaVersion → PolicyContent → String → ℤ → Policy
new_policy id v content schema_id now = record {
  id = id;
  version = v;
  state = draft;
  content = content;
  schema_id = schema_id;
  labels = [];
  created_at = now;
  updated_at = now;
}

unfoldable pub contains : List LifecycleState → LifecycleState → Bool
contains [] to = false
contains (s ∷ ss) to = if state_is s to then true else contains ss to

abbrev record_of : Policy → LifecycleState → String → String → ℤ → TransitionRecord
record_of p to actor reason now = record {
  policy_id = p.id;
  version = p.version;
  from = p.state;
  to = to;
  actor = actor;
  reason = reason;
  timestamp = now;
}

-- `Transition` once the current state has been looked up.
unfoldable pub transition_among :
    Option (List LifecycleState)
    → Policy
    → LifecycleState
    → String
    → String
    → ℤ
    → Policy × TransitionResult
transition_among none p to actor reason now = (p, refused (unknown_state p.state))
transition_among (some allowed) p to actor reason now =
    if contains allowed to
    then (record p { state = to; updated_at = now }, moved (record_of p to actor reason now))
    else (p, refused (not_permitted p.state to))

unfoldable pub transition :
    Policy → LifecycleState → String → String → ℤ → Policy × TransitionResult
unfolding transition_among
transition p to actor reason now =
    transition_among (valid_transitions p.state) p to actor reason now

abbrev allows : Option (List LifecycleState) → LifecycleState → Bool
allows none to = false
allows (some allowed) to = contains allowed to

unfoldable pub can_transition : LifecycleState → LifecycleState → Bool
can_transition from to = allows (valid_transitions from) to

abbrev is_empty : Option (List LifecycleState) → Bool
is_empty none = true
is_empty (some []) = true
is_empty (some (x ∷ xs)) = false

-- A missing entry of the map reads as an empty slice.
unfoldable pub is_final_state : LifecycleState → Bool
is_final_state s = is_empty (valid_transitions s)

unfoldable pub is_terminal : Policy → Bool
unfolding is_final_state
is_terminal p = is_final_state p.state
