-- ===== src/Governance/Rollback.antt =====
-- internal/governance/rollback.go: the deployments of each policy and the return to the one before.
-- A call takes the reading of the clock; the mutex makes each call one step.
pub mod Flips
use symkernel.Base.{
  ℕ, suc, ◌+◌, ◌-◌, ◌≤◌, ◌≡◌, refl, List, [], ◌∷◌, ◌++◌, Bool, true, false, String, Option, none,
  some, if◌then◌else◌, str_dec, ltb, leb, length, get_elem?, length-append, arith, Bool-cases,
}
use symkernel.Base.Int.{ℤ}
use symkernel.Base.Dict.{lookup, insert, lookup-insert}
use symkernel.Governance.Version.{SchemaVersion}
use symkernel.Governance.Staging.{Environment}
use symkernel.Governance.Lifecycle.{
  Policy, LifecycleState, rolled_back, transition, TransitionResult, TransitionError, moved,
  refused,
}

pub record RollbackRecord : Type 0 where
  pub policy_id : String
  pub from_version : SchemaVersion
  pub to_version : SchemaVersion
  pub actor : String
  pub reason : String
  pub timestamp : ℤ

pub data Action : Type 0 where
  deploy rollback : Action

pub record DeploymentRecord : Type 0 where
  pub policy_id : String
  pub version : SchemaVersion
  pub actor : String
  pub action : Action
  pub env : Environment
  pub timestamp : ℤ

abbrev pub History : Type 0
History = List (String × List DeploymentRecord)

abbrev or_empty : Option (List DeploymentRecord) → List DeploymentRecord
or_empty none = []
or_empty (some rs) = rs

-- `m.history[policyID]`, which is also what `History` returns a copy of.
unfoldable pub history_of : History → String → List DeploymentRecord
history_of m id = or_empty (lookup str_dec id m)

unfoldable pub append_record : History → String → DeploymentRecord → History
append_record m id r = insert str_dec id (history_of m id ++ r ∷ []) m

unfoldable pub record_deploy : History → String → SchemaVersion → String → Environment → ℤ → History
record_deploy m id v actor env now = append_record m id (record {
  policy_id = id;
  version = v;
  actor = actor;
  action = deploy;
  env = env;
  timestamp = now;
})

unfoldable pub record_rollback :
    History
    → String
    → SchemaVersion
    → SchemaVersion
    → String
    → String
    → Environment
    → ℤ
    → History × RollbackRecord
record_rollback m id from to actor reason env now = (
  append_record m id (record {
    policy_id = id;
    version = to;
    actor = actor;
    action = rollback;
    env = env;
    timestamp = now;
  }),
  record {
    policy_id = id;
    from_version = from;
    to_version = to;
    actor = actor;
    reason = reason;
    timestamp = now;
  },
)

abbrev version_of : Option DeploymentRecord → Option SchemaVersion
version_of none = none
version_of (some r) = some r.version

unfoldable pub previous_version : History → String → Option SchemaVersion
previous_version m id =
    let hist = history_of m id in
    if ltb (length hist) 2 then none else version_of (get_elem? hist (length hist - 2))

unfoldable pub can_rollback : History → String → Bool
can_rollback m id = leb 2 (length (history_of m id))

pub data RollbackResult : Type 0 where
  rolled : RollbackRecord → RollbackResult
  no_previous : RollbackResult
  transition_failed : TransitionError → RollbackResult

-- `Rollback` once the policy's transition has answered: `from` is its version before.
unfoldable pub roll_after :
    TransitionResult
    → History
    → Policy
    → SchemaVersion
    → SchemaVersion
    → String
    → String
    → Environment
    → ℤ
    → (History × Policy) × RollbackResult
roll_after (refused e) m p from prev actor reason env now = ((m, p), transition_failed e)
roll_after (moved rec) m p from prev actor reason env now =
    let r = record_rollback m p.id from prev actor reason env now in ((r.0, p), rolled r.1)

unfoldable pub roll_to :
    Option SchemaVersion
    → History
    → Policy
    → String
    → String
    → Environment
    → ℤ
    → (History × Policy) × RollbackResult
roll_to none m p actor reason env now = ((m, p), no_previous)
roll_to (some prev) m p actor reason env now =
    let t = transition p rolled_back actor reason now in
    roll_after t.1 m t.0 p.version prev actor reason env now

unfoldable pub roll_back :
    History → Policy → String → String → Environment → ℤ → (History × Policy) × RollbackResult
roll_back m p actor reason env now = roll_to (previous_version m p.id) m p actor reason env now
