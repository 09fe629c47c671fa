-- ===== src/Governance/Tests.antt =====
-- Runs of the governance models, and the theorems about them at them.
use symkernel.Base.{
  ℕ, ◌+◌, ◌≤◌, ◌<◌, ◌≡◌, ◌≢◌, refl, ◌⊎◌, ◌↔◌, inr, List, [], ◌∷◌, ◌++◌, true, false, String, Option,
  none, some, if◌then◌else◌, str_dec, str_is, length, Elem, arith, count_if, keep_if, All,
}
use symkernel.Base.Int.{ℤ, pos, ◌≤ℤ◌}
use symkernel.Base.Dict.{lookup}
use symkernel.Governance.Version.{SchemaVersion, version_gt, version_text}
use symkernel.Base.Decimal.{decimal}
use symkernel.Base.{ite}
use symkernel.Governance.Lifecycle.{
  LifecycleState, pending_approval, approved, staged, deployed, deprecated, rolled_back, other,
  Policy, PolicyContent, new_policy, is_final_state, can_transition, transition, transition_among,
  valid_transitions, contains, state_is,
}
use symkernel.Governance.Lifecycle.Paths.{
  Attempt, run, attempt, stages, targets, stages_in_order, final_stays,
}
use symkernel.Governance.Lifecycle.Store.{
  add, add_all, added, already_exists, add_keeps, latest_policy_is_top,
}
use symkernel.Governance.Lifecycle.Store.{get as get_policy, latest as latest_policy}
use symkernel.Governance.Approval.{new_workflow, grants, rejections, is_quorum_met, may_vote}
use symkernel.Governance.Approval.Votes.{
  in_favour, against, cast_all, recorded_choice, first_choice, votes_of, votes_counted,
}
use symkernel.Governance.Staging.{stage, active, staged_of, done, invalid_step, staging_key}
use symkernel.Governance.Staging.Sticks.{stages as stages_call, Spares, first_stage_sticks}
use symkernel.Governance.Staging.Sticks.{run as run_staging}
use symkernel.Governance.Approval.Votes.{Ballot}
use symkernel.Governance.Staging.{Environment}
use symkernel.Governance.Rollback.{
  DeploymentRecord, History, deploy, rollback, roll_back, can_rollback, rolled, no_previous,
  history_of,
}
use symkernel.Governance.Rollback.Flips.{rollback_flips}
use symkernel.Governance.BlueGreen.{
  new_blue_green, switch_traffic, is_slot, SlotState, get_slot, switched, invalid_slot,
}
use symkernel.Governance.BlueGreen.Switching.{Call, deploys, switches, Routed, switch_back}
use symkernel.Governance.BlueGreen.Switching.{run as run_slots}
use symkernel.Governance.Schema.{
  PolicySchema, SchemaRegistry, latest, values, list, wanted, get, register, registered,
  migration_chain, predecessor, schema_key,
}
use symkernel.Governance.Schema.Latest.{latest_is_top}
use symkernel.Governance.Schema.Sorting.{Descending, list_sorted}
use symkernel.Governance.Schema.Chain.{
  Descends, IsChain, migration_chain_ends, self_predecessor_diverges,
}

abbrev version : ℕ → ℕ → ℕ → SchemaVersion
version a b c = record { major = pos a; minor = pos b; patch = pos c }

abbrev body : PolicyContent
body = record { raw = []; content_type = "application/cel"; sha256 = "" }

abbrev limit : Policy
limit = new_policy "limit" (version 1 0 0) body "cel" (pos 5)

abbrev limit_two : Policy
limit_two = new_policy "limit" (version 1 0 0) body "z3" (pos 7)

abbrev asks : LifecycleState → Attempt
asks s = record { target = s; by = "ann"; why = ""; at = pos 9 }

-- The third call asks for a state that an approved policy may not enter.
abbrev shipped : List Attempt
shipped = asks pending_approval ∷ asks approved ∷ asks deployed ∷ asks staged ∷ asks deployed ∷ []

program : Unit {0}
unfolding new_policy run attempt stages targets transition transition_among valid_transitions
    contains state_is is_final_state can_transition add add_all get_policy latest_policy
    new_workflow grants rejections cast_all recorded_choice first_choice may_vote stage active
    staging_key run_staging str_dec lookup
program = tt

ships : (run (limit, []) shipped).0.state ≡ deployed
unfolding program
ships = refl

stages_in_order_example :
    let r = run (limit, []) shipped in
    ((u : String) → r.0.state ≢ other u)
    × ((older : List LifecycleState) × (targets r.1 ≡ stages r.0.state ++ older))
stages_in_order_example = stages_in_order "limit" (version 1 0 0) body "cel" (pos 5) shipped

empty_store : (id : String) (v : SchemaVersion) → get_policy [] id v ≡ none
unfolding get_policy lookup
empty_store id v = refl

abbrev retired : Policy
retired = record limit { state = deprecated }

final_stays_example :
    ((is_final_state deprecated ≡ true)
      ↔ ((to : LifecycleState) → can_transition deprecated to ≡ false))
    × (is_final_state deprecated ≡ true → run (retired, []) shipped ≡ (retired, []))
final_stays_example = final_stays retired [] shipped

add_keeps_example :
    let t = add_all (add [] limit).0 (retired ∷ []) in
    ((add [] limit).1 ≡ added)
    × (get_policy t "limit" (version 1 0 0) ≡ some limit)
    × (add t limit_two ≡ (t, already_exists))
unfolding new_policy
add_keeps_example =
    add_keeps [] limit limit_two (retired ∷ []) (empty_store "limit" (version 1 0 0)) refl refl

latest_policy_is_top_example :
    ((latest_policy (("k", limit) ∷ []) "limit" ≡ none)
      × ((p : Policy) → Elem p (limit ∷ []) → str_is p.id "limit" ≡ false))
    ⊎ ((b : Policy) × (latest_policy (("k", limit) ∷ []) "limit" ≡ some b)
        × Elem b (limit ∷ [])
        × (str_is b.id "limit" ≡ true)
        × ((p : Policy)
            → Elem p (limit ∷ [])
            → str_is p.id "limit" ≡ true
            → version_gt p.version b.version ≡ false))
unfolding values
latest_policy_is_top_example = latest_policy_is_top (("k", limit) ∷ []) "limit"

-- Bob is no approver, and the second vote of Ann does not count.
abbrev ballots : List Ballot
ballots = in_favour "ann" "" (pos 1) ∷ against "bob" "" (pos 2) ∷ against "ann" "" (pos 3) ∷ []

votes_counted_example :
    let w = cast_all (new_workflow (pos 1) ("ann" ∷ [])) ballots in
    (recorded_choice "ann" w.records
      ≡ (if may_vote ("ann" ∷ []) "ann" then first_choice "ann" ballots else none))
    × (votes_of "ann" w.records ≤ 1)
    × (grants w + rejections w ≡ length w.records)
    × ((is_quorum_met w ≡ true) ↔ (pos 1 ≤ℤ pos (grants w)))
votes_counted_example = votes_counted (pos 1) ("ann" ∷ []) ballots "ann"

-- The first promotion of the policy is to production.
spared : All (Spares "limit" "prod") (stages_call retired "prod" "eve" ∷ [])
spared = (inr refl, tt)

no_entry : (id : String) (env : Environment) → active [] id env ≡ none
unfolding active lookup
no_entry id env = refl

first_stage_sticks_example :
    let later =
      run_staging (stage [] limit "prod" "ann").0 (stages_call retired "prod" "eve" ∷ []) in
    ((stage [] limit "prod" "ann").1 ≡ done)
    × (active later "limit" "prod" ≡ some (staged_of limit "prod" "ann"))
    × (stage later limit_two "prod" "bob" ≡ (later, invalid_step))
unfolding new_policy
first_stage_sticks_example =
    first_stage_sticks [] limit limit_two "prod" "ann" "bob" (stages_call retired "prod" "eve" ∷ [])
      (no_entry "limit" "prod") spared refl

abbrev rec_of : SchemaVersion → DeploymentRecord
rec_of v = record {
  policy_id = "limit";
  version = v;
  actor = "ann";
  action = deploy;
  env = "prod";
  timestamp = pos 1;
}

abbrev deployments : History
deployments = ("limit", rec_of (version 1 0 0) ∷ rec_of (version 1 1 0) ∷ []) ∷ []

abbrev live : Policy
live = record limit { state = deployed }

rollback_flips_example :
    let r = roll_back deployments live "ann" "" "prod" (pos 9) in
    (can_rollback deployments live.id ≡ false → r ≡ ((deployments, live), no_previous))
    × (can_transition deployed rolled_back ≡ false → r.0 ≡ (deployments, live))
    × ((older : List DeploymentRecord) (b l : DeploymentRecord)
        → history_of deployments live.id ≡ older ++ b ∷ l ∷ []
        → can_transition deployed rolled_back ≡ true
        → (r.0.1 ≡ record live { state = rolled_back; updated_at = pos 9 })
          × (r.1
              ≡ rolled (record {
                policy_id = live.id;
                from_version = live.version;
                to_version = b.version;
                actor = "ann";
                reason = "";
                timestamp = pos 9;
              }))
          × (history_of r.0.0 live.id
              ≡ history_of deployments live.id
                ++ record {
                  policy_id = live.id;
                  version = b.version;
                  actor = "ann";
                  action = rollback;
                  env = "prod";
                  timestamp = pos 9;
                }
                  ∷ [])
          × ((another : String)
              → live.id ≢ another
              → history_of r.0.0 another ≡ history_of deployments another)
          × ((q : Policy) (by why : String) (place : Environment) (at : ℤ)
              → q.id ≡ live.id
              → can_transition q.state rolled_back ≡ true
              → (roll_back r.0.0 q by why place at).1
                ≡ rolled (record {
                  policy_id = live.id;
                  from_version = q.version;
                  to_version = l.version;
                  actor = by;
                  reason = why;
                  timestamp = at;
                }))
          × ((by why : String) (place : Environment) (at : ℤ)
              → (roll_back r.0.0 r.0.1 by why place at).0 ≡ r.0))
rollback_flips_example = rollback_flips deployments live "ann" "" "prod" (pos 9)

abbrev calls : List Call
calls = deploys "green" (version 1 0 0) "ann" (pos 1) ∷ switches "green" ∷ []

switch_back_example :
    let bg = run_slots (new_blue_green "limit" "prod") calls in
    let r = switch_traffic bg "blue" in
    Routed bg
    × ((r.0 ≡ bg)
        ⊎ ((is_slot "blue" ≡ true)
            × ((s : SlotState) × (get_slot bg "blue" ≡ some s))
            × (r ≡ (record bg { active = "blue" }, switched bg.active))))
    × (r ≡ (record bg { active = "blue" }, switched bg.active)
        → switch_traffic r.0 bg.active
          ≡ (if str_is bg.active "" then (r.0, invalid_slot) else (bg, switched "blue")))
switch_back_example = switch_back "limit" "prod" calls "blue"

abbrev schema : SchemaVersion → Option SchemaVersion → PolicySchema
schema v prev = record {
  id = "cel";
  version = v;
  description = "";
  previous_version = prev;
  created_at = pos 1;
  schema_type = "cel";
  hash = "";
}

abbrev first_schema : PolicySchema
first_schema = schema (version 1 0 0) none

abbrev newer : PolicySchema
newer = schema (version 1 1 0) (some (version 1 0 0))

abbrev registry : SchemaRegistry
registry = ("cel@1.0.0", first_schema) ∷ ("cel@1.1.0", newer) ∷ []

latest_is_top_example :
    ((latest registry "cel" ≡ none)
      × ((s : PolicySchema) → Elem s (values registry) → str_is s.id "cel" ≡ false))
    ⊎ ((b : PolicySchema) × (latest registry "cel" ≡ some b)
        × Elem b (values registry)
        × (str_is b.id "cel" ≡ true)
        × ((s : PolicySchema)
            → Elem s (values registry)
            → str_is s.id "cel" ≡ true
            → version_gt s.version b.version ≡ false))
latest_is_top_example = latest_is_top registry "cel"

list_sorted_example :
    Descending (list registry "cel")
    × (count_if (wanted "cel") (list registry "cel")
        ≡ count_if (wanted "cel") (keep_if (wanted "cel") (values registry)))
list_sorted_example = list_sorted registry "cel" (wanted "cel")

abbrev rank_of : Option SchemaVersion → ℕ
rank_of none = 0
rank_of (some v) = ite (str_dec "cel@1.0.0" (schema_key "cel" v)) 1 2

-- The first schema has rank 0, the second 1.
abbrev rank : PolicySchema → ℕ
rank s = rank_of s.previous_version

no_schema : (id : String) (v : SchemaVersion) → get [] id v ≡ none
unfolding get lookup
no_schema id v = refl

rank-newer : rank newer ≡ 1
unfolding schema_key version_text decimal str_dec
rank-newer = refl

falls :
    (v : SchemaVersion) (t : PolicySchema)
    → predecessor registry "cel" (some v) ≡ some t
    → rank t < rank_of (some v)
unfolding predecessor get lookup
falls v t h = ground (arith, rank-newer)

falls_from :
    (o : Option SchemaVersion) (t : PolicySchema)
    → predecessor registry "cel" o ≡ some t
    → rank t < rank_of o
unfolding predecessor
falls_from none t h = ground arith
falls_from (some v) t h = falls v t h

registry-Descends : Descends registry "cel" rank
registry-Descends s t h = falls_from s.previous_version t h

registered_newer : get registry "cel" (version 1 1 0) ≡ some newer
unfolding get lookup schema_key version_text decimal str_dec
registered_newer = refl

migration_chain_ends_example :
    (ss : List PolicySchema) × (migration_chain 2 registry "cel" (version 1 1 0) ≡ some ss)
    × IsChain registry "cel" (some newer) ss
migration_chain_ends_example =
    migration_chain_ends registry "cel" (version 1 1 0) rank newer registry-Descends
      registered_newer 2 (omega (arith, rank-newer))

self_predecessor_diverges_example :
    ((register [] (schema (version 1 0 0) (some (version 1 0 0)))).1 ≡ registered)
    × (migration_chain 7
          (register [] (schema (version 1 0 0) (some (version 1 0 0)))).0
          "cel"
          (version 1 0 0)
        ≡ none)
self_predecessor_diverges_example =
    self_predecessor_diverges [] (schema (version 1 0 0) (some (version 1 0 0))) 7
      (no_schema "cel" (version 1 0 0)) refl
