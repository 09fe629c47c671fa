-- ===== src/Governance/Staging.antt =====
-- internal/governance/staging.go: which version of a policy is active in each environment.
-- The mutex makes each call one step.
pub mod Sticks
use symkernel.Base.{
  ◌≡◌, refl, List, [], ◌∷◌, Bool, true, false, String, Option, none, some, if◌then◌else◌, str_dec,
  ite, str_is, arith, keep_if, Option-cases, Elem, ◌==◌, ℕ, suc,
}
use symkernel.Base.Dict.{lookup, insert, erase, lookup-insert, lookup-erase}
use symkernel.Governance.Version.{SchemaVersion}
use symkernel.Governance.Lifecycle.{Policy}
use Prim.Native.String.{◌++◌ as str_append}

-- An `Environment` is a string, of which three have names.
abbrev pub Environment : Type 0
Environment = String

abbrev pub env_dev : Environment
env_dev = "dev"

abbrev pub env_staging : Environment
env_staging = "staging"

abbrev pub env_prod : Environment
env_prod = "prod"

abbrev pub env_order : List Environment
env_order = env_dev ∷ env_staging ∷ env_prod ∷ []

-- The loop of `envIndex`, which returns -1 where none of them is `e`.
unfoldable pub index_from : ℕ → List Environment → Environment → Option ℕ
index_from i [] e = none
index_from i (env ∷ envs) e =
    let later = index_from (suc i) envs e in if str_is env e then some i else later

unfoldable pub env_index : Environment → Option ℕ
unfolding index_from
env_index e = index_from 0 env_order e

-- `fi >= 0 && ti == fi+1`.
unfoldable pub next_index : Option ℕ → Option ℕ → Bool
next_index none t = false
next_index (some f) none = false
next_index (some f) (some t) = t == suc f

unfoldable pub can_promote_to : Environment → Environment → Bool
can_promote_to from to = next_index (env_index from) (env_index to)

pub record StagedPolicy : Type 0 where
  pub policy_id : String
  pub version : SchemaVersion
  pub env : Environment
  pub promoted_by : String

abbrev pub StagingTable : Type 0
StagingTable = List (String × StagedPolicy)

unfoldable pub staging_key : String → Environment → String
staging_key id env = str_append id (str_append ":" env)

pub data StageResult : Type 0 where
  done invalid_step : StageResult

abbrev pub staged_of : Policy → Environment → String → StagedPolicy
staged_of p env actor = record {
  policy_id = p.id;
  version = p.version;
  env = env;
  promoted_by = actor;
}

unfoldable pub stage_over :
    Option StagedPolicy → StagingTable → Policy → Environment → String → StagingTable × StageResult
stage_over none t p env actor =
    (insert str_dec (staging_key p.id env) (staged_of p env actor) t, done)
stage_over (some current) t p env actor =
    if can_promote_to current.env env
    then (insert str_dec (staging_key p.id env) (staged_of p env actor) t, done)
    else (t, invalid_step)

unfoldable pub stage : StagingTable → Policy → Environment → String → StagingTable × StageResult
stage t p env actor = stage_over (lookup str_dec (staging_key p.id env) t) t p env actor

unfoldable pub active : StagingTable → String → Environment → Option StagedPolicy
active t id env = lookup str_dec (staging_key id env) t

-- `ActiveInEnv`, for the order in which the map is ranged over.
unfoldable pub active_in_env : StagingTable → Environment → List StagedPolicy
active_in_env [] env = []
active_in_env ((k, s) ∷ t) env =
    let rest = active_in_env t env in if str_is s.env env then s ∷ rest else rest

unfoldable pub remove : StagingTable → String → Environment → StagingTable
remove t id env = erase str_dec (staging_key id env) t
