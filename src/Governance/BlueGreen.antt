-- ===== src/Governance/BlueGreen.antt =====
-- internal/governance/bluegreen.go: two deployment slots and the one that receives traffic.
-- A call takes the reading of the clock; the mutex makes each call one step.
pub mod Switching
use symkernel.Base.{
  List, [], Bool, true, false, String, Option, none, some, if◌then◌else◌, str_dec, str_is,
}
use symkernel.Base.Int.{ℤ}
use symkernel.Base.Dict.{lookup, insert}
use symkernel.Governance.Version.{SchemaVersion}
use symkernel.Governance.Staging.{Environment}

-- A `DeploymentSlot` is a string, of which two have names.
abbrev pub DeploymentSlot : Type 0
DeploymentSlot = String

abbrev pub slot_blue : DeploymentSlot
slot_blue = "blue"

abbrev pub slot_green : DeploymentSlot
slot_green = "green"

pub record SlotState : Type 0 where
  pub slot : DeploymentSlot
  pub policy_id : String
  pub version : SchemaVersion
  pub deployed_at : ℤ
  pub deployed_by : String

-- No call stores a nil pointer in `slots`.
pub record BlueGreen : Type 0 where
  pub policy_id : String
  pub env : Environment
  pub slots : List (DeploymentSlot × SlotState)
  pub active : DeploymentSlot

unfoldable pub new_blue_green : String → Environment → BlueGreen
new_blue_green id env = record { policy_id = id; env = env; slots = []; active = "" }

unfoldable pub deploy_to_slot : BlueGreen → DeploymentSlot → SchemaVersion → String → ℤ → BlueGreen
deploy_to_slot bg slot v actor now = record bg {
  slots =
      insert str_dec slot
        (record {
          slot = slot;
          policy_id = bg.policy_id;
          version = v;
          deployed_at = now;
          deployed_by = actor;
        })
        bg.slots;
}

unfoldable pub get_slot : BlueGreen → DeploymentSlot → Option SlotState
get_slot bg slot = lookup str_dec slot bg.slots

unfoldable pub active_state : BlueGreen → Option SlotState
active_state bg = get_slot bg bg.active

unfoldable pub inactive_slot : BlueGreen → DeploymentSlot
inactive_slot bg = if str_is bg.active slot_blue then slot_green else slot_blue

pub data SwitchResult : Type 0 where
  switched : DeploymentSlot → SwitchResult
  invalid_slot no_deployment : SwitchResult

-- `toSlot != SlotBlue && toSlot != SlotGreen`, negated.
unfoldable pub is_slot : DeploymentSlot → Bool
is_slot s = if str_is s slot_blue then true else str_is s slot_green

unfoldable pub switch_over :
    Option SlotState → BlueGreen → DeploymentSlot → BlueGreen × SwitchResult
switch_over none bg to_slot = (bg, no_deployment)
switch_over (some state) bg to_slot = (record bg { active = to_slot }, switched bg.active)

unfoldable pub switch_traffic : BlueGreen → DeploymentSlot → BlueGreen × SwitchResult
switch_traffic bg to_slot =
    if is_slot to_slot then switch_over (get_slot bg to_slot) bg to_slot else (bg, invalid_slot)

unfoldable pub is_some : Option SlotState → Bool
is_some none = false
is_some (some s) = true

unfoldable pub both_deployed : BlueGreen → Bool
unfolding is_some
both_deployed bg =
    if is_some (get_slot bg slot_blue) then is_some (get_slot bg slot_green) else false
