-- ===== src/Governance/BlueGreen/Switching.antt =====
-- internal/governance/bluegreen.go: where traffic goes, and the way back.
use symkernel.Base.{
  ◌≡◌, refl, ◌⊎◌, inl, inr, List, [], ◌∷◌, true, false, String, some, if◌then◌else◌, str_dec,
  str_is, Option-cases, Bool-cases, arith, ◌∙◌,
}
use symkernel.Base.Int.{ℤ}
use symkernel.Base.Dict.{lookup-insert}
use symkernel.Governance.Version.{SchemaVersion}
use symkernel.Governance.Staging.{Environment}
use symkernel.Governance.BlueGreen.{
  DeploymentSlot, SlotState, BlueGreen, new_blue_green, deploy_to_slot, get_slot, switched,
  invalid_slot, is_slot, switch_over, switch_traffic,
}

pub data Call : Type 0 where
  deploys : DeploymentSlot → SchemaVersion → String → ℤ → Call
  switches : DeploymentSlot → Call

unfoldable pub step : BlueGreen → Call → BlueGreen
step bg (deploys slot v actor now) = deploy_to_slot bg slot v actor now
step bg (switches slot) = (switch_traffic bg slot).0

unfoldable pub run : BlueGreen → List Call → BlueGreen
run bg [] = bg
run bg (c ∷ cs) = run (step bg c) cs

-- Traffic goes nowhere yet, or to one of the two slots, and that has a deployment.
abbrev pub Routed : BlueGreen → Type 0
Routed bg =
    (bg.active ≡ "")
    ⊎ ((is_slot bg.active ≡ true) × ((s : SlotState) × (get_slot bg bg.active ≡ some s)))

stays_deployed :
    (bg : BlueGreen) (to : DeploymentSlot) (v : SchemaVersion) (actor : String) (now : ℤ)
    (slot : DeploymentSlot) (s : SlotState)
    → get_slot bg slot ≡ some s
    → (s' : SlotState) × (get_slot (deploy_to_slot bg to v actor now) slot ≡ some s')
unfolding get_slot deploy_to_slot
stays_deployed bg to v actor now slot s h =
    let r : SlotState = record {
      slot = to;
      policy_id = bg.policy_id;
      version = v;
      deployed_at = now;
      deployed_by = actor;
    } in
    elim (str_dec to slot) [
      | yes e ↦ (r, ground (arith, lookup-insert str_dec to slot r bg.slots))
      | no ne ↦ (s, ground (arith, lookup-insert str_dec to slot r bg.slots))
    ]

switch_cases :
    (bg : BlueGreen) (slot : DeploymentSlot)
    → ((switch_traffic bg slot).0 ≡ bg)
      ⊎ ((is_slot slot ≡ true)
          × ((s : SlotState) × (get_slot bg slot ≡ some s))
          × (switch_traffic bg slot ≡ (record bg { active = slot }, switched bg.active)))
unfolding switch_traffic switch_over
switch_cases bg slot = elim (Bool-cases (is_slot slot)) [
  | inr k ↦ inl (rw k refl)
  | inl k ↦ elim (Option-cases (get_slot bg slot)) [
    | inl h ↦ inl (rw (k, h) refl)
    | inr (s, h) ↦ inr (k, (s, h), rw (k, h) refl)
  ]
]

moved_slots :
    (bg : BlueGreen) (to slot : DeploymentSlot)
    → get_slot (record bg { active = to }) slot ≡ get_slot bg slot
unfolding get_slot
moved_slots bg to slot = refl

switch-Routed :
    (bg : BlueGreen) (slot : DeploymentSlot) → Routed bg → Routed (switch_traffic bg slot).0
switch-Routed bg slot h = elim (switch_cases bg slot) [
  | inl e ↦ rw e h
  | inr (k, (s, f), e) ↦ rw e (inr (k, (s, moved_slots bg slot slot ∙ f)))
]

step-Routed : (bg : BlueGreen) (c : Call) → Routed bg → Routed (step bg c)
unfolding step deploy_to_slot
step-Routed bg (deploys slot v actor now) (inl e) = inl e
step-Routed bg (deploys slot v actor now) (inr (k, (s, h))) =
    inr (k, stays_deployed bg slot v actor now bg.active s h)
step-Routed bg (switches slot) h = switch-Routed bg slot h

run-Routed : (bg : BlueGreen) (cs : List Call) → Routed bg → Routed (run bg cs)
unfolding run
run-Routed bg [] h = h
run-Routed bg (c ∷ cs) h = run-Routed (step bg c) cs (step-Routed bg c h)

no_empty_slot : is_slot "" ≡ false
unfolding is_slot str_dec
no_empty_slot = refl

named_nonempty : (a : DeploymentSlot) → is_slot a ≡ true → str_is a "" ≡ false
named_nonempty a k = ground (arith, no_empty_slot)

new-Routed : (id : String) (env : Environment) → Routed (new_blue_green id env)
unfolding new_blue_green
new-Routed id env = inl refl

undo :
    (bg : BlueGreen) (slot : DeploymentSlot)
    → Routed bg
    → switch_traffic (record bg { active = slot }) bg.active ≡ (
        if str_is bg.active ""
        then (record bg { active = slot }, invalid_slot)
        else (bg, switched slot))
unfolding switch_traffic switch_over
undo bg slot (inl e) = rw (e, no_empty_slot) (ground arith)
undo bg slot (inr (k, (s, h))) =
    rw (k, moved_slots bg slot bg.active, h, named_nonempty bg.active k) refl

-- After any calls on a new manager, traffic goes nowhere yet or to blue or green, with a deployment
-- there. A switch then either changes nothing, or the target has a deployment and becomes the active slot; a second
-- switch, to the slot that was active before, undoes it, unless none was: that
-- switch is refused.
pub switch_back :
    (id : String) (env : Environment) (cs : List Call) (slot : DeploymentSlot)
    → let bg = run (new_blue_green id env) cs in
      let r = switch_traffic bg slot in
      Routed bg
      × ((r.0 ≡ bg)
          ⊎ ((is_slot slot ≡ true)
              × ((s : SlotState) × (get_slot bg slot ≡ some s))
              × (r ≡ (record bg { active = slot }, switched bg.active))))
      × (r ≡ (record bg { active = slot }, switched bg.active)
          → switch_traffic r.0 bg.active
            ≡ (if str_is bg.active "" then (r.0, invalid_slot) else (bg, switched slot)))
switch_back id env cs slot =
    let bg = run (new_blue_green id env) cs in
    let routed = run-Routed (new_blue_green id env) cs (new-Routed id env) in
    (routed, switch_cases bg slot, (λ e. rw e (undo bg slot routed)))
