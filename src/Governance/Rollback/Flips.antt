-- ===== src/Governance/Rollback/Flips.antt =====
-- internal/governance/rollback.go: which version a rollback returns to, and which the next one.
use symkernel.Base.{
  ℕ, ◌+◌, ◌-◌, ◌≡◌, ◌≢◌, refl, List, [], ◌∷◌, ◌++◌, true, false, String, none, some, str_dec,
  length, get_elem?, length-append, arith, Option-cases, inl, inr, ap, ◌∙◌,
}
use symkernel.Base.Int.{ℤ}
use symkernel.Base.Dict.{lookup-insert}
use symkernel.Governance.Version.{SchemaVersion}
use symkernel.Governance.Staging.{Environment}
use symkernel.Governance.Lifecycle.{
  Policy, rolled_back, can_transition, valid_transitions, contains, state_is,
}
use symkernel.Governance.Lifecycle.Paths.{transition_checked}
use symkernel.Governance.Rollback.{
  rollback, DeploymentRecord, History, history_of, append_record, record_rollback, previous_version,
  can_rollback, rolled, no_previous, roll_after, roll_to, roll_back,
}

history_of-append :
    (m : History) (id other : String) (r : DeploymentRecord)
    → history_of (append_record m id r) other
      ≡ (elim (str_dec id other) [ yes e ↦ history_of m id ++ r ∷ [] | no ne ↦ history_of m other ])
unfolding history_of append_record
history_of-append m id other r =
    ground (arith, lookup-insert str_dec id other (history_of m id ++ r ∷ []) m)

second_last :
    (older : List DeploymentRecord) (b l : DeploymentRecord)
    → get_elem? (older ++ b ∷ l ∷ []) (length older) ≡ some b
second_last [] b l = refl
second_last (x ∷ older) b l = second_last older b l

two_less : (n : ℕ) → n + 2 - 2 ≡ n
two_less n = omega arith

previous_of_two :
    (m : History) (id : String) (older : List DeploymentRecord) (b l : DeploymentRecord)
    → history_of m id ≡ older ++ b ∷ l ∷ []
    → previous_version m id ≡ some b.version
unfolding previous_version
previous_of_two m id older b l h = rw h (
    ground
      (arith, length-append older (b ∷ l ∷ []), two_less (length older), second_last older b l))

rolls :
    (m : History) (p : Policy) (actor reason : String) (env : Environment) (now : ℤ)
    (prev : SchemaVersion)
    → previous_version m p.id ≡ some prev
    → can_transition p.state rolled_back ≡ true
    → roll_back m p actor reason env now ≡ (
      (
        (record_rollback m p.id p.version prev actor reason env now).0,
        record p { state = rolled_back; updated_at = now },
      ),
      rolled (record_rollback m p.id p.version prev actor reason env now).1,
    )
unfolding roll_back roll_to roll_after
rolls m p actor reason env now prev h k =
    rw (h, transition_checked p rolled_back actor reason now, k) refl

same_history :
    (m : History) (id : String) (r : DeploymentRecord)
    → (elim (str_dec id id) [ yes e ↦ history_of m id ++ r ∷ [] | no ne ↦ history_of m id ])
      ≡ history_of m id ++ r ∷ []
same_history m id r = ground arith

other_history :
    (m : History) (id other : String) (r : DeploymentRecord)
    → id ≢ other
    → (elim (str_dec id other) [ yes e ↦ history_of m id ++ r ∷ [] | no ne ↦ history_of m other ])
      ≡ history_of m other
other_history m id other r ne = ground arith

regroup :
    (older : List DeploymentRecord) (b l r : DeploymentRecord)
    → (older ++ b ∷ l ∷ []) ++ r ∷ [] ≡ (older ++ b ∷ []) ++ l ∷ r ∷ []
regroup [] b l r = refl
regroup (x ∷ older) b l r = ap (λ xs. x ∷ xs) (regroup older b l r)

no_previous_version :
    (m : History) (id : String) → can_rollback m id ≡ false → previous_version m id ≡ none
unfolding can_rollback previous_version
no_previous_version m id h = ground arith

abbrev again : Policy → DeploymentRecord → String → Environment → ℤ → DeploymentRecord
again p b actor env now = record {
  policy_id = p.id;
  version = b.version;
  actor = actor;
  action = rollback;
  env = env;
  timestamp = now;
}

two_latest :
    (m : History) (id : String) (r : DeploymentRecord) (older : List DeploymentRecord)
    (b l : DeploymentRecord)
    → history_of m id ≡ older ++ b ∷ l ∷ []
    → history_of (append_record m id r) id ≡ (older ++ b ∷ []) ++ l ∷ r ∷ []
two_latest m id r older b l h =
    history_of-append m id id r
    ∙ same_history m id r
    ∙ ap (λ hs. hs ++ r ∷ []) h
    ∙ regroup older b l r

no_rollback :
    (m : History) (p : Policy) (actor reason : String) (env : Environment) (now : ℤ)
    → can_rollback m p.id ≡ false
    → roll_back m p actor reason env now ≡ ((m, p), no_previous)
unfolding roll_back roll_to
no_rollback m p actor reason env now h = rw (no_previous_version m p.id h) refl

no_transition :
    (m : History) (p : Policy) (actor reason : String) (env : Environment) (now : ℤ)
    → can_transition p.state rolled_back ≡ false
    → (roll_back m p actor reason env now).0 ≡ (m, p)
unfolding roll_back roll_to roll_after
no_transition m p actor reason env now h = elim (Option-cases (previous_version m p.id)) [
  | inl e ↦ rw e refl
  | inr (v, e) ↦ rw (e, transition_checked p rolled_back actor reason now, h) refl
]

not_twice :
    (p : Policy) (now : ℤ)
    → can_transition (record p { state = rolled_back; updated_at = now }).state rolled_back ≡ false
unfolding can_transition valid_transitions contains state_is
not_twice p now = refl

records :
    (m : History) (p : Policy) (actor reason : String) (env : Environment) (now : ℤ)
    (older : List DeploymentRecord) (b l : DeploymentRecord)
    → history_of m p.id ≡ older ++ b ∷ l ∷ []
    → can_transition p.state rolled_back ≡ true
    → roll_back m p actor reason env now ≡ (
      (
        append_record m p.id (again p b actor env now),
        record p { state = rolled_back; updated_at = now },
      ),
      rolled (record {
        policy_id = p.id;
        from_version = p.version;
        to_version = b.version;
        actor = actor;
        reason = reason;
        timestamp = now;
      }),
    )
unfolding record_rollback
records m p actor reason env now older b l h k =
    rolls m p actor reason env now b.version (previous_of_two m p.id older b l h) k

-- `Rollback` changes nothing where fewer than two deployments of the policy are recorded, which it
-- reports, or where the policy's state may not be rolled back. Otherwise, with b and l the last
-- two recorded deployments, it sets the policy's state and time, returns a record from the policy's version to b's,
-- records b's version as deployed again, and leaves the histories of other policies alone. The
-- next `Rollback` of a policy of this id in a state that may be rolled back then returns a record from that
-- policy's version to l's, not to a version before b's, while one of the policy as it was left changes nothing.
pub rollback_flips :
    (m : History) (p : Policy) (actor reason : String) (env : Environment) (now : ℤ)
    → let r = roll_back m p actor reason env now in
      (can_rollback m p.id ≡ false → r ≡ ((m, p), no_previous))
      × (can_transition p.state rolled_back ≡ false → r.0 ≡ (m, p))
      × ((older : List DeploymentRecord) (b l : DeploymentRecord)
          → history_of m p.id ≡ older ++ b ∷ l ∷ []
          → can_transition p.state rolled_back ≡ true
          → (r.0.1 ≡ record p { state = rolled_back; updated_at = now })
            × (r.1
                ≡ rolled (record {
                  policy_id = p.id;
                  from_version = p.version;
                  to_version = b.version;
                  actor = actor;
                  reason = reason;
                  timestamp = now;
                }))
            × (history_of r.0.0 p.id
                ≡ history_of m p.id
                  ++ record {
                    policy_id = p.id;
                    version = b.version;
                    actor = actor;
                    action = rollback;
                    env = env;
                    timestamp = now;
                  }
                    ∷ [])
            × ((other : String) → p.id ≢ other → history_of r.0.0 other ≡ history_of m other)
            × ((q : Policy) (by why : String) (place : Environment) (at : ℤ)
                → q.id ≡ p.id
                → can_transition q.state rolled_back ≡ true
                → (roll_back r.0.0 q by why place at).1
                  ≡ rolled (record {
                    policy_id = p.id;
                    from_version = q.version;
                    to_version = l.version;
                    actor = by;
                    reason = why;
                    timestamp = at;
                  }))
            × ((by why : String) (place : Environment) (at : ℤ)
                → (roll_back r.0.0 r.0.1 by why place at).0 ≡ r.0))
rollback_flips m p actor reason env now = (
  no_rollback m p actor reason env now,
  no_transition m p actor reason env now,
  (λ older b l h k.
      let d = again p b actor env now in
      let m' = append_record m p.id d in
      let latest = two_latest m p.id d older b l h in
      rw (records m p actor reason env now older b l h k) (
        refl,
        refl,
        history_of-append m p.id p.id d ∙ same_history m p.id d,
        (λ other ne. history_of-append m p.id other d ∙ other_history m p.id other d ne),
        (λ q by why place at e may.
            ap (λ x. x.1)
              (records m' q by why place at (older ++ b ∷ []) l d (ap (history_of m') e ∙ latest)
                may)
            ∙ ap
                (λ id. rolled (record {
                  policy_id = id;
                  from_version = q.version;
                  to_version = l.version;
                  actor = by;
                  reason = why;
                  timestamp = at;
                }))
                e),
        (λ by why place at.
            no_transition m' (record p { state = rolled_back; updated_at = now }) by why place at
              (not_twice p now)),
      )),
)
