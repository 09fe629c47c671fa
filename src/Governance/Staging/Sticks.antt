-- ===== src/Governance/Staging/Sticks.antt =====
-- internal/governance/staging.go: what a second promotion into an environment does.
use symkernel.Base.{
  ◌≡◌, ◌≢◌, refl, ◌⊎◌, inl, inr, List, [], ◌∷◌, false, String, none, some, str_dec, arith, ◌∙◌, ap,
  All, sym,
}
use symkernel.Base.Dict.{lookup, lookup-insert, lookup-erase}
use symkernel.Governance.Lifecycle.{Policy}
use symkernel.Governance.Staging.{
  Environment, StagedPolicy, StagingTable, done, invalid_step, stage, stage_over, active, remove,
  staging_key, staged_of, can_promote_to, next_index,
}

not_after_itself : (e : Environment) → can_promote_to e e ≡ false
unfolding can_promote_to next_index
not_after_itself e = ground arith

-- A call on the table.
pub data StagingCall : Type 0 where
  stages : Policy → Environment → String → StagingCall
  removes : String → Environment → StagingCall

unfoldable pub step : StagingTable → StagingCall → StagingTable
unfolding stage remove
step t (stages p env actor) = (stage t p env actor).0
step t (removes id env) = remove t id env

unfoldable pub run : StagingTable → List StagingCall → StagingTable
run t [] = t
run t (c ∷ cs) = run (step t c) cs

-- A call that does not remove what is staged under the key of an id and an environment, and that
-- stages under this key for this environment only.
abbrev pub Spares : String → Environment → StagingCall → Type 0
Spares id env (stages p to actor) = (staging_key id env ≢ staging_key p.id to) ⊎ (to ≡ env)
Spares id env (removes other_id from) = staging_key id env ≢ staging_key other_id from

-- Where the table holds an entry for the same environment, `Stage` refuses.
restage :
    (t : StagingTable) (p : Policy) (env : Environment) (actor : String) (s : StagedPolicy)
    → active t p.id env ≡ some s
    → s.env ≡ env
    → stage t p env actor ≡ (t, invalid_step)
unfolding stage stage_over active
restage t p env actor s h e = rw (h, e, not_after_itself env) refl

stage_elsewhere :
    (t : StagingTable) (q : Policy) (to : Environment) (actor : String) (id : String)
    (env : Environment)
    → staging_key id env ≢ staging_key q.id to
    → active (stage t q to actor).0 id env ≡ active t id env
unfolding stage stage_over active
stage_elsewhere t q to actor id env ne = ground (
  arith,
  lookup-insert str_dec (staging_key q.id to) (staging_key id env) (staged_of q to actor) t,
)

remove_elsewhere :
    (t : StagingTable) (other_id : String) (from : Environment) (id : String) (env : Environment)
    → staging_key id env ≢ staging_key other_id from
    → active (remove t other_id from) id env ≡ active t id env
unfolding remove active
remove_elsewhere t other_id from id env ne =
    ground (arith, lookup-erase str_dec (staging_key other_id from) (staging_key id env) t)

shared_key :
    (t : StagingTable) (id : String) (env : Environment) (jd : String) (to : Environment)
    → staging_key jd to ≡ staging_key id env
    → active t id env ≡ active t jd to
unfolding active
shared_key t id env jd to k = ap (λ x. lookup str_dec x t) (sym k)

step_keeps :
    (t : StagingTable) (id : String) (env : Environment) (s : StagedPolicy) (c : StagingCall)
    → active t id env ≡ some s
    → s.env ≡ env
    → Spares id env c
    → active (step t c) id env ≡ some s
unfolding step
step_keeps t id env s (stages q to actor) h e (inl ne) = stage_elsewhere t q to actor id env ne ∙ h
step_keeps t id env s (stages q to actor) h e (inr same_env) =
    elim (str_dec (staging_key id env) (staging_key q.id to)) [
      | yes k ↦
          ap (λ x. active x.0 id env)
            (restage t q to actor s (shared_key t q.id to id env k ∙ h) (e ∙ sym same_env))
          ∙ h
      | no ne ↦ stage_elsewhere t q to actor id env ne ∙ h
    ]
step_keeps t id env s (removes other_id from) h e ne =
    remove_elsewhere t other_id from id env ne ∙ h

run_keeps :
    (t : StagingTable) (id : String) (env : Environment) (s : StagedPolicy) (cs : List StagingCall)
    → active t id env ≡ some s
    → s.env ≡ env
    → All (Spares id env) cs
    → active (run t cs) id env ≡ some s
unfolding run
run_keeps t id env s [] h e a = h
run_keeps t id env s (c ∷ cs) h e a =
    run_keeps (step t c) id env s cs (step_keeps t id env s c h e a.0) e a.1

first_stage :
    (t : StagingTable) (p : Policy) (env : Environment) (actor : String)
    → active t p.id env ≡ none
    → (stage t p env actor).1 ≡ done
      × (active (stage t p env actor).0 p.id env ≡ some (staged_of p env actor))
unfolding stage stage_over active
first_stage t p env actor h =
    rw
      (
        h,
        lookup-insert str_dec (staging_key p.id env) (staging_key p.id env) (staged_of p env actor)
            t,
      )
      (refl, ground arith)

-- A policy that an environment does not hold is staged in it at once, whether or not any earlier environment holds it. Then, through all calls that do not remove that entry
-- or stage a different environment under its key, it stays active there, and every call of
-- `Stage` for a policy of the same id and the environment is refused and changes nothing, whatever its version.
pub first_stage_sticks :
    (t : StagingTable) (p q : Policy) (env : Environment) (actor other_actor : String)
    (cs : List StagingCall)
    → active t p.id env ≡ none
    → All (Spares p.id env) cs
    → q.id ≡ p.id
    → let later = run (stage t p env actor).0 cs in
      ((stage t p env actor).1 ≡ done)
      × (active later p.id env ≡ some (staged_of p env actor))
      × (stage later q env other_actor ≡ (later, invalid_step))
first_stage_sticks t p q env actor other_actor cs h spared same_id =
    let first = first_stage t p env actor h in
    let kept =
      run_keeps (stage t p env actor).0 p.id env (staged_of p env actor) cs first.1 refl spared in
    (
      first.0,
      kept,
      restage (run (stage t p env actor).0 cs) q env other_actor (staged_of p env actor)
          (ap (λ x. active (run (stage t p env actor).0 cs) x env) same_id ∙ kept) refl,
    )
