-- ===== src/Orchestrator/Choice.antt =====
-- internal/orchestrator/orchestrator.go: what selectTier returns, against a description of it
-- that does not follow its walk.
use symkernel.Base.{
  ◌≡◌, ◌≢◌, refl, ◌⊎◌, ◌↔◌, List, [], ◌∷◌, Bool, true, false, ◌&&◌, not, String, Option, none, some,
  if◌then◌else◌, arith, sym,
}
use symkernel.Base.Int.{ℤ, pos, ltb_ℤ, ◌≤ℤ◌}
use symkernel.Orchestrator.{
  Tier, cel, wazero, z3, Complexity, VerificationRequest, TierConfig, TierSelection, Selected,
  selected, accuracy_out_of_range, invalid_method_hint, config_for_tier, tier_configs, tier_text,
  accuracy_of, breaks_budget, fits, auto_select, auto_selected, fallback_to_z3, found_or_z3, Reason,
}

abbrev pub Covers : Complexity → Tier → Type 0
Covers cx t =
    (cx.constraint_count ≤ℤ (config_for_tier t).max_constraint_count)
    × (cx.max_nesting_depth ≤ℤ (config_for_tier t).max_nesting_depth)
    × ((cx.has_quantifiers ≡ false) ⊎ (t ≢ cel))

-- A tier is accurate enough, within a budget that is given, and covers the query.
abbrev pub Suits : VerificationRequest → Tier → Type 0
Suits q t =
    (accuracy_of q ≤ℤ (config_for_tier t).accuracy_ceiling)
    × ((q.cost_target_ms ≤ℤ pos 0) ⊎ (pos (config_for_tier t).base_cost_ms ≤ℤ q.cost_target_ms))
    × Covers q.complexity t

-- The hint names the tier, and the budget, where it is not zero, pays for it.
abbrev pub Honours : VerificationRequest → Tier → Type 0
Honours q t =
    (q.method_hint ≡ tier_text t)
    × ((q.cost_target_ms ≡ pos 0) ⊎ (pos (config_for_tier t).base_cost_ms ≤ℤ q.cost_target_ms))

-- The first tier that suits, Z3 where no cheaper one does.
abbrev pub IsCheapest : VerificationRequest → Tier → Type 0
IsCheapest q cel = Suits q cel
IsCheapest q wazero = ¬ Suits q cel × Suits q wazero
IsCheapest q z3 = ¬ Suits q cel × ¬ Suits q wazero

abbrev pub InRange : ℤ → Type 0
InRange a = (pos 0 ≤ℤ a) × (a ≤ℤ pos 100)

abbrev pub IsHint : String → Type 0
IsHint h = (h ≡ "") ⊎ ((t : Tier) × (h ≡ tier_text t))

abbrev pub IsChoice : VerificationRequest → Selected → Type 0
IsChoice q (accuracy_out_of_range a) = (a ≡ q.accuracy_required) × ¬ InRange (accuracy_of q)
IsChoice q (invalid_method_hint h) = InRange (accuracy_of q) × (h ≡ q.method_hint) × ¬ IsHint h
IsChoice q (selected s) =
    InRange (accuracy_of q)
    × IsHint q.method_hint
    × (s.estimated_cost_ms ≡ (config_for_tier s.tier).base_cost_ms)
    × (Honours q s.tier ⊎ (((t : Tier) → ¬ Honours q t) × IsCheapest q s.tier))

pub suits : VerificationRequest → Tier → Bool
suits q t =
    not (ltb_ℤ (config_for_tier t).accuracy_ceiling (accuracy_of q))
    && not (breaks_budget q (config_for_tier t))
    && fits q.complexity (config_for_tier t)

pub true-false : true ≢ false
true-false e = ground arith

pub suits-cel : (q : VerificationRequest) → (suits q cel ≡ true) ↔ Suits q cel
unfolding suits fits
suits-cel q = ground arith

pub suits-wazero : (q : VerificationRequest) → (suits q wazero ≡ true) ↔ Suits q wazero
unfolding suits fits
suits-wazero q = ground arith

-- The walk, as a choice among the three tiers.
pub first_suiting : VerificationRequest → Option TierConfig
first_suiting q =
    if suits q cel
    then some (config_for_tier cel)
    else if suits q wazero
    then some (config_for_tier wazero)
    else if suits q z3
    then some (config_for_tier z3)
    else none

pub walk_once :
    (q : VerificationRequest) (tc : TierConfig) (tcs : List TierConfig)
    → auto_select q (tc ∷ tcs) ≡ (
        if not (ltb_ℤ tc.accuracy_ceiling (accuracy_of q))
          && not (breaks_budget q tc)
          && fits q.complexity tc
        then some tc
        else auto_select q tcs)
unfolding auto_select
walk_once q tc tcs = ground arith

pub walk_nothing : (q : VerificationRequest) → auto_select q [] ≡ none
unfolding auto_select
walk_nothing q = refl

pub auto_select-first_suiting :
    (q : VerificationRequest) → auto_select q tier_configs ≡ first_suiting q
unfolding suits first_suiting
auto_select-first_suiting q =
    rw
      (
        walk_once q (config_for_tier cel) (config_for_tier wazero ∷ config_for_tier z3 ∷ []),
        walk_once q (config_for_tier wazero) (config_for_tier z3 ∷ []),
        walk_once q (config_for_tier z3) [],
        walk_nothing q,
      )
      refl

abbrev pub Auto : VerificationRequest → Selected → Type 0
Auto q r =
    (s : TierSelection) × (r ≡ selected s)
    × (s.estimated_cost_ms ≡ (config_for_tier s.tier).base_cost_ms)
    × IsCheapest q s.tier

pub selection : Tier → Reason → TierSelection
selection t why = record {
  tier = t;
  reason = why;
  estimated_cost_ms = (config_for_tier t).base_cost_ms;
  alternatives = [];
}

pub pick_of :
    (q : VerificationRequest) (a : ℤ) (c w z : Bool)
    → (c ≡ true) ↔ Suits q cel
    → (w ≡ true) ↔ Suits q wazero
    → Auto q (
        found_or_z3
          (if c
            then some (config_for_tier cel)
            else if w
            then some (config_for_tier wazero)
            else if z
            then some (config_for_tier z3)
            else none)
          a)
unfolding selection
pick_of q a true w z hc hw =
    (selection cel (auto_selected (config_for_tier cel) a), refl, refl, hc.0 refl)
pick_of q a false true z hc hw = (
  selection wazero (auto_selected (config_for_tier wazero) a),
  refl,
  refl,
  ((λ s. absurd (true-false (sym (hc.1 s)))), hw.0 refl),
)
pick_of q a false false true hc hw = (
  selection z3 (auto_selected (config_for_tier z3) a),
  refl,
  refl,
  ((λ s. absurd (true-false (sym (hc.1 s)))), (λ s. absurd (true-false (sym (hw.1 s))))),
)
pick_of q a false false false hc hw = (
  selection z3 fallback_to_z3,
  refl,
  refl,
  ((λ s. absurd (true-false (sym (hc.1 s)))), (λ s. absurd (true-false (sym (hw.1 s))))),
)

pub auto_select-Auto :
    (q : VerificationRequest) → Auto q (found_or_z3 (auto_select q tier_configs) (accuracy_of q))
unfolding first_suiting
auto_select-Auto q = rw (auto_select-first_suiting q) (
    pick_of q (accuracy_of q) (suits q cel) (suits q wazero) (suits q z3) (suits-cel q)
      (suits-wazero q))
