-- ===== src/Orchestrator/Others.antt =====
-- internal/orchestrator/orchestrator.go: what is said of the tiers that were not chosen.
use symkernel.Base.{◌≡◌, refl, ◌↔◌, List, [], ◌∷◌, map, All, arith}
use symkernel.Orchestrator.{
  Tier, cel, wazero, z3, VerificationRequest, TierAlternative, Router, Selected, selected,
  accuracy_out_of_range, invalid_method_hint, lower_priority, tier_configs, config_for_tier,
  objections, compute_alternatives, route_selected, select_tier, route,
}
use symkernel.Orchestrator.Choice.{Suits, IsChoice}
use symkernel.Orchestrator.Selection.{select_tier-IsChoice}

abbrev pub others : Tier → List Tier
others cel = wazero ∷ z3 ∷ []
others wazero = cel ∷ z3 ∷ []
others z3 = cel ∷ wazero ∷ []

-- The one reason is the priority exactly where the tier suits.
abbrev pub IsExplained : VerificationRequest → TierAlternative → Type 0
IsExplained q a = (a.reasons ≡ lower_priority ∷ []) ↔ Suits q a.tier

abbrev pub Explains : VerificationRequest → Selected → Type 0
Explains q (selected s) =
    (map (λ a. a.tier) s.alternatives ≡ others s.tier) × All (IsExplained q) s.alternatives
Explains q (accuracy_out_of_range a) = Unit
Explains q (invalid_method_hint h) = Unit

objections-Suits :
    (q : VerificationRequest) (t : Tier)
    → (objections q (config_for_tier t) ≡ lower_priority ∷ []) ↔ Suits q t
unfolding objections
objections-Suits q cel = ground arith
objections-Suits q wazero = ground arith
objections-Suits q z3 = ground arith

others-IsExplained :
    (q : VerificationRequest) (t : Tier)
    → let alternatives = compute_alternatives q t tier_configs in
      (map (λ a. a.tier) alternatives ≡ others t) × All (IsExplained q) alternatives
unfolding compute_alternatives
others-IsExplained q cel = (refl, (objections-Suits q wazero, (objections-Suits q z3, tt)))
others-IsExplained q wazero = (refl, (objections-Suits q cel, (objections-Suits q z3, tt)))
others-IsExplained q z3 = (refl, (objections-Suits q cel, (objections-Suits q wazero, tt)))

route_selected-Explains :
    (r : Router) (q : VerificationRequest) (s : Selected) → Explains q (route_selected r q s).1
route_selected-Explains r q (selected s) = others-IsExplained q s.tier
route_selected-Explains r q (accuracy_out_of_range a) = tt
route_selected-Explains r q (invalid_method_hint h) = tt

route_selected-IsChoice :
    (r : Router) (q : VerificationRequest) (s : Selected)
    → IsChoice q s
    → IsChoice q (route_selected r q s).1
route_selected-IsChoice r q (selected s) h = h
route_selected-IsChoice r q (accuracy_out_of_range a) h = h
route_selected-IsChoice r q (invalid_method_hint k) h = h

-- For any request Route refuses an accuracy out of 0 to 100, zero standing for 80, then a hint that
-- names no tier; otherwise it selects the hinted tier where the budget is zero or pays for it, and else
-- the first one that suits, Z3 where no cheaper tier does, even over the budget; the estimated cost is
-- the base cost of the tier. The alternatives are the other two tiers in order, and the reason
-- given for one is that its priority is lower exactly where it suits the request.
pub route-IsChoice :
    (r : Router) (q : VerificationRequest) → IsChoice q (route r q).1 × Explains q (route r q).1
unfolding route
route-IsChoice r q = (
  route_selected-IsChoice r q (select_tier q) (select_tier-IsChoice q),
  route_selected-Explains r q (select_tier q),
)
