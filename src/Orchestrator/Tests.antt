-- ===== src/Orchestrator/Tests.antt =====
-- Runs of the model of the orchestrator, and the theorems about it at them.
use symkernel.Base.{str_dec, ℕ, ◌*◌, ◌≡◌, refl, List, [], ◌∷◌, false, count_if, arith}
use symkernel.Base.Int.{pos}
use symkernel.Orchestrator.{
  Tier, z3, Complexity, VerificationRequest, Router, new_router, Selected, config_for_tier,
  select_tier, route, stats, choose, fallback_to_z3,
}
use symkernel.Orchestrator.Choice.{IsChoice}
use symkernel.Orchestrator.Others.{Explains, route-IsChoice}
use symkernel.Orchestrator.Counts.{run, goes_to, is_accepted, run_counted}

abbrev request : ℕ → VerificationRequest
request budget = record {
  complexity = record {
    constraint_count = pos 2;
    max_nesting_depth = pos 1;
    has_quantifiers = false;
  };
  cost_target_ms = pos budget;
  accuracy_required = pos 0;
  method_hint = "";
}

-- Three milliseconds pay for no tier, so the costliest is taken.
tight_budget : select_tier (request 3) ≡ choose (config_for_tier z3) fallback_to_z3
unfolding select_tier symkernel.Orchestrator.auto_select str_dec
tight_budget = refl

route-IsChoice_example :
    IsChoice (request 60) (route new_router (request 60)).1
    × Explains (request 60) (route new_router (request 60)).1
route-IsChoice_example = route-IsChoice new_router (request 60)

abbrev requests : List VerificationRequest
requests = request 3 ∷ request 60 ∷ request 0 ∷ []

run_counted_example :
    ((t : Tier)
      → ((run new_router requests).route_counts t ≡ count_if (goes_to t) requests)
        × ((run new_router requests).route_samples t ≡ count_if (goes_to t) requests)
        × ((run new_router requests).route_latency_ms t
            ≡ (config_for_tier t).base_cost_ms * count_if (goes_to t) requests))
    × ((stats (run new_router requests)).total_routes ≡ count_if is_accepted requests)
run_counted_example = run_counted requests (omega arith)
