-- ===== src/Orchestrator/Counts.antt =====
-- internal/orchestrator/orchestrator.go: the counters over a sequence of requests.
use symkernel.Base.{
  ℕ, ◌+◌, ◌*◌, ◌<◌, ◌≤◌, ◌≡◌, refl, List, [], ◌∷◌, Bool, true, false, if◌then◌else◌, count_if,
  length, arith, subst, sym, suc,
}
use symkernel.Orchestrator.{
  Tier, cel, wazero, z3, VerificationRequest, Router, new_router, Selected, selected,
  accuracy_out_of_range, invalid_method_hint, same_tier, config_for_tier, record_route,
  route_selected, select_tier, route, stats, sum_counts,
}
use symkernel.Orchestrator.Choice.{IsChoice}
use symkernel.Orchestrator.Selection.{select_tier-IsChoice}

abbrev chose : Selected → Tier → Bool
chose (selected s) t = same_tier s.tier t
chose (accuracy_out_of_range a) t = false
chose (invalid_method_hint h) t = false

-- Whether the request is routed to the tier.
abbrev pub goes_to : Tier → VerificationRequest → Bool
goes_to t q = chose (select_tier q) t

abbrev is_selected : Selected → Bool
is_selected (selected s) = true
is_selected (accuracy_out_of_range a) = false
is_selected (invalid_method_hint h) = false

abbrev pub is_accepted : VerificationRequest → Bool
is_accepted q = is_selected (select_tier q)

unfoldable pub run : Router → List VerificationRequest → Router
run r [] = r
run r (q ∷ qs) = run (route r q).0 qs

abbrev hits : Bool → ℕ
hits b = if b then 1 else 0

abbrev base_cost : Tier → ℕ
base_cost t = (config_for_tier t).base_cost_ms

-- How far the three counters of a tier have moved.
abbrev Moved : Router → Router → Tier → ℕ → Type 0
Moved r r' t n =
    (r'.route_counts t ≡ r.route_counts t + n)
    × (r'.route_samples t ≡ r.route_samples t + n)
    × (r'.route_latency_ms t ≡ r.route_latency_ms t + base_cost t * n)

abbrev HasRoom : Router → Tier → ℕ → Type 0
HasRoom r t n =
    (r.route_counts t + n < 18_446_744_073_709_551_616)
    × (r.route_samples t + n < 18_446_744_073_709_551_616)
    × (r.route_latency_ms t + 200 * n < 18_446_744_073_709_551_616)

record_route-Moved :
    (r : Router) (u t : Tier)
    → HasRoom r t 1
    → Moved r (record_route r u (base_cost u)) t (hits (same_tier u t))
unfolding record_route
record_route-Moved r cel cel h = omega (arith, h)
record_route-Moved r cel wazero h = omega (arith, h)
record_route-Moved r cel z3 h = omega (arith, h)
record_route-Moved r wazero cel h = omega (arith, h)
record_route-Moved r wazero wazero h = omega (arith, h)
record_route-Moved r wazero z3 h = omega (arith, h)
record_route-Moved r z3 cel h = omega (arith, h)
record_route-Moved r z3 wazero h = omega (arith, h)
record_route-Moved r z3 z3 h = omega (arith, h)

selected-Moved :
    (r : Router) (q : VerificationRequest) (s : Selected) (t : Tier)
    → IsChoice q s
    → HasRoom r t 1
    → Moved r (route_selected r q s).0 t (hits (chose s t))
selected-Moved r q (selected s) t c h =
    subst (λ n. Moved r (record_route r s.tier n) t (hits (same_tier s.tier t))) (sym c.2)
      (record_route-Moved r s.tier t h)
selected-Moved r q (accuracy_out_of_range a) t c h = omega arith
selected-Moved r q (invalid_method_hint k) t c h = omega arith

route-Moved :
    (r : Router) (q : VerificationRequest) (t : Tier)
    → HasRoom r t 1
    → Moved r (route r q).0 t (hits (goes_to t q))
unfolding route
route-Moved r q t h = selected-Moved r q (select_tier q) t (select_tier-IsChoice q) h

hits_small : (b : Bool) → hits b ≤ 1
hits_small b = ground arith

base_cost_bound : (t : Tier) → base_cost t ≤ 200
base_cost_bound cel = omega arith
base_cost_bound wazero = omega arith
base_cost_bound z3 = omega arith

room_left :
    (r r' : Router) (t : Tier) (b : Bool) (n : ℕ)
    → Moved r r' t (hits b)
    → HasRoom r t (suc n)
    → HasRoom r' t n
room_left r r' t true n m h = omega (arith, m, h, base_cost_bound t)
room_left r r' t false n m h = omega (arith, m, h)

one_more : (t : Tier) (n : ℕ) → base_cost t * (1 + n) ≡ base_cost t + base_cost t * n
one_more cel n = omega arith
one_more wazero n = omega arith
one_more z3 n = omega arith

Moved-trans :
    (r r' r'' : Router) (t : Tier) (b : Bool) (n : ℕ)
    → Moved r r' t (hits b)
    → Moved r' r'' t n
    → Moved r r'' t (hits b + n)
Moved-trans r r' r'' t true n m k = omega (arith, m, k, one_more t n)
Moved-trans r r' r'' t false n m k = omega (arith, m, k)

run-Moved :
    (t : Tier) (qs : List VerificationRequest) (r : Router)
    → HasRoom r t (length qs)
    → Moved r (run r qs) t (count_if (goes_to t) qs)
unfolding run count_if
run-Moved t [] r h = omega arith
run-Moved t (q ∷ qs) r h =
    let one = route-Moved r q t (omega (arith, h)) in
    let rest =
      run-Moved t qs (route r q).0 (room_left r (route r q).0 t (goes_to t q) (length qs) one h) in
    Moved-trans r (route r q).0 (run (route r q).0 qs) t (goes_to t q) (count_if (goes_to t) qs) one
      rest

all_tiers :
    (s : Selected)
    → hits (is_selected s) ≡ hits (chose s cel) + hits (chose s wazero) + hits (chose s z3)
all_tiers (selected s) = go s.tier
  where
    go : (t : Tier) → 1 ≡ hits (same_tier t cel) + hits (same_tier t wazero) + hits (same_tier t z3)
    go cel = refl
    go wazero = refl
    go z3 = refl
all_tiers (accuracy_out_of_range a) = refl
all_tiers (invalid_method_hint h) = refl

accepted_by_tier :
    (qs : List VerificationRequest)
    → count_if is_accepted qs
      ≡ count_if (goes_to cel) qs + count_if (goes_to wazero) qs + count_if (goes_to z3) qs
unfolding count_if
accepted_by_tier [] = refl
accepted_by_tier (q ∷ qs) = omega (arith, all_tiers (select_tier q), accepted_by_tier qs)

fresh_room : (t : Tier) (n : ℕ) → n ≤ 90_000_000_000_000_000 → HasRoom new_router t n
unfolding new_router
fresh_room t n h = omega (arith, h)

accepted_bound :
    (p : VerificationRequest → Bool) (qs : List VerificationRequest) → count_if p qs ≤ length qs
unfolding count_if
accepted_bound p [] = omega arith
accepted_bound p (q ∷ qs) = omega (arith, hits_small (p q), accepted_bound p qs)

-- After at most 9 * 10^16 requests to a new router no counter has wrapped: for each tier
-- the number of routes and of samples is the number of requests that selectTier gives it, the
-- latency is that number times its base cost, so the average is the base cost, and the
-- total that Stats reports is the number of requests that were not refused.
pub run_counted :
    (qs : List VerificationRequest)
    → length qs ≤ 90_000_000_000_000_000
    → ((t : Tier)
        → ((run new_router qs).route_counts t ≡ count_if (goes_to t) qs)
          × ((run new_router qs).route_samples t ≡ count_if (goes_to t) qs)
          × ((run new_router qs).route_latency_ms t ≡ base_cost t * count_if (goes_to t) qs))
      × ((stats (run new_router qs)).total_routes ≡ count_if is_accepted qs)
unfolding stats sum_counts new_router
run_counted qs h =
    let m : (t : Tier) → Moved new_router (run new_router qs) t (count_if (goes_to t) qs) =
      λ t. run-Moved t qs new_router (fresh_room t (length qs) h) in
    (
      λ t. omega (arith, m t),
      omega (arith, m cel, m wazero, m z3, h, accepted_by_tier qs, accepted_bound is_accepted qs),
    )
