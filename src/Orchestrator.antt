-- ===== src/Orchestrator.antt =====
-- internal/orchestrator/orchestrator.go: the choice of a verification tier and its counters.
pub mod Choice
pub mod Selection
pub mod Counts
pub mod Others
mod Tests
use symkernel.Base.{
  ℕ, ◌+◌, ◌%◌, List, [], ◌∷◌, ◌++◌, Bool, true, false, ◌&&◌, ◌||◌, not, String, Option, none, some,
  if◌then◌else◌, str_is,
}
use symkernel.Base.Int.{ℤ, pos, ltb_ℤ, leb_ℤ}

pub data Tier : Type 0 where
  cel wazero z3 : Tier

pub record Complexity : Type 0 where
  pub constraint_count : ℤ
  pub max_nesting_depth : ℤ
  pub has_quantifiers : Bool

pub record VerificationRequest : Type 0 where
  pub complexity : Complexity
  pub cost_target_ms : ℤ
  pub accuracy_required : ℤ
  pub method_hint : String

-- The label, which only the rendered reasons show, is left out.
pub record TierConfig : Type 0 where
  pub tier : Tier
  pub max_constraint_count : ℤ
  pub max_nesting_depth : ℤ
  pub base_cost_ms : ℕ
  pub accuracy_ceiling : ℤ

-- What the texts of the reasons are rendered from, beside the request.
pub data Reason : Type 0 where
  hint_honoured : TierConfig → Reason
  auto_selected : TierConfig → ℤ → Reason
  fallback_to_z3 : Reason

pub data Objection : Type 0 where
  over_ceiling over_budget too_many too_deep no_quantifiers lower_priority : Objection

pub record TierAlternative : Type 0 where
  pub tier : Tier
  pub reasons : List Objection

pub record TierSelection : Type 0 where
  pub tier : Tier
  pub reason : Reason
  pub estimated_cost_ms : ℕ
  pub alternatives : List TierAlternative

pub data Selected : Type 0 where
  selected : TierSelection → Selected
  accuracy_out_of_range : ℤ → Selected
  invalid_method_hint : String → Selected

abbrev pub config_for_tier : Tier → TierConfig
config_for_tier cel = record {
  tier = cel;
  max_constraint_count = pos 20;
  max_nesting_depth = pos 3;
  base_cost_ms = 5;
  accuracy_ceiling = pos 85;
}
config_for_tier wazero = record {
  tier = wazero;
  max_constraint_count = pos 100;
  max_nesting_depth = pos 10;
  base_cost_ms = 50;
  accuracy_ceiling = pos 95;
}
config_for_tier z3 = record {
  tier = z3;
  max_constraint_count = pos 1_073_741_824;
  max_nesting_depth = pos 1_073_741_824;
  base_cost_ms = 200;
  accuracy_ceiling = pos 100;
}

abbrev pub tier_configs : List TierConfig
tier_configs = config_for_tier cel ∷ config_for_tier wazero ∷ config_for_tier z3 ∷ []

abbrev pub tier_text : Tier → String
tier_text cel = "cel"
tier_text wazero = "wazero"
tier_text z3 = "z3"

abbrev pub same_tier : Tier → Tier → Bool
same_tier cel cel = true
same_tier wazero wazero = true
same_tier z3 z3 = true
same_tier _ _ = false

-- The tier whose text it is.
unfoldable pub tier_of : String → Option Tier
tier_of s =
    if str_is s "cel"
    then some cel
    else if str_is s "wazero"
    then some wazero
    else if str_is s "z3"
    then some z3
    else none

-- `ParseTier`, with strings.ToLower as `to_lower`.
unfoldable pub parse_tier : (String → String) → String → Option Tier
parse_tier to_lower s = tier_of (to_lower s)

abbrev pub is_zero : ℤ → Bool
is_zero a = not (ltb_ℤ a (pos 0) || ltb_ℤ (pos 0) a)

abbrev pub accuracy_of : VerificationRequest → ℤ
accuracy_of q = if is_zero q.accuracy_required then pos 80 else q.accuracy_required

abbrev pub exceeds : ℤ → ℤ → Bool
exceeds a limit = ltb_ℤ (pos 0) a && ltb_ℤ limit a

abbrev pub breaks_budget : VerificationRequest → TierConfig → Bool
breaks_budget q tc = ltb_ℤ (pos 0) q.cost_target_ms && ltb_ℤ q.cost_target_ms (pos tc.base_cost_ms)

unfoldable pub fits : Complexity → TierConfig → Bool
fits cx tc = not (
    exceeds cx.constraint_count tc.max_constraint_count
    || exceeds cx.max_nesting_depth tc.max_nesting_depth
    || (cx.has_quantifiers && same_tier tc.tier cel))

-- The walk over the tiers.
unfoldable pub auto_select : VerificationRequest → List TierConfig → Option TierConfig
auto_select q [] = none
auto_select q (tc ∷ tcs) =
    let rest = auto_select q tcs in
    if ltb_ℤ tc.accuracy_ceiling (accuracy_of q)
    then rest
    else if breaks_budget q tc
    then rest
    else if fits q.complexity tc
    then some tc
    else rest

abbrev pub choose : TierConfig → Reason → Selected
choose tc why = selected (record {
  tier = tc.tier;
  reason = why;
  estimated_cost_ms = tc.base_cost_ms;
  alternatives = [];
})

abbrev pub found_or_z3 : Option TierConfig → ℤ → Selected
found_or_z3 none accuracy = choose (config_for_tier z3) fallback_to_z3
found_or_z3 (some tc) accuracy = choose tc (auto_selected tc accuracy)

abbrev pub hinted : VerificationRequest → Option Tier → Selected
hinted q none = invalid_method_hint q.method_hint
hinted q (some t) =
    let tc = config_for_tier t in
    if is_zero q.cost_target_ms || leb_ℤ (pos tc.base_cost_ms) q.cost_target_ms
    then choose tc (hint_honoured tc)
    else found_or_z3 (auto_select q tier_configs) (accuracy_of q)

unfoldable pub select_tier : VerificationRequest → Selected
select_tier q =
    if ltb_ℤ (accuracy_of q) (pos 0) || ltb_ℤ (pos 100) (accuracy_of q)
    then accuracy_out_of_range q.accuracy_required
    else if str_is q.method_hint ""
    then found_or_z3 (auto_select q tier_configs) (accuracy_of q)
    else hinted q (tier_of q.method_hint)

abbrev noted : Bool → Objection → List Objection
noted b o = if b then o ∷ [] else []

abbrev or_lower_priority : List Objection → List Objection
or_lower_priority [] = lower_priority ∷ []
or_lower_priority (o ∷ os) = o ∷ os

unfoldable pub objections : VerificationRequest → TierConfig → List Objection
objections q tc = or_lower_priority (
    noted (ltb_ℤ tc.accuracy_ceiling (accuracy_of q)) over_ceiling
    ++ noted (breaks_budget q tc) over_budget
    ++ noted (exceeds q.complexity.constraint_count tc.max_constraint_count) too_many
    ++ noted (exceeds q.complexity.max_nesting_depth tc.max_nesting_depth) too_deep
    ++ noted (q.complexity.has_quantifiers && same_tier tc.tier cel) no_quantifiers)

unfoldable pub compute_alternatives :
    VerificationRequest → Tier → List TierConfig → List TierAlternative
compute_alternatives q t [] = []
compute_alternatives q t (tc ∷ tcs) =
    let rest = compute_alternatives q t tcs in
    if same_tier tc.tier t
    then rest
    else (record { tier = tc.tier; reasons = objections q tc }) ∷ rest

-- The maps from tiers to uint64 counters.
pub record Router : Type 0 where
  pub route_counts : Tier → ℕ
  pub route_latency_ms : Tier → ℕ
  pub route_samples : Tier → ℕ

unfoldable pub new_router : Router
new_router = record { route_counts = λ _. 0; route_latency_ms = λ _. 0; route_samples = λ _. 0 }

abbrev pub add_uint64 : Tier → ℕ → (Tier → ℕ) → Tier → ℕ
add_uint64 t n f u = if same_tier t u then (f u + n) % 18_446_744_073_709_551_616 else f u

unfoldable pub record_route : Router → Tier → ℕ → Router
record_route r t cost_ms = record {
  route_counts = add_uint64 t 1 r.route_counts;
  route_latency_ms = add_uint64 t cost_ms r.route_latency_ms;
  route_samples = add_uint64 t 1 r.route_samples;
}

abbrev pub route_selected : Router → VerificationRequest → Selected → Router × Selected
route_selected r q (selected s) = (
  record_route r s.tier s.estimated_cost_ms,
  selected (record s { alternatives = compute_alternatives q s.tier tier_configs }),
)
route_selected r q (accuracy_out_of_range a) = (r, accuracy_out_of_range a)
route_selected r q (invalid_method_hint h) = (r, invalid_method_hint h)

unfoldable pub route : Router → VerificationRequest → Router × Selected
route r q = route_selected r q (select_tier q)

-- The average cost is the latency by the samples, which the source divides as floats.
pub record TierStats : Type 0 where
  pub route_count : ℕ
  pub latency_ms : ℕ
  pub samples : ℕ

pub record Stats : Type 0 where
  pub total_routes : ℕ
  pub tiers : List (Tier × TierStats)

abbrev pub tier_stats : Router → Tier → TierStats
tier_stats r t = record {
  route_count = r.route_counts t;
  latency_ms = r.route_latency_ms t;
  samples = r.route_samples t;
}

unfoldable pub sum_counts : Router → List TierConfig → ℕ → ℕ
sum_counts r [] total = total
sum_counts r (tc ∷ tcs) total =
    sum_counts r tcs ((total + r.route_counts tc.tier) % 18_446_744_073_709_551_616)

unfoldable pub stats : Router → Stats
stats r = record {
  total_routes = sum_counts r tier_configs 0;
  tiers = (cel, tier_stats r cel) ∷ (wazero, tier_stats r wazero) ∷ (z3, tier_stats r z3) ∷ [];
}
