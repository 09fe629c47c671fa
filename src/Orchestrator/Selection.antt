-- ===== src/Orchestrator/Selection.antt =====
-- internal/orchestrator/orchestrator.go: selectTier meets the description of its choice.
use symkernel.Base.{
  ◌≡◌, ◌≢◌, refl, ◌⊎◌, inl, inr, ◌↔◌, Bool, true, false, ◌||◌, String, Option, none, some,
  if◌then◌else◌, str_dec, arith, Bool-cases, subst, sym, ap, ◌∙◌, ite,
}
use symkernel.Base.Int.{ℤ, pos, ltb_ℤ, leb_ℤ, ◌≤ℤ◌}
use symkernel.Orchestrator.{
  Tier, cel, wazero, z3, VerificationRequest, config_for_tier, tier_configs, tier_text, tier_of,
  is_zero, accuracy_of, auto_select, hint_honoured, choose, found_or_z3, hinted, select_tier,
}
use symkernel.Orchestrator.Choice.{Honours, InRange, IsChoice, IsHint, auto_select-Auto, true-false}

tier_of-tier_text : (t : Tier) → tier_of (tier_text t) ≡ some t
unfolding tier_of str_dec
tier_of-tier_text cel = refl
tier_of-tier_text wazero = refl
tier_of-tier_text z3 = refl

named : (h : String) (t : Tier) → h ≡ tier_text t → tier_of h ≡ some t
named h t e = subst (λ s. tier_of s ≡ some t) (sym e) (tier_of-tier_text t)

names : (h : String) (t : Tier) → tier_of h ≡ some t → h ≡ tier_text t
unfolding tier_of
names h cel e = ground (arith, e)
names h wazero e = ground (arith, e)
names h z3 e = ground (arith, e)

same_name : (h : String) (t u : Tier) → h ≡ tier_text t → h ≡ tier_text u → t ≡ u
same_name h t u e f = ground (arith, named h t e, named h u f)

auto_select-IsChoice :
    (q : VerificationRequest)
    → InRange (accuracy_of q)
    → IsHint q.method_hint
    → ((t : Tier) → ¬ Honours q t)
    → IsChoice q (found_or_z3 (auto_select q tier_configs) (accuracy_of q))
auto_select-IsChoice q a k n =
    let (s, e, c, i) = auto_select-Auto q in subst (IsChoice q) (sym e) (a, k, c, inr (n, i))

abbrev pays : VerificationRequest → Tier → Bool
pays q t = is_zero q.cost_target_ms || leb_ℤ (pos (config_for_tier t).base_cost_ms) q.cost_target_ms

pays_iff :
    (q : VerificationRequest) (t : Tier)
    → (pays q t ≡ true)
      ↔ ((q.cost_target_ms ≡ pos 0) ⊎ (pos (config_for_tier t).base_cost_ms ≤ℤ q.cost_target_ms))
pays_iff q t = ground arith

hint_paid :
    (q : VerificationRequest) (t : Tier)
    → InRange (accuracy_of q)
    → Honours q t
    → IsChoice q (choose (config_for_tier t) (hint_honoured (config_for_tier t)))
hint_paid q cel a h = (a, inr (cel, h.0), refl, inl h)
hint_paid q wazero a h = (a, inr (wazero, h.0), refl, inl h)
hint_paid q z3 a h = (a, inr (z3, h.0), refl, inl h)

absent-IsHint : (h : String) → tier_of h ≡ none → h ≢ "" → ¬ IsHint h
absent-IsHint h e ne k = elim k [
  | inl empty ↦ ne empty
  | inr (t, is) ↦ ground (arith, e, named h t is)
]

unpaid :
    (q : VerificationRequest) (t : Tier)
    → q.method_hint ≡ tier_text t
    → pays q t ≡ false
    → (u : Tier) → ¬ Honours q u
unpaid q t e n u h = true-false (
    sym (
      (pays_iff q t).1 (
        subst
          (λ x.
            (q.cost_target_ms ≡ pos 0) ⊎ (pos (config_for_tier x).base_cost_ms ≤ℤ q.cost_target_ms))
          (same_name q.method_hint u t h.0 e) h.1))
    ∙ n)

hinted-IsChoice :
    (q : VerificationRequest) (o : Option Tier)
    → InRange (accuracy_of q)
    → tier_of q.method_hint ≡ o
    → q.method_hint ≢ ""
    → IsChoice q (hinted q o)
hinted-IsChoice q none a e ne = (a, refl, absent-IsHint q.method_hint e ne)
hinted-IsChoice q (some t) a e ne =
    let named_so = names q.method_hint t e in
    elim (Bool-cases (pays q t)) as (λ x. IsChoice q (hinted q (some t))) [
      | inl h ↦
          subst
            (λ b. IsChoice q (
              if b
              then choose (config_for_tier t) (hint_honoured (config_for_tier t))
              else found_or_z3 (auto_select q tier_configs) (accuracy_of q)))
            (sym h) (hint_paid q t a (named_so, (pays_iff q t).0 h))
      | inr n ↦
          subst
            (λ b. IsChoice q (
              if b
              then choose (config_for_tier t) (hint_honoured (config_for_tier t))
              else found_or_z3 (auto_select q tier_configs) (accuracy_of q)))
            (sym n) (auto_select-IsChoice q a (inr (t, named_so)) (unpaid q t named_so n))
    ]

no_hint : (q : VerificationRequest) → q.method_hint ≡ "" → (t : Tier) → ¬ Honours q t
unfolding tier_of str_dec
no_hint q e t h = ground (arith, sym (named q.method_hint t h.0) ∙ ap tier_of e)

InRange-IsChoice :
    (q : VerificationRequest) (d : Dec (q.method_hint ≡ ""))
    → InRange (accuracy_of q)
    → IsChoice q (
        if ite d true false
        then found_or_z3 (auto_select q tier_configs) (accuracy_of q)
        else hinted q (tier_of q.method_hint))
InRange-IsChoice q (yes e) a = auto_select-IsChoice q a (inl e) (no_hint q e)
InRange-IsChoice q (no ne) a = hinted-IsChoice q (tier_of q.method_hint) a refl ne

abbrev out_of_range : ℤ → Bool
out_of_range a = ltb_ℤ a (pos 0) || ltb_ℤ (pos 100) a

out_of_range_iff : (a : ℤ) → (out_of_range a ≡ false) ↔ InRange a
out_of_range_iff a = ground arith

pub select_tier-IsChoice : (q : VerificationRequest) → IsChoice q (select_tier q)
unfolding select_tier
select_tier-IsChoice q =
    elim (Bool-cases (out_of_range (accuracy_of q))) as (λ x. IsChoice q (select_tier q)) [
      | inl h ↦ rw h (refl, λ r. true-false (sym h ∙ (out_of_range_iff (accuracy_of q)).1 r))
      | inr n ↦
          rw n
            (InRange-IsChoice q (str_dec q.method_hint "") ((out_of_range_iff (accuracy_of q)).0 n))
    ]
