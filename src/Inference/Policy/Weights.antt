-- ===== src/Inference/Policy/Weights.antt =====
-- What the weights of backend/inference/policy.py add up to.
use ryuk.Prelude.{
  ℕ, zero, suc, String, ◌+◌, ◌-◌, ◌*◌, ◌/◌, ◌%◌, ◌≤◌, ◌<◌, true, false, Option, none, some, ◌≡◌,
  ltb, eqb, if◌then◌else◌, arith, Bool-cases, inl, inr,
}
use native.Mathlib.Nat.{div-add-mod, mul-le-mul_left, le_of_mul-le-mul_left}
use ryuk.Prelude.Int.{ℤ, pos, negsuc, ◌+ℤ◌, ◌≤ℤ◌, pos_part, neg_part, +ℤ_parts, ltb_ℤ}
use ryuk.Prelude.Result.{ok}
use ryuk.Prelude.Text.{same_lower}
use ryuk.Inference.Contracts.{TaskInput, text_input, chat_input, InferenceTask}
use ryuk.Inference.Capabilities.{CapabilityClaim, kind_of}
use ryuk.Inference.Policy.{
  PolicyCandidate, PolicyRuntime, round_half_even, reliability, preference_score, readiness_score,
  freshness_score, reliability_score, capacity_score, context_score, cost_score, latency_score,
  suitability, components_of, sum_components, score, RoutingPolicyProfile, check_profile, CostClass,
  LatencyClass, out_of_range,
}

rounded : ℕ → ℕ → ℕ → ℕ
rounded a r q =
    if ltb (2 * r) q
    then a
    else (if ltb q (2 * r) then a + 1 else (if eqb (a % 2) 0 then a else a + 1))

rounded-le : (a r q k : ℕ) → 0 < q → q * a + r ≤ q * k → rounded a r q ≤ k
unfolding rounded
rounded-le a r q k positive h = elim (Bool-cases (ltb a k)) [
  | inl below ↦ ground arith
  | inr above ↦
      let reached : k ≤ a = ground arith in
      let products = mul-le-mul_left q reached in
      let exact : r ≡ 0 = omega (arith, products) in
      let whole : a ≤ k = le_of_mul-le-mul_left {k = q} (omega (arith, h)) positive in ground arith
]

round_half_even-le : (p q k : ℕ) → 0 < q → p ≤ q * k → round_half_even p q ≤ k
unfolding round_half_even rounded
round_half_even-le p q k positive h =
    rounded-le (p / q) (p % q) q k positive (omega (arith, div-add-mod p q))

reliability-le : (rate : Option (ℕ × ℕ)) → reliability rate ≤ 20
unfolding reliability
reliability-le none = omega arith
reliability-le (some (failures, zero)) = unfold round_half_even in ground arith
reliability-le (some (failures, suc n)) =
    round_half_even-le (20 * (suc n - failures)) (suc n) 20 (omega arith) (omega arith)

-- What a candidate's score has beside its preference and its suitability.
points : InferenceTask → PolicyCandidate → ℕ
points task c =
    readiness_score c.runtime
    + freshness_score c.runtime
    + reliability_score c.runtime
    + capacity_score c.runtime
    + context_score task.requirements.required_context_tokens c.capabilities.max_context_tokens
    + cost_score c.profile.cost_class
    + latency_score c.profile.latency_class

add_pos :
    (n : ℕ) (z : ℤ) → pos_part (pos n +ℤ z) + neg_part z ≡ neg_part (pos n +ℤ z) + n + pos_part z
add_pos n z = omega (arith, +ℤ_parts (pos n) z)

score-total :
    (task : InferenceTask) (preferred : Option String) (c : PolicyCandidate)
    → let total = (score task preferred c).total in
      let fit = suitability task.input c.profile in
      pos_part total + neg_part fit
      ≡ neg_part total + preference_score c preferred + points task c + pos_part fit
unfolding score components_of sum_components points
score-total task preferred c =
    let fit = suitability task.input c.profile +ℤ pos 0 in
    let latency = pos (latency_score c.profile.latency_class) +ℤ fit in
    let cost = pos (cost_score c.profile.cost_class) +ℤ latency in
    let context =
      pos
        (context_score task.requirements.required_context_tokens c.capabilities.max_context_tokens)
      +ℤ cost in
    let capacity = pos (capacity_score c.runtime) +ℤ context in
    let reliable = pos (reliability_score c.runtime) +ℤ capacity in
    let fresh = pos (freshness_score c.runtime) +ℤ reliable in
    let ready = pos (readiness_score c.runtime) +ℤ fresh in
    omega (
      arith,
      +ℤ_parts (suitability task.input c.profile) (pos 0),
      add_pos _ fit,
      add_pos _ latency,
      add_pos _ cost,
      add_pos _ context,
      add_pos _ capacity,
      add_pos _ reliable,
      add_pos _ fresh,
      add_pos (preference_score c preferred) ready,
    )

runtime_points-le :
    (r : Option PolicyRuntime)
    → readiness_score r + freshness_score r + reliability_score r + capacity_score r ≤ 55
unfolding readiness_score freshness_score reliability_score capacity_score
runtime_points-le none = omega arith
runtime_points-le (some r) = ground (arith, reliability-le r.recent_failure_rate)

context_score-le : (n : Option ℤ) (claim : Option (CapabilityClaim ℤ)) → context_score n claim ≤ 10
unfolding context_score
context_score-le none claim = omega arith
context_score-le (some n) none = omega arith
context_score-le (some n) (some claim) = ground arith

cost_score-le : (c : CostClass) → cost_score c ≤ 10
unfolding cost_score
cost_score-le c = ground arith

latency_score-le : (l : LatencyClass) → latency_score l ≤ 10
unfolding latency_score
latency_score-le l = ground arith

points-le : (task : InferenceTask) (c : PolicyCandidate) → points task c ≤ 85
unfolding points
points-le task c = omega (
  arith,
  runtime_points-le c.runtime,
  context_score-le task.requirements.required_context_tokens c.capabilities.max_context_tokens,
  cost_score-le c.profile.cost_class,
  latency_score-le c.profile.latency_class,
)

check_profile-suitability :
    (input : TaskInput) (p : RoutingPolicyProfile)
    → check_profile p ≡ ok tt
    → (negsuc 9 ≤ℤ suitability input p) × (suitability input p ≤ℤ pos 10)
unfolding check_profile out_of_range suitability kind_of
check_profile-suitability (text_input t) p h = ground arith
check_profile-suitability (chat_input ms) p h = ground arith

preference_score-le :
    (c : PolicyCandidate) (preferred : Option String) → preference_score c preferred ≤ 100
unfolding preference_score
preference_score-le c none = omega arith
preference_score-le c (some name) = ground arith

-- Every total is between -10 and 195, for a profile that passes its check.
pub total_bounds :
    (task : InferenceTask) (preferred : Option String) (c : PolicyCandidate)
    → check_profile c.profile ≡ ok tt
    → (negsuc 9 ≤ℤ (score task preferred c).total) × ((score task preferred c).total ≤ℤ pos 195)
total_bounds task preferred c h =
    let fit = check_profile-suitability task.input c.profile h in
    let others = points-le task c in
    (
      omega (arith, score-total task preferred c, fit.0, others),
      omega (arith, score-total task preferred c, fit.1, others, preference_score-le c preferred),
    )

-- A candidate on the preferred engine has a higher total than every candidate on another engine,
-- whatever is known of their state, as long as its suitability for the task is not below -4 and the
-- other's profile passes its check.
pub preferred_outscores :
    (task : InferenceTask) (name : String) (c other : PolicyCandidate)
    → same_lower c.engine_name name ≡ true
    → same_lower other.engine_name name ≡ false
    → negsuc 3 ≤ℤ suitability task.input c.profile
    → check_profile other.profile ≡ ok tt
    → ltb_ℤ (score task (some name) other).total (score task (some name) c).total ≡ true
unfolding preference_score
preferred_outscores task name c other is_preferred is_other fits h =
    let fit = check_profile-suitability task.input other.profile h in
    let own : preference_score c (some name) ≡ 100 = ground arith in
    let none_other : preference_score other (some name) ≡ 0 = ground arith in
    ground (
      arith,
      score-total task (some name) c,
      score-total task (some name) other,
      points-le task other,
    )
