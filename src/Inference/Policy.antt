-- ===== src/Inference/Policy.antt =====
-- backend/inference/policy.py: the scores of the candidates for a task, and their order. The texts of
-- the explanation repeat the components and are left out.
pub mod Ranking
pub mod Weights
use ryuk.Prelude.{
  ℕ, String, ◌+◌, ◌-◌, ◌*◌, ◌/◌, ◌%◌, Bool, true, false, not, ◌&&◌, ◌||◌, Option, none, some, List,
  [], ◌∷◌, map, ltb, leb, eqb, if◌then◌else◌,
}
use ryuk.Prelude.Int.{ℤ, pos, negsuc, ◌+ℤ◌, ltb_ℤ}
use ryuk.Prelude.Dict.{Dict, lookup, insert}
use ryuk.Prelude.Result.{
  Result, ok, err, Check, raise_if, or_raise, value_error, key_error, ◌>>=◌, ◌>>◌,
}
use ryuk.Prelude.Text.{same_lower}
use ryuk.Prelude.Sorting.{sort_by}
use ryuk.Inference.Contracts.{
  InferenceTask, TaskInput, text_input, chat_input, RoutingScore, RoutingDecision,
}
use ryuk.Inference.Capabilities.{
  CapabilityClaim, DeploymentCapabilities, kind_of, TaskKind, text, chat,
}

abbrev pub policy_version : String
policy_version = "ryuk-deterministic-v1"

pub data CostClass : Type 0 where
  unknown_cost high_cost medium_cost low_cost : CostClass

pub data LatencyClass : Type 0 where
  unknown_latency high_latency medium_latency low_latency : LatencyClass

pub record RoutingPolicyProfile : Type 0 where
  pub cost_class : CostClass
  pub latency_class : LatencyClass
  pub text_suitability : ℤ
  pub chat_suitability : ℤ

unfoldable pub out_of_range : ℤ → Bool
out_of_range value = ltb_ℤ value (negsuc 9) || ltb_ℤ (pos 10) value

unfoldable pub check_profile : RoutingPolicyProfile → Check
unfolding out_of_range
check_profile p = do
  raise_if (out_of_range p.text_suitability) value_error
  raise_if (out_of_range p.chat_suitability) value_error

-- The rate is the pair of failures and attempts that it divides.
pub record PolicyRuntime : Type 0 where
  pub routable : Bool
  pub fresh : Bool
  pub recent_failure_rate : Option (ℕ × ℕ)
  pub capacity_available : Bool

pub record PolicyCandidate : Type 0 where
  pub deployment_id : String
  pub engine_name : String
  pub registration_index : ℕ
  pub capabilities : DeploymentCapabilities
  pub profile : RoutingPolicyProfile
  pub runtime : Option PolicyRuntime

-- `round(p / q)`: to the nearest, and halves to the even one. A rate of at most twenty attempts has no
-- half that the division of floats does not reach exactly.
unfoldable pub round_half_even : ℕ → ℕ → ℕ
round_half_even p q =
    if ltb (2 * (p % q)) q
    then p / q
    else (if ltb q (2 * (p % q))
        then p / q + 1
        else (if eqb ((p / q) % 2) 0 then p / q else p / q + 1))

-- `round(20 * (1 - failed / attempts))`
unfoldable pub reliability : Option (ℕ × ℕ) → ℕ
unfolding round_half_even
reliability none = 0
reliability (some (failures, attempts)) = round_half_even (20 * (attempts - failures)) attempts

unfoldable pub preference_score : PolicyCandidate → Option String → ℕ
preference_score c none = 0
preference_score c (some preferred) = if same_lower c.engine_name preferred then 100 else 0

unfoldable pub readiness_score : Option PolicyRuntime → ℕ
readiness_score none = 0
readiness_score (some r) = if r.routable then 20 else 0

unfoldable pub freshness_score : Option PolicyRuntime → ℕ
freshness_score none = 0
freshness_score (some r) = if r.fresh then 5 else 0

unfoldable pub reliability_score : Option PolicyRuntime → ℕ
reliability_score none = 0
reliability_score (some r) = reliability r.recent_failure_rate

unfoldable pub capacity_score : Option PolicyRuntime → ℕ
capacity_score none = 0
capacity_score (some r) = if r.capacity_available then 10 else 0

-- `_context_score`
unfoldable pub context_score : Option ℤ → Option (CapabilityClaim ℤ) → ℕ
context_score none claim = 0
context_score (some required) none = 0
context_score (some required) (some claim) =
    if not (ltb_ℤ claim.value (required +ℤ required)) then 10 else 5

unfoldable pub cost_score : CostClass → ℕ
cost_score low_cost = 10
cost_score medium_cost = 5
cost_score _ = 0

unfoldable pub latency_score : LatencyClass → ℕ
latency_score low_latency = 10
latency_score medium_latency = 5
latency_score _ = 0

unfoldable pub suitability : TaskInput → RoutingPolicyProfile → ℤ
suitability input profile = elim (kind_of input) [
  | text ↦ profile.text_suitability
  | chat ↦ profile.chat_suitability
]

unfoldable pub components_of : InferenceTask → PolicyCandidate → Option String → List (String × ℤ)
components_of task c preferred =
    ("preference", pos (preference_score c preferred))
    ∷ ("readiness", pos (readiness_score c.runtime))
    ∷ ("freshness", pos (freshness_score c.runtime))
    ∷ ("reliability", pos (reliability_score c.runtime))
    ∷ ("capacity", pos (capacity_score c.runtime))
    ∷ (
      "context_headroom",
      pos (
          context_score task.requirements.required_context_tokens
            c.capabilities.max_context_tokens),
    )
    ∷ ("cost", pos (cost_score c.profile.cost_class))
    ∷ ("latency", pos (latency_score c.profile.latency_class))
    ∷ ("task_suitability", suitability task.input c.profile)
    ∷ []

unfoldable pub sum_components : List (String × ℤ) → ℤ
sum_components [] = pos 0
sum_components ((name, value) ∷ cs) = value +ℤ sum_components cs

-- `_score`
unfoldable pub score : InferenceTask → Option String → PolicyCandidate → RoutingScore
unfolding components_of sum_components
score task preferred c = record {
  deployment_id = c.deployment_id;
  total = sum_components (components_of task c preferred);
  components = components_of task c preferred;
}

-- `{candidate.deployment_id: candidate for candidate in candidates}`
unfoldable pub candidates_by_id : List PolicyCandidate → Dict PolicyCandidate → Dict PolicyCandidate
candidates_by_id [] d = d
candidates_by_id (c ∷ cs) d = candidates_by_id cs (insert c.deployment_id c d)

-- A score with the second part of its key.
abbrev pub Keyed : Type 0
Keyed = RoutingScore × ℕ

-- `(-score.total, by_id[score.deployment_id].registration_index)` for every score.
unfoldable pub key_scores : Dict PolicyCandidate → List RoutingScore → Result (List Keyed)
key_scores by_id [] = ok []
key_scores by_id (s ∷ ss) = do
  c ← or_raise (lookup s.deployment_id by_id) key_error
  keyed ← key_scores by_id ss
  ok ((s, c.registration_index) ∷ keyed)

-- The order of the keys.
unfoldable pub key_le : Keyed → Keyed → Bool
key_le (s, i) (t, j) = ltb_ℤ t.total s.total || (not (ltb_ℤ s.total t.total) && leb i j)

unfoldable pub decision_of : List Keyed → RoutingDecision
decision_of keyed = record {
  policy_version = policy_version;
  ordered_deployment_ids = map (λ k. k.0.deployment_id) keyed;
  candidates = map (λ k. k.0) keyed;
}

unfoldable pub rank_candidates :
    InferenceTask → List PolicyCandidate → Option String → Result RoutingDecision
unfolding key_scores key_le decision_of candidates_by_id
rank_candidates task candidates preferred =
    let scored = map (score task preferred) candidates in
    do
      keyed ← key_scores (candidates_by_id candidates []) scored
      ok (decision_of (sort_by key_le keyed))
