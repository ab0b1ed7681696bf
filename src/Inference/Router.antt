-- ===== src/Inference/Router.antt =====
-- backend/inference/router.py: the choice of deployments for a task. Times are milliseconds; the order
-- of one task reads the clock once.
pub mod Attempt
pub mod Pass
pub mod Order
pub mod Ordering
pub mod Preference
pub mod Rejections
pub mod Refusals
pub mod Records
pub mod Loop
use ryuk.Prelude.{
  ℕ, zero, suc, String, ◌+◌, Bool, true, false, not, ◌&&◌, ◌||◌, Option, none, some, List, [], ◌∷◌,
  ◌++◌, map, filter, ltb, leb, if◌then◌else◌, is_empty,
}
use ryuk.Prelude.Dict.{Dict, lookup, insert}
use ryuk.Prelude.Result.{
  Error, Result, ok, err, Check, raise_if, or_raise, value_error, type_error, key_error, ◌>>=◌,
  ◌>>◌,
}
use ryuk.Prelude.Text.{same_lower, codes}
use ryuk.Inference.Contracts.{InferenceTask, RoutingDecision}
use ryuk.Inference.Capabilities.{
  evaluate_capabilities, EligibilityDecision, ConstraintRejection, reason_text,
}
use ryuk.Inference.Errors.{
  InferenceFailure, FailureContext, PublicRejection, make_failure, no_context,
  unknown_engine_preference, capability_mismatch, deployment_unavailable,
}
use ryuk.Inference.Policy.{PolicyCandidate, PolicyRuntime, rank_candidates}
use ryuk.Inference.Registry.{
  Engine, RegisteredDeployment, DeploymentRegistry, all_deployments, Answer, replied, failing,
  crashing, EngineRegistry, all_engines, get_engine,
}
use ryuk.Inference.Runtime.{
  RuntimeStateStore, DeploymentRuntimeState, get, is_routable, is_stale, is_available,
}

-- A call returns, raises an `InferenceFailure`, or raises another exception.
pub data Outcome (T : Type 0) : Type 0 where
  returns : T → Outcome T
  raises : InferenceFailure → Outcome T
  crashes : Error → Outcome T

pub record ExecutionPolicy : Type 0 where
  pub max_attempts : ℕ
  pub default_deadline : ℕ
  pub backoff : List ℕ

-- `ExecutionPolicy.__post_init__`; a delay is no negative number.
unfoldable pub check_policy : ExecutionPolicy → Check
check_policy p = do
  raise_if (ltb p.max_attempts 1) value_error
  raise_if (leb p.default_deadline 0) value_error

-- The registries that a router may have.
pub data AnyRegistry : Type 0 where
  engines : EngineRegistry → AnyRegistry
  deployments : DeploymentRegistry → AnyRegistry

pub record InferenceRouter : Type 0 where
  pub registry : AnyRegistry
  pub policy : ExecutionPolicy
  pub circuit_open_deployment_ids : List String
  pub runtime_states : Option RuntimeStateStore

-- `item.engine.name.lower() == preferred_engine.lower()`
abbrev pub is_on : String → RegisteredDeployment → Bool
is_on preferred d = same_lower d.engine.name preferred

-- `UnknownEnginePreferenceFailure(...)`
abbrev pub unknown_preference : InferenceFailure
unknown_preference = make_failure unknown_engine_preference none none

abbrev pub no_available_engine : InferenceFailure
no_available_engine = make_failure deployment_unavailable none none

-- `_deployment_available`, at the time `now`, where `answers` has what each engine says.
unfoldable pub deployment_available :
    Option RuntimeStateStore → (String → Answer Bool) → ℕ → RegisteredDeployment → Answer Bool
deployment_available none answers now d = answers d.ref.deployment_id
deployment_available (some states) answers now d =
    replied (is_routable (get states d.ref.deployment_id) now)

-- The loop that returns the first deployment that is available.
unfoldable pub first_available : {T : Type 0} → (T → Answer Bool) → List T → Outcome T → Outcome T
first_available is_up [] otherwise = otherwise
first_available is_up (d ∷ ds) otherwise =
    let later = first_available is_up ds otherwise in
    elim (is_up d) [
      | replied available ↦ if available then returns d else later
      | failing f ↦ raises f
      | crashing e ↦ crashes e
    ]

-- The loop over the deployments that are not preferred.
unfoldable pub select_other :
    (RegisteredDeployment → Answer Bool)
    → (RegisteredDeployment → Bool)
    → List RegisteredDeployment
    → Outcome RegisteredDeployment
select_other is_up is_preferred ds =
    first_available is_up (filter (λ d. not (is_preferred d)) ds) (raises no_available_engine)

unfoldable pub select_preferred :
    (RegisteredDeployment → Answer Bool)
    → String
    → List RegisteredDeployment
    → Outcome RegisteredDeployment
unfolding select_other
select_preferred is_up preferred ds =
    if is_empty (filter (is_on preferred) ds)
    then raises unknown_preference
    else first_available is_up (filter (is_on preferred) ds)
        (select_other is_up (is_on preferred) ds)

-- `select_deployment`; an empty preference is on no engine's name.
unfoldable pub select_deployment :
    InferenceRouter → (String → Answer Bool) → ℕ → Option String → Outcome RegisteredDeployment
unfolding select_preferred select_other
select_deployment router answers now preferred = elim router.registry [
  | engines es ↦ crashes type_error
  | deployments registry ↦
      let ds = all_deployments registry in
      let is_up = deployment_available router.runtime_states answers now in
      elim preferred [
        | none ↦ select_other is_up (λ d. false) ds
        | some name ↦ select_preferred is_up name ds
      ]
]

-- `deployments = preferred + [item for item in deployments if item not in preferred]`; equal
-- deployments have the same engine.
unfoldable pub prefer : String → List RegisteredDeployment → List RegisteredDeployment
prefer name ds = filter (is_on name) ds ++ filter (λ d. not (is_on name d)) ds

unfoldable pub is_eligible : ℕ → InferenceTask → RegisteredDeployment → Bool
is_eligible now task d = (evaluate_capabilities now task d.capabilities).eligible

unfoldable pub public_rejection : String → ConstraintRejection → PublicRejection
public_rejection deployment_id r = record {
  deployment_id = deployment_id;
  code = r.code;
  requirement = r.requirement;
  reason = reason_text r.reason;
}

unfoldable pub public_rejections :
    ℕ → InferenceTask → List RegisteredDeployment → List PublicRejection
unfolding public_rejection
public_rejections now task [] = []
public_rejections now task (d ∷ ds) =
    map (public_rejection d.ref.deployment_id)
      (evaluate_capabilities now task d.capabilities).rejections
    ++ public_rejections now task ds

unfoldable pub policy_runtime : Option RuntimeStateStore → ℕ → String → Option PolicyRuntime
policy_runtime none now deployment_id = none
policy_runtime (some states) now deployment_id =
    let state = get states deployment_id in
    some (record {
      routable = is_routable state now;
      fresh = not (is_stale state now);
      recent_failure_rate = state.summary.recent_failure_rate;
      capacity_available = is_available state.capacity;
    })

-- `enumerate(eligible)`, from an index on.
unfoldable pub policy_candidates :
    Option RuntimeStateStore → ℕ → ℕ → List RegisteredDeployment → List PolicyCandidate
unfolding policy_runtime
policy_candidates states now index [] = []
policy_candidates states now index (d ∷ ds) =
    record {
      deployment_id = d.ref.deployment_id;
      engine_name = d.engine.name;
      registration_index = index;
      capabilities = d.capabilities;
      profile = d.policy_profile;
      runtime = policy_runtime states now d.ref.deployment_id;
    }
    ∷ policy_candidates states now (suc index) ds

-- `{item.ref.deployment_id: item for item in eligible}`
unfoldable pub deployments_by_id :
    List RegisteredDeployment → Dict RegisteredDeployment → Dict RegisteredDeployment
deployments_by_id [] d = d
deployments_by_id (x ∷ xs) d = deployments_by_id xs (insert x.ref.deployment_id x d)

-- `[by_id[deployment_id] for deployment_id in ...]`
unfoldable pub pick_all :
    Dict RegisteredDeployment → List String → Result (List RegisteredDeployment)
pick_all by_id [] = ok []
pick_all by_id (i ∷ is) = do
  d ← or_raise (lookup i by_id) key_error
  ds ← pick_all by_id is
  ok (d ∷ ds)

-- The part of `_ordered_deployments` after the eligible ones are known.
unfoldable pub order_eligible :
    Option RuntimeStateStore
    → ℕ
    → InferenceTask
    → Option String
    → List RegisteredDeployment
    → Result (List RegisteredDeployment × RoutingDecision)
unfolding policy_candidates deployments_by_id pick_all
order_eligible states now task preferred eligible = do
  decision ← rank_candidates task (policy_candidates states now 0 eligible) preferred
  ordered ← pick_all (deployments_by_id eligible []) decision.ordered_deployment_ids
  ok (ordered, decision)

unfoldable pub as_outcome : {T : Type 0} → Result T → Outcome T
as_outcome (ok value) = returns value
as_outcome (err e) = crashes e

unfoldable pub order_all :
    Option RuntimeStateStore
    → ℕ
    → InferenceTask
    → Option String
    → List RegisteredDeployment
    → Outcome (List RegisteredDeployment × RoutingDecision)
unfolding as_outcome order_eligible is_eligible public_rejections
order_all states now task preferred ds =
    if is_empty (filter (is_eligible now task) ds)
    then raises (record {
      kind = capability_mismatch;
      deployment_id = none;
      attempt_id = none;
      context = record no_context { rejections = some (public_rejections now task ds) };
    })
    else as_outcome (order_eligible states now task preferred (filter (is_eligible now task) ds))

-- `_ordered_deployments`
unfoldable pub ordered_deployments :
    Option RuntimeStateStore
    → ℕ
    → InferenceTask
    → Option String
    → List RegisteredDeployment
    → Outcome (List RegisteredDeployment × RoutingDecision)
unfolding order_all prefer
ordered_deployments states now task none ds = order_all states now task none ds
ordered_deployments states now task (some name) ds =
    if is_empty (filter (is_on name) ds)
    then raises unknown_preference
    else order_all states now task (some name) (prefer name ds)
