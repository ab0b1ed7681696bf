-- ===== src/Inference/Examples.antt =====
-- Runs on concrete deployments of backend/inference, and the theorems at them.
use ryuk.Prelude.{
  ℕ, zero, suc, String, true, false, Option, none, some, List, [], ◌∷◌, ◌≡◌, refl, ◌↔◌, arith, ◌≤◌,
  ◌+◌,
}
use ryuk.Prelude.Int.{pos, ltb_ℤ}
use ryuk.Prelude.Result.{ok}
use ryuk.Prelude.Text.{codes, same_lower}
use ryuk.Inference.Deployment.{
  ModelRef, ModelIdentityObservation, IdentityAssessment, verified, mismatch, assess_model_identity,
  assess_comparison, compare_fields, evidence_of, compare_values, make_assessment, is_mismatch,
}
use ryuk.Inference.Deployment.Identity.{assessed_identity, IsConfirmed, IsConflicting}
use ryuk.Inference.Contracts.{
  InferenceTask, text_input, ExecutionAttempt, failed, succeeded, is_failed, AdapterInferenceResult,
  stop,
}
use ryuk.Inference.Errors.{make_failure, generation_failure}
use ryuk.Inference.Runtime.{init_store, get, record_attempt, is_routable, answered, is_code}
use ryuk.Inference.Runtime.History.{
  Observation, attempted, probed, observe_all, outcomes_of, last_twenty, IsSummaryOf,
  observe_all-last_twenty,
}
use ryuk.Inference.Runtime.Routing.{refused_until_renewed}
use ryuk.Inference.Capabilities.{
  DeploymentCapabilities, no_capabilities, configured_claim, text, evaluate_capabilities,
  rejections_of, require_bool, require_optional, require_context, is_current, require_member,
  has_kind, is_kind, kind_of,
}
use ryuk.Inference.Capabilities.Eligible.{IsMet, eligible-iff-IsMet}
use ryuk.Inference.Policy.{
  RoutingPolicyProfile, unknown_cost, unknown_latency, PolicyCandidate, rank_candidates, score,
  suitability, check_profile,
}
use ryuk.Inference.Policy.Ranking.{ranking, IsRanking}
use ryuk.Inference.Policy.Weights.{preferred_outscores}
use ryuk.Inference.Contracts.{RoutingDecision}
use ryuk.Inference.Registry.{RegisteredDeployment, DeploymentRegistry, replied, failing, Answer}
use ryuk.Inference.Router.{InferenceRouter, deployments, ordered_deployments}
use ryuk.Inference.Router.Pass.{Turn, answers}
use ryuk.Inference.Router.Loop.{
  Start, generate_task, Finished, call_of, run_passes, enough_fuel, first_state,
}
use ryuk.Inference.Router.Loop.Passes.{Runs}
use ryuk.Inference.Router.Loop.Invariant.{IsClosed}
use ryuk.Inference.Router.Loop.Guarantees.{run_passes-attempts, IsTold}
use ryuk.Inference.Router.Loop.Calls.{generate_task-IsAttemptBound, IsAttemptBound}
use ryuk.Inference.Router.Refusals.{ordered_deployments-ends, IsOrderingFor}
use ryuk.Inference.Router.Records.{recorded_attempts}
use ryuk.Inference.Router.Attempt.{failed_attempt, succeeded_attempt}
use ryuk.Inference.Contracts.{
  check_attempt, is_blank, require_text, has_code, lacks_snapshot, is_other_snapshot,
}
use ryuk.Inference.Deployment.{
  check_deployment_ref, require_identifier, validate_optional_identifier,
}
use ryuk.Inference.Attempts.{serialize_attempt, deserialize_attempt}
use ryuk.Inference.Attempts.RoundTrip.{deserialize_attempt-serialize_attempt}
use ryuk.Inference.Registry.{register, get_deployment, find_key, store, is_found}
use ryuk.Inference.Registry.Keys.{register-found, IsKeyedById}
use ryuk.Prelude.Text.{is_identifier, strip, same_codes, lower}
use ryuk.Prelude.{ap, some_inj, if◌then◌else◌}
use Prim.Native.Char.{nul}
use ryuk.Workflows.Budget.{WorkflowBudget}

abbrev llama : ModelRef
llama = record { artifact_id = "meta/llama"; revision = some "r1"; served_name = none }

abbrev seen : String → ModelIdentityObservation
seen revision = record {
  model = record {
    artifact_id = "meta/llama";
    revision = some revision;
    served_name = some "llama";
  };
  observed_at = 5;
  source = "models";
  catalog_only = false;
}

assessed_identity_example :
    (a : IdentityAssessment) × (assess_model_identity (some llama) (some (seen "r2")) ≡ ok a)
    × ((a.status ≡ verified) ↔ IsConfirmed (some llama) (some (seen "r2")))
    × ((a.status ≡ mismatch) ↔ IsConflicting (some llama) (some (seen "r2")))
assessed_identity_example = assessed_identity (some llama) (some (seen "r2"))

abbrev mismatch_of_revision : IdentityAssessment
mismatch_of_revision = record {
  status = mismatch;
  expected = some llama;
  observed = some (seen "r2");
  mismatched_fields = "revision" ∷ [];
}

assessed_revision : assess_model_identity (some llama) (some (seen "r2")) ≡ ok mismatch_of_revision
unfolding assess_model_identity assess_comparison compare_fields evidence_of compare_values
    make_assessment is_mismatch
assessed_revision = refl

abbrev tried : String → Option String → ExecutionAttempt
tried deployment_id code = record {
  attempt_id = "a1";
  sequence = pos 1;
  deployment_id = deployment_id;
  started_at = 0;
  finished_at = 4;
  duration_ms = pos 4;
  outcome = elim code [ none ↦ succeeded | some c ↦ failed ];
  failure_code = code;
  retry_classification = none;
  schema_version = 1;
  configured_deployment = none;
}

abbrev observations : List Observation
observations =
    probed 100 "d1" 10 11 (answered true)
    ∷ attempted (tried "d1" none)
    ∷ attempted (tried "d2" none)
    ∷ attempted (tried "d1" (some "capacity_exceeded"))
    ∷ []

observe_all-last_twenty_example :
    let state = get (observe_all (init_store ("d1" ∷ [])) observations) "d1" in
    IsSummaryOf (last_twenty (outcomes_of "d1" observations)) state.summary
    × (state.summary.attempt_count ≤ 20)
    × (state.summary.failure_count ≤ state.summary.attempt_count)
observe_all-last_twenty_example = observe_all-last_twenty ("d1" ∷ []) observations "d1"

refused_until_renewed_example :
    is_routable
      (get
        (observe_all
          (record_attempt
            (observe_all (init_store ("d1" ∷ [])) observations)
            (tried "d1" (some "capacity_exceeded")))
          (attempted (tried "d2" none) ∷ []))
        "d1")
      20
    ≡ false
unfolding is_failed is_code
refused_until_renewed_example =
    refused_until_renewed ("d1" ∷ []) observations (attempted (tried "d2" none) ∷ [])
      (tried "d1" (some "capacity_exceeded")) 20 refl refl

abbrev serves : String → DeploymentCapabilities
serves model = record no_capabilities {
  task_kinds = some (configured_claim (text ∷ []) "deployment" none);
  served_models = some (configured_claim (model ∷ []) "deployment" none);
  max_context_tokens = some (configured_claim (pos 8000) "deployment" none);
}

abbrev question : InferenceTask
question = record {
  input = text_input "hello";
  generation = record { max_output_tokens = some (pos 10); temperature = pos 700000 };
  requirements = record {
    requested_model = none;
    required_model = some "meta/llama";
    required_context_tokens = some (pos 1000);
    requires_structured_output = false;
    requires_streaming = false;
    required_accelerator = none;
    required_topology = none;
    required_data_location = none;
    production_only = false;
  };
  trace = record { request_id = "r1"; traceparent = none };
  deadline_at = none;
}

eligible-iff-IsMet_example :
    ((evaluate_capabilities 0 question (serves "meta/llama")).eligible ≡ true)
    ↔ IsMet 0 question (serves "meta/llama")
eligible-iff-IsMet_example = eligible-iff-IsMet 0 question (serves "meta/llama")

is_eligible_here : (evaluate_capabilities 0 question (serves "meta/llama")).eligible ≡ true
unfolding evaluate_capabilities rejections_of require_bool require_optional require_context
    is_current configured_claim require_member has_kind is_kind kind_of
is_eligible_here = refl

abbrev plain : RoutingPolicyProfile
plain = record {
  cost_class = unknown_cost;
  latency_class = unknown_latency;
  text_suitability = pos 0;
  chat_suitability = pos 0;
}

abbrev candidate : String → String → ℕ → PolicyCandidate
candidate deployment_id engine index = record {
  deployment_id = deployment_id;
  engine_name = engine;
  registration_index = index;
  capabilities = serves "meta/llama";
  profile = plain;
  runtime = none;
}

abbrev candidates : List PolicyCandidate
candidates = candidate "d1" "sglang" 0 ∷ candidate "d2" "vLLM" 1 ∷ candidate "d3" "sglang" 2 ∷ []

ranking_example :
    (d : RoutingDecision) × (rank_candidates question candidates (some "vllm") ≡ ok d)
    × IsRanking question (some "vllm") candidates d
ranking_example = ranking question (some "vllm") candidates

preferred_outscores_example :
    ltb_ℤ
      (score question (some "vllm") (candidate "d1" "sglang" 0)).total
      (score question (some "vllm") (candidate "d2" "vLLM" 1)).total
    ≡ true
unfolding same_lower suitability kind_of check_profile
preferred_outscores_example =
    preferred_outscores question "vllm" (candidate "d2" "vLLM" 1) (candidate "d1" "sglang" 0) refl
      refl (omega arith) refl

abbrev deployment : String → String → RegisteredDeployment
deployment deployment_id engine = record {
  ref = record {
    deployment_id = deployment_id;
    model = some llama;
    engine_name = engine;
    endpoint_id = "e1";
    engine_version = none;
    serving_runtime = none;
  };
  engine = record { name = engine; discovers_identity = false; is_typed = true };
  capabilities = serves "meta/llama";
  policy_profile = plain;
}

abbrev two_deployments : DeploymentRegistry
two_deployments = (codes "d1", deployment "d1" "sglang") ∷ (codes "d2", deployment "d2" "vllm") ∷ []

abbrev router : InferenceRouter
router = record {
  registry = deployments two_deployments;
  policy = record { max_attempts = 3; default_deadline = 1000; backoff = 0 ∷ [] };
  circuit_open_deployment_ids = [];
  runtime_states = none;
}

abbrev spent : WorkflowBudget
spent = record {
  deadline_ms = 5000;
  max_attempts = 4;
  max_output_tokens = some 100;
  started = 0;
  attempts = 1;
  output_tokens = 0;
}

abbrev answer : AdapterInferenceResult
answer = record {
  output = "hi";
  finish_reason = stop;
  usage = record { input_tokens = some (pos 3); output_tokens = some (pos 2) };
  timing = record { total_ms = none };
  adapter_metadata = "{}";
  reasoning = none;
}

-- The first deployment fails, and the second one answers.
abbrev service_at : ℕ → Answer AdapterInferenceResult
service_at zero = failing (make_failure generation_failure none none)
service_at (suc n) = replied answer

abbrev turn_at : ℕ → Turn
turn_at n = record {
  wall = 0;
  checked_at = 1;
  availability = answers (replied true);
  reserved_at = 2;
  attempt_id = "a1";
  executed_at = 3;
  service = answers (record {
    discovery = replied (seen "r1");
    typed = service_at n;
    legacy = failing (make_failure generation_failure none none);
  });
  timing = record { started_at = 2; finished_at = 4; duration_ms = 2 };
  backed_off_at = 5;
}

abbrev started : Start
started = record { wall = 0; monotonic = 0 }

generate_task-IsAttemptBound_example :
    IsAttemptBound router question
      (some spent)
      started
      (generate_task router question (some "sglang") (some spent) started turn_at)
generate_task-IsAttemptBound_example =
    generate_task-IsAttemptBound router question (some "sglang") (some spent) started turn_at

abbrev finished : Finished
finished = generate_task router question (some "sglang") (some spent) started turn_at

run_passes-attempts_example :
    let call = call_of router question started (record {
      policy_version = "ryuk-deterministic-v1";
      ordered_deployment_ids = [];
      candidates = [];
    }) in
    let queue = deployment "d1" "sglang" ∷ deployment "d2" "vllm" ∷ [] in
    let end =
      run_passes (enough_fuel call queue) call turn_at 0 (first_state queue (some spent) none) in
    Runs call turn_at 0 (first_state queue (some spent) none) end
    × IsClosed call queue (some spent) end.last
    × IsTold call turn_at end.outcome end.last
run_passes-attempts_example =
    run_passes-attempts
      (call_of router question started (record {
        policy_version = "ryuk-deterministic-v1";
        ordered_deployment_ids = [];
        candidates = [];
      }))
      turn_at (deployment "d1" "sglang" ∷ deployment "d2" "vllm" ∷ []) (some spent) none

ordered_deployments-ends_example :
    IsOrderingFor 0 question (deployment "d1" "sglang" ∷ deployment "d2" "vllm" ∷ []) (some "nim") (
      ordered_deployments none 0 question
        (some "nim")
        (deployment "d1" "sglang" ∷ deployment "d2" "vllm" ∷ []))
ordered_deployments-ends_example =
    ordered_deployments-ends none 0 question (some "nim")
      (deployment "d1" "sglang" ∷ deployment "d2" "vllm" ∷ [])

recorded_attempts_example :
    (check_attempt (
        failed_attempt "a1"
          (0 + 1)
          (deployment "d1" "sglang")
          (turn_at 0).timing
          generation_failure)
      ≡ ok tt)
    × (check_attempt (succeeded_attempt "a1" (0 + 1) (deployment "d1" "sglang") (turn_at 0).timing)
        ≡ ok tt)
unfolding is_blank check_deployment_ref is_identifier strip same_codes require_identifier
    validate_optional_identifier
recorded_attempts_example =
    recorded_attempts "a1" 0 (deployment "d1" "sglang") (turn_at 0).timing generation_failure refl
      refl

-- Texts of times, with one character for each tick.
abbrev iso : ℕ → String
iso zero = String.[]
iso (suc n) = String.◌∷◌ nul (iso n)

abbrev ticks : String → ℕ
ticks String.[] = 0
ticks (String.◌∷◌ c s) = suc (ticks s)

ticks-iso : (n : ℕ) → some (ticks (iso n)) ≡ some n
ticks-iso zero = refl
ticks-iso (suc n) = ap some (ap suc (some_inj (ticks-iso n)))

deserialize_attempt-serialize_attempt_example :
    deserialize_attempt iso
      (λ s. some (ticks s))
      (serialize_attempt iso (λ s. some (ticks s)) (tried "d1" none))
    ≡ ok (tried "d1" none)
unfolding check_attempt require_text is_blank strip same_codes is_failed has_code lacks_snapshot
    is_other_snapshot
deserialize_attempt-serialize_attempt_example =
    deserialize_attempt-serialize_attempt iso (λ s. some (ticks s)) (tried "d1" none) ticks-iso refl
      tt

register-found_example :
    IsKeyedById two_deployments
    × (get_deployment " D2 " two_deployments ≡ (
        if same_codes (lower (codes "d2")) (lower (strip (codes " D2 ")))
        then ok (deployment "d2" "vllm")
        else get_deployment " D2 " ((codes "d1", deployment "d1" "sglang") ∷ [])))
unfolding register find_key store lower is_found same_codes
register-found_example =
    register-found (deployment "d2" "vllm") " D2 " ((codes "d1", deployment "d1" "sglang") ∷ [])
      two_deployments (refl, refl, tt) refl
