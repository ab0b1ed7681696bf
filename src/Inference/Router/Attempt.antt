-- ===== src/Inference/Router/Attempt.antt =====
-- backend/inference/router.py: one attempt to run_passes a task on a deployment, and its record.
use ryuk.Prelude.{
  ℕ, zero, suc, String, ◌+◌, ◌-◌, Bool, true, false, Option, none, some, List, [], ◌∷◌, leb, min,
  if◌then◌else◌, ◌==◌,
}
use ryuk.Prelude.Int.{ℤ, pos}
use ryuk.Prelude.Result.{Result, ok, err, ◌>>◌}
use ryuk.Inference.Deployment.{ModelRef, ModelIdentityObservation, IdentityAssessment, is_mismatch}
use ryuk.Inference.Contracts.{
  InferenceTask, TaskInput, text_input, chat_input, AdapterInferenceResult, ExecutionAttempt,
  succeeded, failed, FinishReason, stop, length_limit, cancelled_early, unknown_reason, TokenUsage,
  check_usage, InferenceTiming, check_timing, DeploymentProvenance,
}
use ryuk.Inference.Errors.{
  FailureKind, make_failure, no_context, failure_code_of, retry_of, retry_text, identity_mismatch,
  unsupported_task,
}
use ryuk.Inference.Registry.{
  RegisteredDeployment, inspect_identity, Answer, replied, failing, crashing,
}
use ryuk.Inference.Router.{Outcome, returns, raises, crashes}
use ryuk.Workflows.Budget.{WorkflowBudget, remaining_ms}

-- `InferenceResponse` of an adapter with the legacy contract; `metadata` is the JSON text, of which
-- `sglang_finish_reason` is read, where it is a text.
pub record InferenceResponse : Type 0 where
  pub text : String
  pub latency_ms : Option ℤ
  pub input_tokens : Option ℤ
  pub output_tokens : Option ℤ
  pub metadata : String
  pub sglang_finish_reason : Option String

unfoldable pub finish_reason_of : Option String → FinishReason
finish_reason_of none = unknown_reason
finish_reason_of (some reason) =
    if reason == "stop"
    then stop
    else (if reason == "length"
        then length_limit
        else (if reason == "cancelled"
            then cancelled_early
            else (if reason == "abort" then cancelled_early else unknown_reason)))

-- `_normalize_legacy_response`
unfoldable pub normalize_legacy_response : InferenceResponse → Result AdapterInferenceResult
unfolding finish_reason_of
normalize_legacy_response r =
    let usage : TokenUsage = record {
      input_tokens = r.input_tokens;
      output_tokens = r.output_tokens;
    } in
    let timing : InferenceTiming = record { total_ms = r.latency_ms } in
    do
      check_usage usage
      check_timing timing
      ok (record {
        output = r.text;
        finish_reason = finish_reason_of r.sglang_finish_reason;
        usage = usage;
        timing = timing;
        adapter_metadata = r.metadata;
        reasoning = none;
      })

-- What the engine answers when it is asked: its identity, and then the task under either contract.
pub record Service : Type 0 where
  pub discovery : Answer ModelIdentityObservation
  pub typed : Answer AdapterInferenceResult
  pub legacy : Answer InferenceResponse

unfoldable pub answer_outcome : {T : Type 0} → Answer T → Outcome T
answer_outcome (replied value) = returns value
answer_outcome (failing f) = raises f
answer_outcome (crashing e) = crashes e

-- `task_to_legacy_request` of backend/inference/compat.py, which takes texts alone.
unfoldable pub accepts_legacy : TaskInput → Bool
accepts_legacy (text_input text) = true
accepts_legacy (chat_input messages) = false

unfoldable pub normalized : Answer InferenceResponse → Outcome AdapterInferenceResult
normalized (replied r) = elim (normalize_legacy_response r) [
  | ok result ↦ returns result
  | err e ↦ crashes e
]
normalized (failing f) = raises f
normalized (crashing e) = crashes e

unfoldable pub generated :
    RegisteredDeployment → InferenceTask → Service → Outcome AdapterInferenceResult
unfolding answer_outcome accepts_legacy normalized
generated d task service =
    if d.engine.is_typed
    then answer_outcome service.typed
    else (if accepts_legacy task.input
        then normalized service.legacy
        else raises (make_failure unsupported_task none none))

-- What came back from `_execute_task`.
abbrev pub Executed : Type 0
Executed = AdapterInferenceResult × IdentityAssessment

unfoldable pub with_identity :
    IdentityAssessment → Outcome AdapterInferenceResult → Outcome Executed
with_identity a (returns result) = returns (result, a)
with_identity a (raises f) = raises f
with_identity a (crashes e) = crashes e

-- `_execute_task`
unfoldable pub execute_task : RegisteredDeployment → InferenceTask → Service → Outcome Executed
unfolding with_identity generated
execute_task d task service = elim (inspect_identity d service.discovery) [
  | err e ↦ crashes e
  | ok inspection ↦
      if is_mismatch inspection.assessment.status
      then raises (record {
        kind = identity_mismatch;
        deployment_id = some d.ref.deployment_id;
        attempt_id = none;
        context = record no_context {
          mismatched_fields = some inspection.assessment.mismatched_fields;
        };
      })
      else with_identity inspection.assessment (generated d task service)
]

-- The time left, of the deadline and of the budget.
unfoldable pub remaining : ℕ → Option WorkflowBudget → ℕ → ℕ
remaining deadline none now = deadline - now
remaining deadline (some budget) now = min (deadline - now) (remaining_ms budget now)

-- `_monotonic_deadline`, at the monotonic time `now` and the wall time `wall`.
unfoldable pub monotonic_deadline : ℕ → ℕ → ℕ → InferenceTask → ℕ
monotonic_deadline default_deadline now wall task = elim task.deadline_at [
  | none ↦ now + default_deadline
  | some deadline_at ↦ now + (deadline_at - wall)
]

-- The delay before the next attempt; the last one serves all further attempts.
unfoldable pub delay_after : ℕ → List ℕ → ℕ
delay_after n [] = 0
delay_after n (delay ∷ []) = delay
delay_after zero (delay ∷ d ∷ ds) = delay
delay_after (suc n) (delay ∷ d ∷ ds) = delay_after n (d ∷ ds)

-- Whether `_backoff` raises, after this many attempts, with this much time left.
unfoldable pub backoff_fails : List ℕ → ℕ → ℕ → Bool
unfolding delay_after
backoff_fails [] attempts time_left = false
backoff_fails (delay ∷ delays) attempts time_left =
    leb time_left (delay_after (attempts - 1) (delay ∷ delays))

-- The clocks of an attempt: the wall at its start and its end, and how long it took.
pub record Timing : Type 0 where
  pub started_at : ℕ
  pub finished_at : ℕ
  pub duration_ms : ℕ

-- `_failed_attempt`
unfoldable pub failed_attempt :
    String → ℕ → RegisteredDeployment → Timing → FailureKind → ExecutionAttempt
failed_attempt attempt_id sequence d timing kind = record {
  attempt_id = attempt_id;
  sequence = pos sequence;
  deployment_id = d.ref.deployment_id;
  started_at = timing.started_at;
  finished_at = timing.finished_at;
  duration_ms = pos timing.duration_ms;
  outcome = failed;
  failure_code = some (failure_code_of kind);
  retry_classification = some (retry_text (retry_of kind));
  schema_version = 2;
  configured_deployment = some d.ref;
}

unfoldable pub succeeded_attempt : String → ℕ → RegisteredDeployment → Timing → ExecutionAttempt
succeeded_attempt attempt_id sequence d timing = record {
  attempt_id = attempt_id;
  sequence = pos sequence;
  deployment_id = d.ref.deployment_id;
  started_at = timing.started_at;
  finished_at = timing.finished_at;
  duration_ms = pos timing.duration_ms;
  outcome = succeeded;
  failure_code = none;
  retry_classification = none;
  schema_version = 2;
  configured_deployment = some d.ref;
}

-- `observed_model or deployment.ref.model`
unfoldable pub effective_model : IdentityAssessment → RegisteredDeployment → Option ModelRef
effective_model a d = elim a.observed [ none ↦ d.ref.model | some o ↦ some o.model ]

unfoldable pub artifact_of : Option ModelRef → Option String
artifact_of none = none
artifact_of (some m) = some m.artifact_id

unfoldable pub revision_of : Option ModelRef → Option String
revision_of none = none
revision_of (some m) = m.revision

-- `_build_provenance`
unfoldable pub build_provenance : RegisteredDeployment → IdentityAssessment → DeploymentProvenance
unfolding effective_model artifact_of revision_of
build_provenance d a = record {
  deployment_id = d.ref.deployment_id;
  engine_name = d.ref.engine_name;
  model_artifact_id = artifact_of (effective_model a d);
  model_revision = revision_of (effective_model a d);
  model_verification = a.status;
  engine_version = d.ref.engine_version;
  serving_runtime = d.ref.serving_runtime;
}
