-- ===== src/Inference/Errors.antt =====
-- backend/inference/errors.py: the failures of inference, with their codes, statuses and retries.
use ryuk.Prelude.{ℕ, String, Bool, true, false, Option, none, List}
use ryuk.Inference.Contracts.{ExecutionAttempt, RoutingDecision}

pub data RetryClassification : Type 0 where
  never same_deployment other_deployment : RetryClassification

-- The value of the `StrEnum`.
unfoldable pub retry_text : RetryClassification → String
retry_text never = "never"
retry_text same_deployment = "same_deployment"
retry_text other_deployment = "other_deployment"

-- The classes of the file; `adapter_failure` is a subclass of an adapter's own, with its class
-- attributes `code` and `retry`.
pub data FailureKind : Type 0 where
  inference_failure configuration_failure identity_mismatch : FailureKind
  deployment_unavailable unsupported_task capability_mismatch : FailureKind
  capacity_exceeded deadline_exceeded asynchronous_result_pending : FailureKind
  workflow_budget_exceeded upstream_protocol_failure generation_failure : FailureKind
  cancelled unknown_engine_preference : FailureKind
  adapter_failure : String → RetryClassification → FailureKind

unfoldable pub failure_code_of : FailureKind → String
failure_code_of inference_failure = "inference_failure"
failure_code_of configuration_failure = "configuration_failure"
failure_code_of identity_mismatch = "identity_mismatch"
failure_code_of deployment_unavailable = "deployment_unavailable"
failure_code_of unsupported_task = "unsupported_task"
failure_code_of capability_mismatch = "capability_mismatch"
failure_code_of capacity_exceeded = "capacity_exceeded"
failure_code_of deadline_exceeded = "deadline_exceeded"
failure_code_of asynchronous_result_pending = "asynchronous_result_pending"
failure_code_of workflow_budget_exceeded = "workflow_budget_exceeded"
failure_code_of upstream_protocol_failure = "upstream_protocol_failure"
failure_code_of generation_failure = "generation_failure"
failure_code_of cancelled = "cancelled"
failure_code_of unknown_engine_preference = "unknown_engine_preference"
failure_code_of (adapter_failure code retry) = code

-- `WorkflowBudgetExceededFailure` inherits its retry from `DeadlineExceededFailure`.
unfoldable pub retry_of : FailureKind → RetryClassification
retry_of identity_mismatch = other_deployment
retry_of deployment_unavailable = other_deployment
retry_of capacity_exceeded = other_deployment
retry_of deadline_exceeded = other_deployment
retry_of workflow_budget_exceeded = other_deployment
retry_of upstream_protocol_failure = other_deployment
retry_of generation_failure = other_deployment
retry_of (adapter_failure code retry) = retry
retry_of _ = never

unfoldable pub http_status : FailureKind → ℕ
http_status identity_mismatch = 503
http_status deployment_unavailable = 503
http_status unsupported_task = 422
http_status capability_mismatch = 422
http_status capacity_exceeded = 503
http_status deadline_exceeded = 504
http_status asynchronous_result_pending = 503
http_status workflow_budget_exceeded = 504
http_status upstream_protocol_failure = 502
http_status generation_failure = 502
http_status cancelled = 499
http_status unknown_engine_preference = 400
http_status _ = 500

unfoldable pub public_message : FailureKind → String
public_message configuration_failure = "Inference service configuration is invalid."
public_message identity_mismatch = "The deployment model identity does not match configuration."
public_message deployment_unavailable = "No inference deployment is currently available."
public_message unsupported_task = "The selected deployment does not support this task."
public_message capability_mismatch = "No deployment satisfies the task requirements."
public_message capacity_exceeded = "The inference deployment has no available capacity."
public_message deadline_exceeded = "The inference deadline was exceeded."
public_message asynchronous_result_pending =
    "Inference was accepted asynchronously and remains pending."
public_message workflow_budget_exceeded = "The workflow execution budget was exceeded."
public_message upstream_protocol_failure = "The inference deployment returned an invalid response."
public_message generation_failure = "The inference deployment failed to generate a result."
public_message cancelled = "Inference was cancelled."
public_message unknown_engine_preference = "The requested inference engine is not registered."
public_message _ = "Inference failed."

unfoldable pub is_retryable : FailureKind → Bool
is_retryable kind = elim (retry_of kind) [
  | never ↦ false
  | same_deployment ↦ true
  | other_deployment ↦ true
]

-- An entry of `context["rejections"]`.
pub record PublicRejection : Type 0 where
  pub deployment_id : String
  pub code : String
  pub requirement : String
  pub reason : String

-- The keys of `context` that the router writes.
pub record FailureContext : Type 0 where
  pub execution_attempts : Option (List ExecutionAttempt)
  pub routing_decision : Option RoutingDecision
  pub rejections : Option (List PublicRejection)
  pub budget_attempts : Option ℕ
  pub budget_output_tokens : Option ℕ
  pub mismatched_fields : Option (List String)

abbrev pub no_context : FailureContext
no_context = record {
  execution_attempts = none;
  routing_decision = none;
  rejections = none;
  budget_attempts = none;
  budget_output_tokens = none;
  mismatched_fields = none;
}

pub record InferenceFailure : Type 0 where
  pub kind : FailureKind
  pub deployment_id : Option String
  pub attempt_id : Option String
  pub context : FailureContext

-- The class called with the keywords given.
unfoldable pub make_failure : FailureKind → Option String → Option String → InferenceFailure
make_failure kind deployment_id attempt_id = record {
  kind = kind;
  deployment_id = deployment_id;
  attempt_id = attempt_id;
  context = no_context;
}

pub record PublicPayload : Type 0 where
  pub code : String
  pub message : String
  pub retryable : Bool
  pub request_id : String
  pub rejections : Option (List PublicRejection)

unfoldable pub public_payload : InferenceFailure → String → PublicPayload
public_payload f request_id = record {
  code = failure_code_of f.kind;
  message = public_message f.kind;
  retryable = is_retryable f.kind;
  request_id = request_id;
  rejections = elim f.kind [ capability_mismatch ↦ f.context.rejections | _ ↦ none ];
}
