-- ===== src/Inference/Contracts.antt =====
-- backend/inference/contracts.py: tasks, their requirements, attempts and results. Temperatures are in
-- millionths and durations in milliseconds; the times have their zone by being numbers.
use ryuk.Prelude.{
  ℕ, String, Bool, true, false, not, ◌&&◌, ◌||◌, Option, none, some, List, [], ◌∷◌, ◌==◌, is_empty,
  eqb,
}
use ryuk.Prelude.Int.{ℤ, pos, ltb_ℤ}
use ryuk.Prelude.Result.{Check, ok, raise_if, value_error, ◌>>◌}
use ryuk.Prelude.Text.{codes, strip, same_codes}
use ryuk.Inference.Deployment.{DeploymentRef, IdentityVerification}

-- `not value or not value.strip()`
unfoldable pub is_blank : String → Bool
unfolding strip same_codes
is_blank value = same_codes (strip (codes value)) []

unfoldable pub require_text : String → Check
unfolding is_blank
require_text value = raise_if (is_blank value) value_error

unfoldable pub require_optional_text : Option String → Check
require_optional_text none = ok tt
require_optional_text (some value) = require_text value

pub data ChatRole : Type 0 where
  system user assistant : ChatRole

pub record ChatMessage : Type 0 where
  pub role : ChatRole
  pub content : String

-- `TextInput | ChatInput`
pub data TaskInput : Type 0 where
  text_input : String → TaskInput
  chat_input : List ChatMessage → TaskInput

unfoldable pub check_messages : List ChatMessage → Check
check_messages [] = ok tt
check_messages (m ∷ ms) = do require_text m.content; check_messages ms

-- The checks of `TextInput`, `ChatMessage` and `ChatInput`.
unfoldable pub check_input : TaskInput → Check
check_input (text_input text) = require_text text
check_input (chat_input messages) = do
  check_messages messages
  raise_if (is_empty messages) value_error

-- A given number that is below the bound.
unfoldable pub is_below : Option ℤ → ℕ → Bool
is_below none bound = false
is_below (some n) bound = ltb_ℤ n (pos bound)

pub record GenerationConfig : Type 0 where
  pub max_output_tokens : Option ℤ
  pub temperature : ℤ

unfoldable pub check_generation : GenerationConfig → Check
unfolding is_below
check_generation g = do
  raise_if (is_below g.max_output_tokens 1) value_error
  raise_if (ltb_ℤ g.temperature (pos 0) || ltb_ℤ (pos 2000000) g.temperature) value_error

pub record RoutingRequirements : Type 0 where
  pub requested_model : Option String
  pub required_model : Option String
  pub required_context_tokens : Option ℤ
  pub requires_structured_output : Bool
  pub requires_streaming : Bool
  pub required_accelerator : Option String
  pub required_topology : Option String
  pub required_data_location : Option String
  pub production_only : Bool

unfoldable pub check_requirements : RoutingRequirements → Check
unfolding require_optional_text is_below
check_requirements r = do
  require_optional_text r.requested_model
  require_optional_text r.required_model
  raise_if (is_below r.required_context_tokens 1) value_error
  require_optional_text r.required_accelerator
  require_optional_text r.required_topology
  require_optional_text r.required_data_location

pub record TraceContext : Type 0 where
  pub request_id : String
  pub traceparent : Option String

unfoldable pub check_trace : TraceContext → Check
check_trace t = require_text t.request_id

pub record InferenceTask : Type 0 where
  pub input : TaskInput
  pub generation : GenerationConfig
  pub requirements : RoutingRequirements
  pub trace : TraceContext
  pub deadline_at : Option ℕ

pub data FinishReason : Type 0 where
  stop length_limit cancelled_early error unknown_reason : FinishReason

pub data AttemptOutcome : Type 0 where
  succeeded failed : AttemptOutcome

unfoldable pub is_failed : AttemptOutcome → Bool
is_failed succeeded = false
is_failed failed = true

pub record ExecutionAttempt : Type 0 where
  pub attempt_id : String
  pub sequence : ℤ
  pub deployment_id : String
  pub started_at : ℕ
  pub finished_at : ℕ
  pub duration_ms : ℤ
  pub outcome : AttemptOutcome
  pub failure_code : Option String
  pub retry_classification : Option String
  pub schema_version : ℕ
  pub configured_deployment : Option DeploymentRef

unfoldable pub lacks_snapshot : Option DeploymentRef → Bool
lacks_snapshot none = true
lacks_snapshot (some ref) = false

unfoldable pub is_other_snapshot : Option DeploymentRef → String → Bool
is_other_snapshot none deployment_id = false
is_other_snapshot (some ref) deployment_id = not (ref.deployment_id == deployment_id)

unfoldable pub has_code : Option String → Bool
has_code none = false
has_code (some code) = true

-- `ExecutionAttempt.__post_init__`
unfoldable pub check_attempt : ExecutionAttempt → Check
unfolding lacks_snapshot is_other_snapshot has_code is_failed
check_attempt a = do
  require_text a.attempt_id
  require_text a.deployment_id
  raise_if (not (eqb a.schema_version 1 || eqb a.schema_version 2)) value_error
  raise_if (eqb a.schema_version 2 && lacks_snapshot a.configured_deployment) value_error
  raise_if (is_other_snapshot a.configured_deployment a.deployment_id) value_error
  raise_if (ltb_ℤ a.sequence (pos 1)) value_error
  raise_if (ltb_ℤ a.duration_ms (pos 0)) value_error
  raise_if (not (is_failed a.outcome) && has_code a.failure_code) value_error
  raise_if (is_failed a.outcome && not (has_code a.failure_code)) value_error

pub record TokenUsage : Type 0 where
  pub input_tokens : Option ℤ
  pub output_tokens : Option ℤ

unfoldable pub check_usage : TokenUsage → Check
unfolding is_below
check_usage u = do
  raise_if (is_below u.input_tokens 0) value_error
  raise_if (is_below u.output_tokens 0) value_error

pub record InferenceTiming : Type 0 where
  pub total_ms : Option ℤ

unfoldable pub check_timing : InferenceTiming → Check
unfolding is_below
check_timing t = raise_if (is_below t.total_ms 0) value_error

-- `output` and `reasoning` are the texts of `TextOutput` and `ReasoningOutput`; the metadata is the
-- JSON text of the dictionary.
pub record AdapterInferenceResult : Type 0 where
  pub output : String
  pub finish_reason : FinishReason
  pub usage : TokenUsage
  pub timing : InferenceTiming
  pub adapter_metadata : String
  pub reasoning : Option String

pub record RoutingScore : Type 0 where
  pub deployment_id : String
  pub total : ℤ
  pub components : List (String × ℤ)

pub record RoutingDecision : Type 0 where
  pub policy_version : String
  pub ordered_deployment_ids : List String
  pub candidates : List RoutingScore

-- `DeploymentProvenance` of backend/inference/base.py.
pub record DeploymentProvenance : Type 0 where
  pub deployment_id : String
  pub engine_name : String
  pub model_artifact_id : Option String
  pub model_revision : Option String
  pub model_verification : IdentityVerification
  pub engine_version : Option String
  pub serving_runtime : Option String

pub record InferenceResult : Type 0 where
  pub adapter_result : AdapterInferenceResult
  pub provenance : DeploymentProvenance
  pub attempts : List ExecutionAttempt
  pub routing_decision : RoutingDecision
