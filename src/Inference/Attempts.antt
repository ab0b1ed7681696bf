-- ===== src/Inference/Attempts.antt =====
-- backend/inference/attempts.py: attempts as dictionaries, and back. A value of another type than its
-- field's is refused here with a TypeError, wherever Python would find out.
pub mod RoundTrip
use ryuk.Prelude.{
  ℕ, String, Bool, true, false, not, Option, none, some, List, [], ◌∷◌, ◌==◌, ◌≡◌, refl,
  if◌then◌else◌, eqb,
}
use ryuk.Prelude.Int.{ℤ, pos, negsuc}
use ryuk.Prelude.Result.{
  Result, Check, ok, err, or_raise, raise_if, type_error, value_error, key_error, ◌>>=◌, ◌>>◌,
  bind-ok,
}
use ryuk.Prelude.Json.{
  Json, null, number, string, object, Fields, no_fields, field, field_of, has_only, or_null,
  as_text, as_number, as_object, as_optional_text,
}
use ryuk.Inference.Deployment.{ModelRef, DeploymentRef, check_model_ref, check_deployment_ref}
use ryuk.Inference.Contracts.{AttemptOutcome, succeeded, failed, ExecutionAttempt, check_attempt}

-- `asdict` of a `ModelRef`.
unfoldable pub model_fields : ModelRef → Fields
model_fields m =
    field "artifact_id" (string m.artifact_id) (
      field "revision" (or_null m.revision) (field "served_name" (or_null m.served_name) no_fields))

unfoldable pub model_json : Option ModelRef → Json
model_json none = null
model_json (some m) = object (model_fields m)

unfoldable pub deployment_fields : DeploymentRef → Fields
deployment_fields d = field "deployment_id" (string d.deployment_id) (
    field "model" (model_json d.model) (
      field "engine_name" (string d.engine_name) (
        field "endpoint_id" (string d.endpoint_id) (
          field "engine_version" (or_null d.engine_version)
            (field "serving_runtime" (or_null d.serving_runtime) no_fields)))))

unfoldable pub deployment_json : Option DeploymentRef → Json
deployment_json none = null
deployment_json (some d) = object (deployment_fields d)

-- `AttemptOutcome.value` and `AttemptOutcome(value)`.
unfoldable pub outcome_text : AttemptOutcome → String
outcome_text succeeded = "succeeded"
outcome_text failed = "failed"

unfoldable pub outcome_of : String → Result AttemptOutcome
outcome_of s =
    if s == "succeeded"
    then ok succeeded
    else (if s == "failed" then ok failed else err value_error)

-- `ModelRef(**fields["model"])`
unfoldable pub read_model : Fields → Result ModelRef
read_model fs = do
  raise_if (not (has_only ("artifact_id" ∷ "revision" ∷ "served_name" ∷ []) fs)) type_error
  artifact_id ← as_text (field_of "artifact_id" fs)
  revision ← as_optional_text (field_of "revision" fs)
  served_name ← as_optional_text (field_of "served_name" fs)
  let m : ModelRef = record {
    artifact_id = artifact_id;
    revision = revision;
    served_name = served_name;
  }
  check_model_ref m
  ok m

-- The model of a snapshot, which has no default.
unfoldable pub read_optional_model : Option Json → Result (Option ModelRef)
read_optional_model none = err type_error
read_optional_model (some null) = ok none
read_optional_model (some (object fs)) = read_model fs >>= λ m. ok (some m)
read_optional_model _ = err type_error

-- `DeploymentRef(**fields)`
unfoldable pub read_deployment : Fields → Result DeploymentRef
read_deployment fs = do
  model ← read_optional_model (field_of "model" fs)
  raise_if
      (not (
        has_only
          ("deployment_id" ∷ "model" ∷ "engine_name" ∷ "endpoint_id" ∷ "engine_version"
            ∷ "serving_runtime" ∷ [])
          fs))
      type_error
  deployment_id ← as_text (field_of "deployment_id" fs)
  engine_name ← as_text (field_of "engine_name" fs)
  endpoint_id ← as_text (field_of "endpoint_id" fs)
  engine_version ← as_optional_text (field_of "engine_version" fs)
  serving_runtime ← as_optional_text (field_of "serving_runtime" fs)
  let d : DeploymentRef = record {
    deployment_id = deployment_id;
    model = model;
    engine_name = engine_name;
    endpoint_id = endpoint_id;
    engine_version = engine_version;
    serving_runtime = serving_runtime;
  }
  check_deployment_ref d
  ok d

-- `values.get("configured_deployment")`
unfoldable pub read_snapshot : Option Json → Result (Option DeploymentRef)
read_snapshot none = ok none
read_snapshot (some null) = ok none
read_snapshot (some (object fs)) = read_deployment fs >>= λ d. ok (some d)
read_snapshot _ = err type_error

-- `schema_version`, which is 1 where it is missing.
unfoldable pub read_version : Option Json → Result ℕ
read_version none = ok 1
read_version (some (number (pos n))) = ok n
read_version (some (number (negsuc n))) = err value_error
read_version _ = err type_error

abbrev pub attempt_keys : List String
attempt_keys =
    "attempt_id" ∷ "sequence" ∷ "deployment_id" ∷ "started_at" ∷ "finished_at" ∷ "duration_ms"
    ∷ "outcome" ∷ "failure_code" ∷ "retry_classification" ∷ "schema_version"
    ∷ "configured_deployment" ∷ []

-- `values[key]`, as a text.
unfoldable pub text_at : String → Fields → Result String
text_at key fs = do v ← or_raise (field_of key fs) key_error; as_text (some v)

-- Python's ISO texts of times: `isoformat` and `fromisoformat`.
module _ (isoformat : ℕ → String) (fromisoformat : String → Option ℕ) where
  unfoldable pub serialize_attempt : ExecutionAttempt → Fields
  unfolding deployment_json outcome_text
  serialize_attempt a = field "attempt_id" (string a.attempt_id) (
      field "sequence" (number a.sequence) (
        field "deployment_id" (string a.deployment_id) (
          field "started_at" (string (isoformat a.started_at)) (
            field "finished_at" (string (isoformat a.finished_at)) (
              field "duration_ms" (number a.duration_ms) (
                field "outcome" (string (outcome_text a.outcome)) (
                  field "failure_code" (or_null a.failure_code) (
                    field "retry_classification" (or_null a.retry_classification) (
                      field "schema_version" (number (pos a.schema_version)) (
                        field "configured_deployment" (deployment_json a.configured_deployment)
                          no_fields))))))))))

  unfoldable pub time_at : String → Fields → Result ℕ
  unfolding text_at
  time_at key fs = do s ← text_at key fs; or_raise (fromisoformat s) value_error

  unfoldable pub deserialize_attempt : Fields → Result ExecutionAttempt
  unfolding time_at outcome_of read_snapshot read_version
  deserialize_attempt fs = do
    started_at ← time_at "started_at" fs
    finished_at ← time_at "finished_at" fs
    outcome_value ← text_at "outcome" fs
    outcome ← outcome_of outcome_value
    snapshot ← read_snapshot (field_of "configured_deployment" fs)
    raise_if (not (has_only attempt_keys fs)) type_error
    attempt_id ← as_text (field_of "attempt_id" fs)
    sequence ← as_number (field_of "sequence" fs)
    deployment_id ← as_text (field_of "deployment_id" fs)
    duration_ms ← as_number (field_of "duration_ms" fs)
    failure_code ← as_optional_text (field_of "failure_code" fs)
    retry ← as_optional_text (field_of "retry_classification" fs)
    version ← read_version (field_of "schema_version" fs)
    let a : ExecutionAttempt = record {
      attempt_id = attempt_id;
      sequence = sequence;
      deployment_id = deployment_id;
      started_at = started_at;
      finished_at = finished_at;
      duration_ms = duration_ms;
      outcome = outcome;
      failure_code = failure_code;
      retry_classification = retry;
      schema_version = version;
      configured_deployment = snapshot;
    }
    check_attempt a
    ok a
