-- ===== src/Inference/Attempts/RoundTrip.antt =====
-- An attempt of backend/inference/attempts.py is read back as it was written.
use ryuk.Prelude.{ℕ, String, Option, none, some, ◌≡◌, refl}
use ryuk.Prelude.Result.{ok}
use ryuk.Prelude.Json.{field_of, has_only, or_null, as_text, as_number, as_optional_text}
use ryuk.Inference.Deployment.{ModelRef, DeploymentRef, check_model_ref, check_deployment_ref}
use ryuk.Inference.Contracts.{AttemptOutcome, succeeded, failed, ExecutionAttempt, check_attempt}
use ryuk.Inference.Attempts.{
  model_fields, model_json, deployment_fields, deployment_json, outcome_text, outcome_of,
  read_model, read_optional_model, read_deployment, read_snapshot, read_version, text_at, time_at,
  serialize_attempt, deserialize_attempt,
}

as_optional_text-or_null : (o : Option String) → as_optional_text (some (or_null o)) ≡ ok o
unfolding as_optional_text or_null
as_optional_text-or_null none = refl
as_optional_text-or_null (some s) = refl

outcome_of-outcome_text : (o : AttemptOutcome) → outcome_of (outcome_text o) ≡ ok o
unfolding outcome_of outcome_text
outcome_of-outcome_text succeeded = refl
outcome_of-outcome_text failed = refl

read_model-model_fields :
    (m : ModelRef) → check_model_ref m ≡ ok tt → read_model (model_fields m) ≡ ok m
unfolding read_model model_fields field_of has_only as_text
read_model-model_fields m h =
    rw (as_optional_text-or_null m.revision, as_optional_text-or_null m.served_name, h) refl

-- The model of a snapshot passes its check, if there is one.
abbrev pub IsCheckedModel : Option ModelRef → Type 0
IsCheckedModel none = Unit
IsCheckedModel (some m) = check_model_ref m ≡ ok tt

abbrev pub IsCheckedSnapshot : Option DeploymentRef → Type 0
IsCheckedSnapshot none = Unit
IsCheckedSnapshot (some d) = (check_deployment_ref d ≡ ok tt) × IsCheckedModel d.model

read_optional_model-model_json :
    (o : Option ModelRef) → IsCheckedModel o → read_optional_model (some (model_json o)) ≡ ok o
unfolding read_optional_model model_json
read_optional_model-model_json none h = refl
read_optional_model-model_json (some m) h = rw (read_model-model_fields m h) refl

read_deployment-deployment_fields :
    (d : DeploymentRef)
    → check_deployment_ref d ≡ ok tt
    → IsCheckedModel d.model
    → read_deployment (deployment_fields d) ≡ ok d
unfolding read_deployment deployment_fields field_of has_only as_text
read_deployment-deployment_fields d h model =
    rw
      (
        read_optional_model-model_json d.model model,
        as_optional_text-or_null d.engine_version,
        as_optional_text-or_null d.serving_runtime,
        h,
      )
      refl

read_snapshot-deployment_json :
    (o : Option DeploymentRef)
    → IsCheckedSnapshot o
    → read_snapshot (some (deployment_json o)) ≡ ok o
unfolding read_snapshot deployment_json
read_snapshot-deployment_json none h = refl
read_snapshot-deployment_json (some d) h = rw (read_deployment-deployment_fields d h.0 h.1) refl

-- An attempt that passes its checks, with a snapshot that passes its own, is read back from the
-- dictionary that it is written to, as long as times are read back from their ISO texts.
pub deserialize_attempt-serialize_attempt :
    (isoformat : ℕ → String) (fromisoformat : String → Option ℕ) (a : ExecutionAttempt)
    → ((t : ℕ) → fromisoformat (isoformat t) ≡ some t)
    → check_attempt a ≡ ok tt
    → IsCheckedSnapshot a.configured_deployment
    → deserialize_attempt isoformat fromisoformat (serialize_attempt isoformat fromisoformat a)
      ≡ ok a
unfolding deserialize_attempt serialize_attempt field_of has_only as_text as_number read_version
    text_at time_at
deserialize_attempt-serialize_attempt isoformat fromisoformat a iso h snapshot =
    rw
      (
        iso a.started_at,
        iso a.finished_at,
        outcome_of-outcome_text a.outcome,
        read_snapshot-deployment_json a.configured_deployment snapshot,
        as_optional_text-or_null a.failure_code,
        as_optional_text-or_null a.retry_classification,
        h,
      )
      refl
