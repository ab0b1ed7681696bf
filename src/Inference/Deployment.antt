-- ===== src/Inference/Deployment.antt =====
-- backend/inference/deployment.py: the identities of models and deployments, and the assessment of
-- an observed identity. Times of observation are natural numbers.
pub mod Identity
use ryuk.Prelude.{
  ℕ, String, Bool, true, false, not, ◌&&◌, Option, none, some, List, [], ◌∷◌, ◌==◌, is_empty,
  if◌then◌else◌,
}
use ryuk.Prelude.Result.{Result, ok, Check, raise_if, value_error, ◌>>◌}
use ryuk.Prelude.Text.{is_identifier}

unfoldable pub require_identifier : String → Check
unfolding is_identifier
require_identifier value = raise_if (not (is_identifier value)) value_error

unfoldable pub validate_optional_identifier : Option String → Check
validate_optional_identifier none = ok tt
validate_optional_identifier (some value) = require_identifier value

pub data IdentityVerification : Type 0 where
  verified observed_only configured_only unverified mismatch : IdentityVerification

pub record ModelRef : Type 0 where
  pub artifact_id : String
  pub revision : Option String
  pub served_name : Option String

unfoldable pub check_model_ref : ModelRef → Check
check_model_ref m = do
  require_identifier m.artifact_id
  validate_optional_identifier m.revision
  validate_optional_identifier m.served_name

pub record DeploymentRef : Type 0 where
  pub deployment_id : String
  pub model : Option ModelRef
  pub engine_name : String
  pub endpoint_id : String
  pub engine_version : Option String
  pub serving_runtime : Option String

unfoldable pub check_deployment_ref : DeploymentRef → Check
check_deployment_ref d = do
  require_identifier d.deployment_id
  require_identifier d.engine_name
  require_identifier d.endpoint_id
  validate_optional_identifier d.engine_version
  validate_optional_identifier d.serving_runtime

pub record ModelIdentityObservation : Type 0 where
  pub model : ModelRef
  pub observed_at : ℕ
  pub source : String
  pub catalog_only : Bool

unfoldable pub check_observation : ModelIdentityObservation → Check
check_observation o = require_identifier o.source

pub record IdentityAssessment : Type 0 where
  pub status : IdentityVerification
  pub expected : Option ModelRef
  pub observed : Option ModelIdentityObservation
  pub mismatched_fields : List String

unfoldable pub is_mismatch : IdentityVerification → Bool
is_mismatch mismatch = true
is_mismatch _ = false

-- `IdentityAssessment(...)` with `__post_init__`.
unfoldable pub make_assessment : IdentityAssessment → Result IdentityAssessment
make_assessment a = do
  raise_if (is_mismatch a.status && is_empty a.mismatched_fields) value_error
  raise_if (not (is_mismatch a.status) && not (is_empty a.mismatched_fields)) value_error
  ok a

pub record IdentityInspection : Type 0 where
  pub assessment : IdentityAssessment
  pub discovery_error : Option String

-- A name of `("artifact_id", "revision", "served_name")` with its two attributes.
pub record FieldEvidence : Type 0 where
  pub name : String
  pub expected : Option String
  pub observed : Option String

unfoldable pub evidence_of : ModelRef → ModelRef → List FieldEvidence
evidence_of expected observed =
    record {
      name = "artifact_id";
      expected = some expected.artifact_id;
      observed = some observed.artifact_id;
    }
    ∷ record { name = "revision"; expected = expected.revision; observed = observed.revision }
    ∷ record {
      name = "served_name";
      expected = expected.served_name;
      observed = observed.served_name;
    }
    ∷ []

-- The loop's locals `mismatches` and `missing_evidence`.
pub record Comparison : Type 0 where
  pub mismatches : List String
  pub missing_evidence : Bool

unfoldable pub compare_values : String → Option String → Option String → Comparison → Comparison
compare_values name none observed c = c
compare_values name (some e) none c = record c { missing_evidence = true }
compare_values name (some e) (some o) c =
    if o == e then c else record c { mismatches = name ∷ c.mismatches }

unfoldable pub compare_fields : List FieldEvidence → Comparison
compare_fields [] = record { mismatches = []; missing_evidence = false }
compare_fields (f ∷ fs) = compare_values f.name f.expected f.observed (compare_fields fs)

unfoldable pub matching_status : Comparison → Bool → IdentityVerification
matching_status c catalog_only =
    if c.missing_evidence
    then configured_only
    else (if catalog_only then observed_only else verified)

unfoldable pub assess_comparison :
    ModelRef → ModelIdentityObservation → Comparison → Result IdentityAssessment
assess_comparison expected observed c =
    if is_empty c.mismatches
    then make_assessment (record {
      status = matching_status c observed.catalog_only;
      expected = some expected;
      observed = some observed;
      mismatched_fields = [];
    })
    else make_assessment (record {
      status = mismatch;
      expected = some expected;
      observed = some observed;
      mismatched_fields = c.mismatches;
    })

unfoldable pub assess_model_identity :
    Option ModelRef → Option ModelIdentityObservation → Result IdentityAssessment
assess_model_identity none observed =
    make_assessment
      (record { status = unverified; expected = none; observed = observed; mismatched_fields = [] })
assess_model_identity (some expected) none = make_assessment (record {
  status = configured_only;
  expected = some expected;
  observed = none;
  mismatched_fields = [];
})
assess_model_identity (some expected) (some observed) =
    assess_comparison expected observed (compare_fields (evidence_of expected observed.model))
