-- ===== src/Inference/Capabilities.antt =====
-- backend/inference/capabilities.py: claims about a deployment, and the requirements of a task that
-- they meet. One evaluation reads the clock once, at `now`; a confidence is in millionths.
pub mod Eligible
use ryuk.Prelude.{
  ℕ, String, Bool, true, false, not, ◌&&◌, ◌||◌, Option, none, some, List, [], ◌∷◌, ◌++◌, ltb, leb,
  if◌then◌else◌, is_empty, contains,
}
use ryuk.Prelude.Int.{ℤ, pos, ltb_ℤ}
use ryuk.Prelude.Result.{Check, raise_if, value_error, ◌>>◌}
use ryuk.Prelude.Text.{append_text}
use ryuk.Inference.Contracts.{InferenceTask, TaskInput, text_input, chat_input, is_blank}

pub data EvidenceSource : Type 0 where
  declared configured discovered measured : EvidenceSource

pub data TaskKind : Type 0 where
  text chat : TaskKind

unfoldable pub is_kind : TaskKind → TaskKind → Bool
is_kind text text = true
is_kind chat chat = true
is_kind _ _ = false

-- `kind in kinds`
unfoldable pub has_kind : TaskKind → List TaskKind → Bool
has_kind kind [] = false
has_kind kind (k ∷ ks) = is_kind k kind || has_kind kind ks

pub data RejectionReason : Type 0 where
  unknown unsupported mismatched insufficient : RejectionReason

unfoldable pub reason_text : RejectionReason → String
reason_text unknown = "unknown"
reason_text unsupported = "unsupported"
reason_text mismatched = "mismatch"
reason_text insufficient = "insufficient"

pub record CapabilityClaim (T : Type 0) : Type 0 where
  pub value : T
  pub source : EvidenceSource
  pub scope : String
  pub runtime_version : Option String
  pub observed_at : Option ℕ
  pub expires_at : Option ℕ
  pub confidence : ℤ

unfoldable pub is_reversed : Option ℕ → Option ℕ → Bool
is_reversed (some observed_at) (some expires_at) = ltb expires_at observed_at
is_reversed _ _ = false

-- `CapabilityClaim.__post_init__`
unfoldable pub check_claim : {T : Type 0} → CapabilityClaim T → Check
unfolding is_reversed
check_claim c = do
  raise_if (is_blank c.scope) value_error
  raise_if (ltb_ℤ c.confidence (pos 0) || ltb_ℤ (pos 1000000) c.confidence) value_error
  raise_if (is_reversed c.observed_at c.expires_at) value_error

pub record DeploymentCapabilities : Type 0 where
  pub task_kinds : Option (CapabilityClaim (List TaskKind))
  pub served_models : Option (CapabilityClaim (List String))
  pub max_context_tokens : Option (CapabilityClaim ℤ)
  pub structured_output : Option (CapabilityClaim Bool)
  pub streaming : Option (CapabilityClaim Bool)
  pub accelerators : Option (CapabilityClaim (List String))
  pub topologies : Option (CapabilityClaim (List String))
  pub data_locations : Option (CapabilityClaim (List String))
  pub production_eligible : Option (CapabilityClaim Bool)

abbrev pub no_capabilities : DeploymentCapabilities
no_capabilities = record {
  task_kinds = none;
  served_models = none;
  max_context_tokens = none;
  structured_output = none;
  streaming = none;
  accelerators = none;
  topologies = none;
  data_locations = none;
  production_eligible = none;
}

unfoldable pub configured_claim : {T : Type 0} → T → String → Option String → CapabilityClaim T
configured_claim value scope version = record {
  value = value;
  source = configured;
  scope = scope;
  runtime_version = version;
  observed_at = none;
  expires_at = none;
  confidence = pos 1000000;
}

pub record ConstraintRejection : Type 0 where
  pub code : String
  pub requirement : String
  pub reason : RejectionReason

pub record EligibilityDecision : Type 0 where
  pub eligible : Bool
  pub rejections : List ConstraintRejection

unfoldable pub is_unexpired : Option ℕ → ℕ → Bool
is_unexpired none now = true
is_unexpired (some expires_at) now = ltb now expires_at

-- `_current(claim)`
unfoldable pub is_current : {T : Type 0} → Option (CapabilityClaim T) → ℕ → Bool
unfolding is_unexpired
is_current none now = false
is_current (some c) now = is_unexpired c.expires_at now

-- `rejections.append(...)`, whose code is the reason's word before the requirement.
unfoldable pub reject :
    String → String → RejectionReason → List ConstraintRejection → List ConstraintRejection
reject word requirement reason rejections =
    rejections
    ++ (record { code = append_text word requirement; requirement = requirement; reason = reason }
        ∷ [])

unfoldable pub require_member :
    {T : Type 0}
    → (T → List T → Bool)
    → ℕ
    → Bool
    → String
    → T
    → Option (CapabilityClaim (List T))
    → List ConstraintRejection
    → List ConstraintRejection
require_member is_in now mismatch requirement required none rejections =
    reject "unknown_" requirement unknown rejections
require_member is_in now mismatch requirement required (some claim) rejections =
    if not (is_current (some claim) now)
    then reject "unknown_" requirement unknown rejections
    else (if not (is_in required claim.value) && mismatch
        then reject "mismatched_" requirement mismatched rejections
        else (if not (is_in required claim.value)
            then reject "unsupported_" requirement unsupported rejections
            else rejections))

-- `if required is not None: _require_member(...)`
unfoldable pub require_optional :
    ℕ
    → Bool
    → String
    → Option String
    → Option (CapabilityClaim (List String))
    → List ConstraintRejection
    → List ConstraintRejection
require_optional now mismatch requirement none claim rejections = rejections
require_optional now mismatch requirement (some required) claim rejections =
    require_member contains now mismatch requirement required claim rejections

unfoldable pub require_bool :
    ℕ
    → String
    → Bool
    → Option (CapabilityClaim Bool)
    → List ConstraintRejection
    → List ConstraintRejection
require_bool now requirement false claim rejections = rejections
require_bool now requirement true none rejections = reject "unknown_" requirement unknown rejections
require_bool now requirement true (some claim) rejections =
    if not (is_current (some claim) now)
    then reject "unknown_" requirement unknown rejections
    else (if not claim.value
        then reject "unsupported_" requirement unsupported rejections
        else rejections)

unfoldable pub require_context :
    ℕ → Option ℤ → Option (CapabilityClaim ℤ) → List ConstraintRejection → List ConstraintRejection
require_context now none claim rejections = rejections
require_context now (some required) none rejections =
    reject "unknown_" "context_capacity" unknown rejections
require_context now (some required) (some claim) rejections =
    if not (is_current (some claim) now)
    then reject "unknown_" "context_capacity" unknown rejections
    else (if ltb_ℤ claim.value required
        then reject "insufficient_" "context_capacity" insufficient rejections
        else rejections)

unfoldable pub kind_of : TaskInput → TaskKind
kind_of (text_input t) = text
kind_of (chat_input messages) = chat

-- The rejections in the order in which the requirements are looked at.
unfoldable pub rejections_of : ℕ → InferenceTask → DeploymentCapabilities → List ConstraintRejection
rejections_of now task c =
    let r = task.requirements in
    let kinds =
      require_member has_kind now false "task_kind" (kind_of task.input) c.task_kinds [] in
    let models = require_optional now true "served_model" r.required_model c.served_models kinds in
    let contexts = require_context now r.required_context_tokens c.max_context_tokens models in
    let outputs =
      require_bool now "structured_output" r.requires_structured_output c.structured_output
        contexts in
    let streams = require_bool now "streaming" r.requires_streaming c.streaming outputs in
    let accelerated =
      require_optional now false "accelerator" r.required_accelerator c.accelerators streams in
    let topological =
      require_optional now false "topology" r.required_topology c.topologies accelerated in
    let located =
      require_optional now false "data_location" r.required_data_location c.data_locations
        topological in
    require_bool now "production_eligible" r.production_only c.production_eligible located

unfoldable pub evaluate_capabilities :
    ℕ → InferenceTask → DeploymentCapabilities → EligibilityDecision
evaluate_capabilities now task capabilities =
    let rejections = rejections_of now task capabilities in
    record { eligible = is_empty rejections; rejections = rejections }
