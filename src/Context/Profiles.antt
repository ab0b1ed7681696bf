-- ===== src/Context/Profiles.antt =====
-- backend/context/contracts.py: profiles of a preparation, counts of tokens, and prepared contexts.
use ryuk.Prelude.{ℕ, String, ◌+◌, Option, none, some, List, [], ◌∷◌, ltb, leb}
use ryuk.Prelude.Result.{Check, ok, raise_if, value_error, ◌>>◌}
use ryuk.Inference.Contracts.{ChatMessage}
use ryuk.Context.Contracts.{identifier, check_all}

pub data TokenCountMethod : Type 0 where
  exact estimated : TokenCountMethod

pub data CountConfidence : Type 0 where
  high medium low : CountConfidence

pub data ContextCapacityEvidence : Type 0 where
  advertised contract_tested verified : ContextCapacityEvidence

pub record ContextPreparationProfile : Type 0 where
  pub profile_id : String
  pub profile_revision : String
  pub model_id : String
  pub model_revision : Option String
  pub max_context_tokens : ℕ
  pub reserved_output_tokens : ℕ
  pub safety_margin_tokens : ℕ
  pub capacity_evidence : ContextCapacityEvidence
  pub capacity_evidence_ref : String
  pub counter_id : String
  pub counter_revision : String
  pub template_id : String
  pub template_revision : String

unfoldable pub optional_identifier : Option String → Check
unfolding identifier
optional_identifier none = ok tt
optional_identifier (some value) = identifier value

-- `ContextPreparationProfile.__post_init__`
unfoldable pub check_preparation_profile : ContextPreparationProfile → Check
unfolding check_all optional_identifier
check_preparation_profile p = do
  check_all (
      p.profile_id ∷ p.profile_revision ∷ p.model_id ∷ p.counter_id ∷ p.counter_revision
      ∷ p.template_id ∷ p.template_revision ∷ p.capacity_evidence_ref ∷ [])
  optional_identifier p.model_revision
  raise_if (ltb p.max_context_tokens 1) value_error
  raise_if (ltb p.reserved_output_tokens 1) value_error
  raise_if (leb p.max_context_tokens (p.reserved_output_tokens + p.safety_margin_tokens))
      value_error

pub record TokenCount : Type 0 where
  pub tokens : ℕ
  pub method : TokenCountMethod
  pub confidence : CountConfidence
  pub counter_id : String
  pub counter_revision : String
  pub template_id : String
  pub template_revision : String

pub data ExclusionReason : Type 0 where
  duplicate over_budget : ExclusionReason

pub record ExcludedContextSource : Type 0 where
  pub source_id : String
  pub source_revision : String
  pub reason : ExclusionReason
  pub duplicate_of : Option String

pub record PreparedContext : Type 0 where
  pub chat : List ChatMessage
  pub profile : ContextPreparationProfile
  pub input_tokens : ℕ
  pub total_reserved_tokens : ℕ
  pub count_method : TokenCountMethod
  pub count_confidence : CountConfidence
  pub included_source_ids : List String
  pub included_source_revisions : List (String × String)
  pub excluded_sources : List ExcludedContextSource
  pub payload_sha256 : String
