-- ===== src/Context/Contracts.antt =====
-- backend/context/contracts.py: principals, records of conversations and sources, and segments.
use ryuk.Prelude.{String, Bool, true, false, not, ◌&&◌, List, [], ◌∷◌, if◌then◌else◌}
use ryuk.Prelude.Int.{ℤ}
use ryuk.Prelude.Result.{Check, ok, raise_if, value_error, ◌>>◌}
use ryuk.Prelude.Text.{is_identifier}
use ryuk.Inference.Contracts.{ChatRole, system, user, assistant, is_blank}

-- `_identifier`
unfoldable pub identifier : String → Check
unfolding is_identifier
identifier value = raise_if (not (is_identifier value)) value_error

pub data ContextTrust : Type 0 where
  policy_trust user_trust source_trust tool_output : ContextTrust
  generated_summary assistant_history : ContextTrust

unfoldable pub is_policy : ContextTrust → Bool
is_policy policy_trust = true
is_policy _ = false

unfoldable pub is_history : ContextTrust → Bool
is_history assistant_history = true
is_history _ = false

unfoldable pub same_trust : ContextTrust → ContextTrust → Bool
same_trust policy_trust policy_trust = true
same_trust user_trust user_trust = true
same_trust source_trust source_trust = true
same_trust tool_output tool_output = true
same_trust generated_summary generated_summary = true
same_trust assistant_history assistant_history = true
same_trust _ _ = false

pub data ContextScope : Type 0 where
  user_scope project_scope : ContextScope

unfoldable pub is_project : ContextScope → Bool
is_project user_scope = false
is_project project_scope = true

unfoldable pub same_scope : ContextScope → ContextScope → Bool
same_scope user_scope user_scope = true
same_scope project_scope project_scope = true
same_scope _ _ = false

unfoldable pub is_system : ChatRole → Bool
is_system system = true
is_system _ = false

unfoldable pub is_user : ChatRole → Bool
is_user user = true
is_user _ = false

unfoldable pub is_assistant : ChatRole → Bool
is_assistant assistant = true
is_assistant _ = false

unfoldable pub same_role : ChatRole → ChatRole → Bool
same_role system system = true
same_role user user = true
same_role assistant assistant = true
same_role _ _ = false

pub record ContextPrincipal : Type 0 where
  pub tenant_id : String
  pub user_id : String
  pub project_ids : List String

unfoldable pub check_all : List String → Check
unfolding identifier
check_all [] = ok tt
check_all (i ∷ is) = do identifier i; check_all is

unfoldable pub check_principal : ContextPrincipal → Check
unfolding identifier check_all
check_principal p = do identifier p.tenant_id; identifier p.user_id; check_all p.project_ids

pub record ConversationRecord : Type 0 where
  pub conversation_id : String
  pub tenant_id : String
  pub project_id : String
  pub owner_id : String
  pub scope : ContextScope
  pub created_at : String

pub record ContextSourceRef : Type 0 where
  pub source_id : String
  pub revision : String
  pub required : Bool
  pub priority : ℤ

unfoldable pub check_source_ref : ContextSourceRef → Check
unfolding identifier
check_source_ref r = do identifier r.source_id; identifier r.revision

pub record ContextSegment : Type 0 where
  pub source_id : String
  pub source_revision : String
  pub role : ChatRole
  pub content : String
  pub trust : ContextTrust
  pub required : Bool
  pub priority : ℤ

-- The rules on the role of a segment's trust.
unfoldable pub is_misplaced : ContextTrust → ChatRole → Bool
unfolding is_policy is_history is_user is_assistant
is_misplaced trust role =
    if is_history trust
    then not (is_assistant role)
    else not (is_policy trust) && not (is_user role)

-- `ContextSegment.__post_init__`
unfoldable pub check_segment : ContextSegment → Check
unfolding identifier is_policy is_system is_misplaced
check_segment s = do
  identifier s.source_id
  identifier s.source_revision
  raise_if (is_blank s.content) value_error
  raise_if (is_system s.role && not (is_policy s.trust)) value_error
  raise_if (not (is_system s.role) && is_policy s.trust) value_error
  raise_if (is_policy s.trust && not s.required) value_error
  raise_if (is_misplaced s.trust s.role) value_error
