-- ===== src/Context/Builder.antt =====
-- backend/context/builder.py: the policy, the sources and the recent messages of a conversation as one
-- list of segments.
pub mod Distinct
mod Examples
pub mod Ready
use ryuk.Prelude.{
  ℕ, String, ◌+◌, Bool, true, false, not, ◌&&◌, ◌||◌, Option, none, some, List, [], ◌∷◌, map, any,
  ◌==◌, if◌then◌else◌, contains, filter, is_empty, is_distinct,
}
use ryuk.Prelude.Int.{ℤ, ltb_ℤ}
use ryuk.Prelude.Text.{is_identifier}
use ryuk.Prelude.Result.{
  Result, Check, ok, err, or_raise, raise_if, value_error, conflict, access_denied,
  policy_unavailable, ◌>>=◌, ◌>>◌,
}
use ryuk.Context.Contracts.{
  ContextPrincipal, ConversationRecord, ContextSourceRef, ContextSegment, check_segment, is_policy,
  same_role, same_trust,
}
use ryuk.Context.Tables.{ContextStore}
use ryuk.Context.Store.{get_conversation}
use ryuk.Context.Store.Reads.{resolve_sources, recent_messages}
use ryuk.Context.Preparation.{is_required, is_optional}

pub record BuiltContext : Type 0 where
  pub conversation_id : String
  pub tenant_id : String
  pub project_id : String
  pub segments : List ContextSegment

-- The policy of a tenant and a project.
pub record TrustedPolicy : Type 0 where
  pub tenant_id : String
  pub project_id : String
  pub segments : List ContextSegment

unfoldable pub check_trusted_policy : TrustedPolicy → Check
check_trusted_policy p = do
  raise_if (not (is_identifier p.tenant_id) || not (is_identifier p.project_id)) value_error
  raise_if (is_empty p.segments) value_error
  raise_if (any (λ (s : ContextSegment). not (is_policy s.trust) || not s.required) p.segments)
      value_error
  raise_if (not (is_distinct (map (λ (s : ContextSegment). s.source_id) p.segments))) value_error

-- The loop of `ContextBuilder.__init__`; a mapping has each key once.
unfoldable pub check_trusted_policies : List TrustedPolicy → Check
unfolding check_trusted_policy
check_trusted_policies [] = ok tt
check_trusted_policies (p ∷ ps) = do check_trusted_policy p; check_trusted_policies ps

unfoldable pub policy_of : String → String → List TrustedPolicy → Option (List ContextSegment)
policy_of tenant project_id [] = none
policy_of tenant project_id (p ∷ ps) =
    let later = policy_of tenant project_id ps in
    if p.tenant_id == tenant && p.project_id == project_id then some p.segments else later

-- `max`, which keeps the first of equal numbers.
unfoldable pub max_ℤ : ℤ → ℤ → ℤ
max_ℤ a b = if ltb_ℤ a b then b else a

unfoldable pub is_conflicting : ContextSegment → ContextSegment → Bool
is_conflicting current s =
    not (current.source_revision == s.source_revision)
    || not (same_role current.role s.role)
    || not (current.content == s.content)
    || not (same_trust current.trust s.trust)

unfoldable pub merged : ContextSegment → ContextSegment → ContextSegment
unfolding max_ℤ
merged current s = record current {
  required = current.required || s.required;
  priority = max_ℤ current.priority s.priority;
}

-- The replacement of a segment, whose constructor checks it again.
unfoldable pub merge_segment : ContextSegment → ContextSegment → Result ContextSegment
unfolding is_conflicting merged
merge_segment current s = do
  raise_if (is_conflicting current s) conflict
  check_segment (merged current s)
  ok (merged current s)

-- `_append_unique`; the index of an identifier is the place of the segment that has it.
unfoldable pub append_unique : ContextSegment → List ContextSegment → Result (List ContextSegment)
unfolding merge_segment
append_unique s [] = ok (s ∷ [])
append_unique s (c ∷ cs) =
    let later = append_unique s cs in
    if c.source_id == s.source_id
    then (merge_segment c s >>= λ m. ok (m ∷ cs))
    else (later >>= λ rest. ok (c ∷ rest))

unfoldable pub append_each :
    List ContextSegment → List ContextSegment → Result (List ContextSegment)
unfolding append_unique
append_each [] ordered = ok ordered
append_each (s ∷ ss) ordered = do grown ← append_unique s ordered; append_each ss grown

-- The four loops of `build`.
unfoldable pub put_together :
    List ContextSegment → List ContextSegment → List ContextSegment → Result (List ContextSegment)
unfolding append_each
put_together policy resolved recent = do
  first ← append_each policy []
  second ← append_each (filter is_required resolved) first
  third ← append_each recent second
  append_each (filter is_optional resolved) third

-- `build`
unfoldable pub build :
    (String → String)
    → List TrustedPolicy
    → ℤ
    → ContextPrincipal
    → String
    → List ContextSourceRef
    → ℕ
    → ContextStore
    → Result BuiltContext
unfolding policy_of put_together
build sha256 policies priority actor conversation_id sources limit store = do
  row ← get_conversation actor conversation_id store
  c ← or_raise row access_denied
  raise_if (not (contains c.project_id actor.project_ids)) access_denied
  policy ← or_raise (policy_of c.tenant_id c.project_id policies) policy_unavailable
  raise_if (is_empty sources || not (any (λ (r : ContextSourceRef). r.required) sources))
      value_error
  resolved ← resolve_sources sha256 actor conversation_id sources store
  recent ← recent_messages sha256 actor conversation_id limit priority store
  segments ← put_together policy resolved recent
  ok (record {
    conversation_id = conversation_id;
    tenant_id = c.tenant_id;
    project_id = c.project_id;
    segments = segments;
  })
