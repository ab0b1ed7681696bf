-- ===== src/Context/Store.antt =====
-- backend/context/store.py: the methods of `SQLiteContextStore` that write. Identifiers, times and the
-- hash are parameters.
pub mod Reads
pub mod Isolation
pub mod Entered
pub mod Recent
pub mod Growth
pub mod Immutable
pub mod RoundTrip
use mathlib.Core.List.{reverse}
use ryuk.Prelude.{
  ℕ, zero, suc, String, ◌+◌, Bool, true, false, not, ◌&&◌, ◌||◌, Option, none, some, List, [], ◌∷◌,
  ◌++◌, map, any, ◌==◌, ltb, leb, eqb, if◌then◌else◌, length, contains, max, filter,
}
use ryuk.Prelude.Int.{ℤ, pos}
use ryuk.Prelude.Result.{
  Result, Check, ok, err, or_raise, raise_if, value_error, conflict, integrity_error, access_denied,
  ◌>>=◌, ◌>>◌,
}
use ryuk.Prelude.Text.{codes}
use ryuk.Inference.Contracts.{ChatRole, system, user, assistant}
use ryuk.Context.Contracts.{
  ContextPrincipal, ContextScope, user_scope, project_scope, is_project, same_scope, ContextTrust,
  user_trust, assistant_history, is_policy, same_trust, same_role, is_system, is_user, is_assistant,
  ConversationRecord, ContextSourceRef, ContextSegment, check_segment, identifier,
}
use ryuk.Context.Tables.{
  Source, Entry, ContextStore, is_conversation, is_source, select_source, project_member,
  conversation_allowed, source_allowed, conversation_row, require_conversation, next_sequence,
  insert_conversation, insert_source, insert_entry,
}

abbrev pub max_context_source_chars : ℕ
max_context_source_chars = 200000

-- `create_conversation`; the identifier and the time are those that the call takes.
unfoldable pub create_conversation :
    ContextPrincipal
    → String
    → ContextScope
    → String
    → String
    → ContextStore
    → Result (ConversationRecord × ContextStore)
unfolding project_member insert_conversation
create_conversation actor project_id scope conversation_id created_at store =
    let c : ConversationRecord = record {
      conversation_id = conversation_id;
      tenant_id = actor.tenant_id;
      project_id = project_id;
      owner_id = actor.user_id;
      scope = scope;
      created_at = created_at;
    } in
    do project_member actor project_id; after ← insert_conversation c store; ok (c, after)

unfoldable pub get_conversation :
    ContextPrincipal → String → ContextStore → Result (Option ConversationRecord)
get_conversation actor conversation_id store = conversation_row actor conversation_id store

abbrev pub ref_of : String → String → ContextSourceRef
ref_of source_id revision = record {
  source_id = source_id;
  revision = revision;
  required = false;
  priority = pos 0;
}

-- The columns that a repeated source has to have.
unfoldable pub same_source : Source → Source → Bool
same_source existing s =
    existing.project_id == s.project_id
    && existing.owner_id == s.owner_id
    && same_scope existing.scope s.scope
    && same_role existing.role s.role
    && same_trust existing.trust s.trust
    && existing.content_sha256 == s.content_sha256
    && existing.content == s.content

unfoldable pub segment_of : Source → Bool → ℤ → ContextSegment
segment_of s required priority = record {
  source_id = s.source_id;
  source_revision = s.revision;
  role = s.role;
  content = s.content;
  trust = s.trust;
  required = required;
  priority = priority;
}

unfoldable pub add_row :
    Option Source → Source → ContextStore → Result (ContextSourceRef × ContextStore)
unfolding same_source insert_source
add_row (some existing) s store =
    if same_source existing s then ok (ref_of s.source_id s.revision, store) else err conflict
add_row none s store = do after ← insert_source s store; ok (ref_of s.source_id s.revision, after)

unfoldable pub is_too_long : String → Bool
is_too_long content = ltb max_context_source_chars (length (codes content))

-- The arguments of `add_source`.
pub record NewSource : Type 0 where
  pub project_id : String
  pub revision : String
  pub role : ChatRole
  pub trust : ContextTrust
  pub content : String
  pub scope : ContextScope

-- The row of a source of the actor.
unfoldable pub source_row :
    (String → String) → ContextPrincipal → NewSource → String → String → Source
source_row sha256 actor new source_id created_at = record {
  tenant_id = actor.tenant_id;
  source_id = source_id;
  revision = new.revision;
  project_id = new.project_id;
  owner_id = actor.user_id;
  scope = new.scope;
  role = new.role;
  trust = new.trust;
  content = new.content;
  content_sha256 = sha256 new.content;
  created_at = created_at;
}

-- `add_source`, where `source_id` is the given identifier or the new one.
unfoldable pub add_source :
    (String → String)
    → ContextPrincipal
    → NewSource
    → String
    → String
    → ContextStore
    → Result (ContextSourceRef × ContextStore)
unfolding source_row segment_of add_row is_too_long
add_source sha256 actor new source_id created_at store =
    let s = source_row sha256 actor new source_id created_at in
    do
      project_member actor new.project_id
      identifier source_id
      identifier new.revision
      raise_if (is_too_long new.content) value_error
      check_segment (segment_of s false (pos 0))
      raise_if (is_policy new.trust) value_error
      add_row (select_source actor.tenant_id source_id new.revision store) s store

unfoldable pub trust_of : ChatRole → ContextTrust
trust_of user = user_trust
trust_of _ = assistant_history

abbrev pub entry_of : String → String → ℕ → String → String → String → Entry
entry_of tenant conversation_id sequence source_id revision created_at = record {
  tenant_id = tenant;
  conversation_id = conversation_id;
  sequence = sequence;
  source_id = source_id;
  source_revision = revision;
  created_at = created_at;
}

-- The message's arguments in the conversation's project and scope.
abbrev pub message_in : ConversationRecord → ChatRole → String → NewSource
message_in c role content = record {
  project_id = c.project_id;
  revision = "1";
  role = role;
  trust = trust_of role;
  content = content;
  scope = c.scope;
}

-- `append_message`, with the source's new identifier and the time.
unfoldable pub append_message :
    (String → String)
    → ContextPrincipal
    → String
    → ChatRole
    → String
    → String
    → String
    → ContextStore
    → Result (ContextSourceRef × ContextStore)
unfolding trust_of source_row is_too_long
append_message sha256 actor conversation_id role content source_id created_at store = do
  raise_if (is_system role) value_error
  check_segment (record {
    source_id = source_id;
    source_revision = "1";
    role = role;
    content = content;
    trust = trust_of role;
    required = false;
    priority = pos 0;
  })
  raise_if (is_too_long content) value_error
  c ← require_conversation actor conversation_id store
  stored ←
      insert_source (source_row sha256 actor (message_in c role content) source_id created_at) store
  after ←
      insert_entry
        (entry_of actor.tenant_id conversation_id
          (next_sequence actor.tenant_id conversation_id stored) source_id "1" created_at)
        stored
  ok (ref_of source_id "1", after)

-- The source's row may be read in the conversation by the actor.
unfoldable pub is_visible : ConversationRecord → ContextPrincipal → Source → Bool
is_visible c actor s =
    s.project_id == c.project_id
    && source_allowed s actor
    && not (is_project c.scope && not (is_project s.scope))

unfoldable pub visible_row : ConversationRecord → ContextPrincipal → Option Source → Result Source
unfolding is_visible
visible_row c actor none = err access_denied
visible_row c actor (some s) = if is_visible c actor s then ok s else err access_denied

-- `except sqlite3.IntegrityError`
unfoldable pub integrity_as_conflict : Result ContextStore → Result ContextStore
integrity_as_conflict (ok store) = ok store
integrity_as_conflict (err integrity_error) = err conflict
integrity_as_conflict (err e) = err e

-- `attach_source`
unfoldable pub attach_source :
    ContextPrincipal → String → ContextSourceRef → String → ContextStore → Result ContextStore
unfolding visible_row integrity_as_conflict
attach_source actor conversation_id ref created_at store = do
  c ← require_conversation actor conversation_id store
  visible_row c actor (select_source actor.tenant_id ref.source_id ref.revision store) >>= λ s.
      integrity_as_conflict (
        insert_entry
          (entry_of actor.tenant_id conversation_id
            (next_sequence actor.tenant_id conversation_id store) ref.source_id ref.revision
            created_at)
          store)
