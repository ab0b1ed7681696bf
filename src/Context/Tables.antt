-- ===== src/Context/Tables.antt =====
-- backend/context/store.py: the tables of conversations, sources and entries, who may read a row, and
-- the statements on the tables. A table is the list of its rows in the order of insertion.
use ryuk.Prelude.{
  ℕ, String, ◌+◌, Bool, not, ◌&&◌, ◌||◌, Option, none, some, List, [], ◌∷◌, ◌++◌, any, ◌==◌, eqb,
  if◌then◌else◌, contains, max, filter,
}
use ryuk.Prelude.Result.{
  Result, Check, ok, or_raise, raise_if, integrity_error, access_denied, ◌>>=◌, ◌>>◌,
}
use ryuk.Inference.Contracts.{ChatRole}
use ryuk.Context.Contracts.{
  ContextPrincipal, ContextScope, is_project, ContextTrust, is_policy, is_system,
  ConversationRecord, identifier,
}
use ryuk.Workflows.Store.Tables.{find}

-- A row of `context_sources`.
pub record Source : Type 0 where
  pub tenant_id : String
  pub source_id : String
  pub revision : String
  pub project_id : String
  pub owner_id : String
  pub scope : ContextScope
  pub role : ChatRole
  pub trust : ContextTrust
  pub content : String
  pub content_sha256 : String
  pub created_at : String

-- A row of `context_entries`.
pub record Entry : Type 0 where
  pub tenant_id : String
  pub conversation_id : String
  pub sequence : ℕ
  pub source_id : String
  pub source_revision : String
  pub created_at : String

-- A row of `context_conversations` has the fields of its record.
pub record ContextStore : Type 0 where
  pub conversations : List ConversationRecord
  pub sources : List Source
  pub entries : List Entry

-- `WHERE tenant_id=? AND conversation_id=?`, on conversations.
unfoldable pub is_conversation : String → String → ConversationRecord → Bool
is_conversation tenant conversation_id c =
    c.tenant_id == tenant && c.conversation_id == conversation_id

-- `WHERE tenant_id=? AND source_id=? AND revision=?`
unfoldable pub is_source : String → String → String → Source → Bool
is_source tenant source_id revision s =
    s.tenant_id == tenant && s.source_id == source_id && s.revision == revision

unfoldable pub select_source : String → String → String → ContextStore → Option Source
unfolding is_source
select_source tenant source_id revision store =
    find (is_source tenant source_id revision) store.sources

unfoldable pub project_member : ContextPrincipal → String → Check
project_member actor project_id = do
  identifier project_id
  raise_if (not (contains project_id actor.project_ids)) access_denied

-- `_conversation_allowed`
unfoldable pub conversation_allowed : ConversationRecord → ContextPrincipal → Bool
conversation_allowed c actor =
    c.tenant_id == actor.tenant_id
    && (if is_project c.scope
        then contains c.project_id actor.project_ids
        else c.owner_id == actor.user_id)

-- `_source_allowed`
unfoldable pub source_allowed : Source → ContextPrincipal → Bool
source_allowed s actor =
    s.tenant_id == actor.tenant_id
    && (if is_project s.scope
        then contains s.project_id actor.project_ids
        else s.owner_id == actor.user_id)

unfoldable pub allowed_row :
    ContextPrincipal → Option ConversationRecord → Option ConversationRecord
unfolding conversation_allowed
allowed_row actor none = none
allowed_row actor (some c) = if conversation_allowed c actor then some c else none

-- `_conversation_row`
unfoldable pub conversation_row :
    ContextPrincipal → String → ContextStore → Result (Option ConversationRecord)
unfolding allowed_row is_conversation
conversation_row actor conversation_id store = do
  identifier conversation_id
  ok (
      allowed_row actor
        (find (is_conversation actor.tenant_id conversation_id) store.conversations))

-- The row, or the denial where there is none.
unfoldable pub require_conversation :
    ContextPrincipal → String → ContextStore → Result ConversationRecord
unfolding conversation_row
require_conversation actor conversation_id store = do
  row ← conversation_row actor conversation_id store
  or_raise row access_denied

-- `WHERE tenant_id=? AND conversation_id=?`, on entries.
unfoldable pub is_entry_of : String → String → Entry → Bool
is_entry_of tenant conversation_id e = e.tenant_id == tenant && e.conversation_id == conversation_id

unfoldable pub max_sequence : List Entry → ℕ
max_sequence [] = 0
max_sequence (e ∷ es) = max e.sequence (max_sequence es)

-- `_next_sequence`
unfoldable pub next_sequence : String → String → ContextStore → ℕ
unfolding is_entry_of max_sequence
next_sequence tenant conversation_id store =
    max_sequence (filter (is_entry_of tenant conversation_id) store.entries) + 1

-- `INSERT INTO context_conversations`, with its primary key.
unfoldable pub insert_conversation : ConversationRecord → ContextStore → Result ContextStore
insert_conversation c store = do
  raise_if (any (is_conversation c.tenant_id c.conversation_id) store.conversations) integrity_error
  ok (record store { conversations = store.conversations ++ (c ∷ []) })

-- `INSERT INTO context_sources`, with its primary key and its checks.
unfoldable pub insert_source : Source → ContextStore → Result ContextStore
insert_source s store = do
  raise_if (any (is_source s.tenant_id s.source_id s.revision) store.sources) integrity_error
  raise_if (is_system s.role || is_policy s.trust) integrity_error
  ok (record store { sources = store.sources ++ (s ∷ []) })

-- The unique keys of `context_entries`.
unfoldable pub clashes : Entry → Entry → Bool
unfolding is_entry_of
clashes e other =
    is_entry_of e.tenant_id e.conversation_id other
    && (eqb other.sequence e.sequence
        || (other.source_id == e.source_id && other.source_revision == e.source_revision))

-- `INSERT INTO context_entries`, with its keys and its references.
unfoldable pub insert_entry : Entry → ContextStore → Result ContextStore
unfolding clashes
insert_entry e store = do
  raise_if (any (clashes e) store.entries) integrity_error
  raise_if (not (any (is_conversation e.tenant_id e.conversation_id) store.conversations))
      integrity_error
  raise_if (not (any (is_source e.tenant_id e.source_id e.source_revision) store.sources))
      integrity_error
  ok (record store { entries = store.entries ++ (e ∷ []) })
