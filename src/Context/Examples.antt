-- ===== src/Context/Examples.antt =====
-- Runs of the methods of backend/context/store.py on small tables.
use ryuk.Prelude.{String, List, [], ◌∷◌, ◌≡◌, refl, false, some, All, filter}
use ryuk.Prelude.Int.{pos}
use ryuk.Prelude.Result.{ok}
use ryuk.Prelude.Text.{is_identifier, strip, same_codes}
use ryuk.Inference.Contracts.{user, assistant, is_blank}
use ryuk.Context.Contracts.{
  ContextPrincipal, user_scope, project_scope, user_trust, source_trust, assistant_history,
  ContextSegment, identifier, is_policy, is_history, same_trust, is_project, same_scope, is_system,
  is_user, is_assistant, same_role, is_misplaced, check_segment,
}
use ryuk.Context.Tables.{
  ContextStore, Source, is_conversation, is_source, select_source, project_member,
  conversation_allowed, source_allowed, allowed_row, conversation_row, require_conversation,
  is_entry_of, max_sequence, next_sequence, insert_conversation, insert_source, clashes,
  insert_entry,
}
use ryuk.Context.Store.{
  NewSource, create_conversation, ref_of, same_source, segment_of, add_row, is_too_long, source_row,
  add_source, trust_of, entry_of, append_message, is_visible, visible_row, integrity_as_conflict,
  attach_source,
}
use ryuk.Context.Store.Reads.{
  as_segment, authorize_all, read_all, resolve_sources, insert_descending, descending, take_first,
  join_row, join_sources, reversed, recent_rows, reread_all, recent_messages,
}
use ryuk.Context.Store.Isolation.{IsGranted, resolve_sources-IsGranted}
use ryuk.Context.Store.Entered.{IsEntered}
use ryuk.Context.Store.Recent.{recent_messages-IsGranted}
use ryuk.Context.Store.Immutable.{
  Write, creates, adds, appends, attaches, write, write_all, or_kept, or_same,
  write_all-select_source,
}
use ryuk.Context.Store.RoundTrip.{append_message-resolve_sources, message_segment}
use ryuk.Workflows.Store.Tables.{find}

abbrev same_text : String → String
same_text s = s

abbrev ann : ContextPrincipal
ann = record { tenant_id = "acme"; user_id = "ann"; project_ids = "apollo" ∷ [] }

abbrev bob : ContextPrincipal
bob = record { tenant_id = "acme"; user_id = "bob"; project_ids = "apollo" ∷ [] }

abbrev empty_store : ContextStore
empty_store = record { conversations = []; sources = []; entries = [] }

abbrev notes : NewSource
notes = record {
  project_id = "apollo";
  revision = "2";
  role = user;
  trust = source_trust;
  content = "the notes";
  scope = project_scope;
}

abbrev shared_writes : List Write
shared_writes =
    creates ann "apollo" project_scope "chat" "noon"
    ∷ adds ann notes "notes" "noon"
    ∷ attaches ann "chat" (ref_of "notes" "2") "noon"
    ∷ appends bob "chat" user "hello" "message" "one"
    ∷ []

abbrev notes_row : Source
notes_row = record {
  tenant_id = "acme";
  source_id = "notes";
  revision = "2";
  project_id = "apollo";
  owner_id = "ann";
  scope = project_scope;
  role = user;
  trust = source_trust;
  content = "the notes";
  content_sha256 = "the notes";
  created_at = "noon";
}

abbrev hello_row : Source
hello_row = record {
  tenant_id = "acme";
  source_id = "message";
  revision = "1";
  project_id = "apollo";
  owner_id = "bob";
  scope = project_scope;
  role = user;
  trust = user_trust;
  content = "hello";
  content_sha256 = "hello";
  created_at = "one";
}

abbrev shared : ContextStore
shared = record {
  conversations =
      record {
        conversation_id = "chat";
        tenant_id = "acme";
        project_id = "apollo";
        owner_id = "ann";
        scope = project_scope;
        created_at = "noon";
      }
      ∷ [];
  sources = notes_row ∷ hello_row ∷ [];
  entries =
      entry_of "acme" "chat" 1 "notes" "2" "noon"
      ∷ entry_of "acme" "chat" 2 "message" "1" "one"
      ∷ [];
}

shared_written : write_all same_text empty_store shared_writes ≡ shared
unfolding write_all write or_kept or_same create_conversation add_source attach_source
    project_member insert_conversation add_row same_source integrity_as_conflict same_role
    same_scope same_trust append_message is_too_long source_row trust_of insert_source insert_entry
    next_sequence max_sequence filter is_entry_of clashes select_source find is_source identifier
    is_identifier strip same_codes is_blank check_segment is_policy is_history is_user is_assistant
    is_system is_misplaced require_conversation conversation_row allowed_row conversation_allowed
    is_conversation is_project visible_row is_visible source_allowed segment_of
shared_written = refl

abbrev later_writes : List Write
later_writes =
    appends ann "chat" assistant "good day" "answer" "two"
    ∷ adds bob notes "notes" "two"
    ∷ creates bob "apollo" user_scope "own" "two"
    ∷ []

abbrev notes_segment : ContextSegment
notes_segment = record {
  source_id = "notes";
  source_revision = "2";
  role = user;
  content = "the notes";
  trust = source_trust;
  required = false;
  priority = pos 0;
}

resolve_shared :
    resolve_sources same_text bob "chat" (ref_of "notes" "2" ∷ ref_of "message" "1" ∷ []) shared
    ≡ ok (notes_segment ∷ message_segment user "hello" "message" ∷ [])
unfolding resolve_sources authorize_all read_all as_segment segment_of select_source find is_source
    identifier is_identifier strip same_codes is_blank check_segment is_policy is_history is_user
    is_assistant is_system is_misplaced require_conversation conversation_row allowed_row
    conversation_allowed is_conversation is_project visible_row is_visible source_allowed trust_of
resolve_shared = refl

resolve_sources-IsGranted_example :
    All
      (IsGranted same_text bob "chat" shared)
      (notes_segment ∷ message_segment user "hello" "message" ∷ [])
resolve_sources-IsGranted_example =
    resolve_sources-IsGranted same_text bob "chat" (ref_of "notes" "2" ∷ ref_of "message" "1" ∷ [])
      shared (notes_segment ∷ message_segment user "hello" "message" ∷ []) resolve_shared

recent_shared :
    recent_messages same_text ann "chat" 2 (pos 0) shared
    ≡ ok (notes_segment ∷ message_segment user "hello" "message" ∷ [])
unfolding recent_messages recent_rows descending insert_descending join_sources join_row take_first
    reversed reread_all filter is_entry_of as_segment segment_of select_source find is_source
    identifier is_identifier strip same_codes is_blank check_segment is_policy is_history is_user
    is_assistant is_system is_misplaced require_conversation conversation_row allowed_row
    conversation_allowed is_conversation is_project visible_row is_visible source_allowed trust_of
recent_shared = refl

recent_messages-IsGranted_example :
    All
      (IsGranted same_text ann "chat" shared)
      (notes_segment ∷ message_segment user "hello" "message" ∷ [])
    × All
        (IsEntered "acme" "chat" shared)
        (notes_segment ∷ message_segment user "hello" "message" ∷ [])
recent_messages-IsGranted_example =
    recent_messages-IsGranted same_text ann "chat" 2 (pos 0) shared
      (notes_segment ∷ message_segment user "hello" "message" ∷ []) recent_shared

notes_stored : select_source "acme" "notes" "2" shared ≡ some notes_row
unfolding select_source find is_source
notes_stored = refl

write_all-select_source_example :
    select_source "acme" "notes" "2" (write_all same_text shared later_writes) ≡ some notes_row
write_all-select_source_example =
    write_all-select_source same_text shared later_writes "acme" "notes" "2" notes_row notes_stored

abbrev answered : ContextStore
answered = record shared {
  sources =
      notes_row
      ∷ hello_row
      ∷ record {
        tenant_id = "acme";
        source_id = "answer";
        revision = "1";
        project_id = "apollo";
        owner_id = "ann";
        scope = project_scope;
        role = assistant;
        trust = assistant_history;
        content = "good day";
        content_sha256 = "good day";
        created_at = "two";
      }
      ∷ [];
  entries =
      entry_of "acme" "chat" 1 "notes" "2" "noon"
      ∷ entry_of "acme" "chat" 2 "message" "1" "one"
      ∷ entry_of "acme" "chat" 3 "answer" "1" "two"
      ∷ [];
}

answer_appended :
    append_message same_text ann "chat" assistant "good day" "answer" "two" shared
    ≡ ok (ref_of "answer" "1", answered)
unfolding append_message is_too_long source_row trust_of insert_source insert_entry next_sequence
    max_sequence filter is_entry_of clashes select_source find is_source identifier is_identifier
    strip same_codes is_blank check_segment is_policy is_history is_user is_assistant is_system
    is_misplaced require_conversation conversation_row allowed_row conversation_allowed
    is_conversation is_project
answer_appended = refl

append_message-resolve_sources_example :
    resolve_sources same_text ann "chat"
      (ref_of "answer" "1" ∷ [])
      (write_all same_text answered later_writes)
    ≡ ok (message_segment assistant "good day" "answer" ∷ [])
append_message-resolve_sources_example =
    append_message-resolve_sources same_text ann "chat" assistant "good day" "answer" "two" shared
      (ref_of "answer" "1") answered later_writes answer_appended
