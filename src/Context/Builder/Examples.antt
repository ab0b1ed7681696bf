-- ===== src/Context/Builder/Examples.antt =====
-- A run of the builder of backend/context/builder.py on small tables.
use ryuk.Prelude.{String, List, [], ◌∷◌, ◌≡◌, refl, true, filter}
use ryuk.Prelude.Int.{pos}
use ryuk.Prelude.Text.{is_identifier, strip, same_codes}
use ryuk.Prelude.Result.{ok}
use ryuk.Inference.Contracts.{system, user, is_blank}
use ryuk.Workflows.Store.Tables.{find}
use ryuk.Context.Contracts.{
  ContextPrincipal, ContextSourceRef, ContextSegment, identifier, is_policy, is_history, same_trust,
  is_project, is_system, is_user, is_assistant, same_role, is_misplaced, check_segment,
  project_scope, source_trust, policy_trust,
}
use ryuk.Context.Tables.{
  ContextStore, Source, is_conversation, is_source, select_source, conversation_allowed,
  source_allowed, allowed_row, conversation_row, require_conversation, is_entry_of,
}
use ryuk.Context.Store.{get_conversation, segment_of, is_visible, visible_row, entry_of}
use ryuk.Context.Store.Reads.{
  as_segment, authorize_all, read_all, resolve_sources, insert_descending, descending, take_first,
  join_row, join_sources, reversed, recent_rows, reread_all, recent_messages,
}
use ryuk.Context.Builder.{
  TrustedPolicy, policy_of, max_ℤ, is_conflicting, merged, merge_segment, append_unique,
  append_each, put_together, build,
}

abbrev same_text : String → String
same_text s = s

abbrev bob : ContextPrincipal
bob = record { tenant_id = "acme"; user_id = "bob"; project_ids = "apollo" ∷ [] }

abbrev notes_row : Source
notes_row = record {
  tenant_id = "acme";
  source_id = "notes";
  revision = "2";
  project_id = "apollo";
  owner_id = "ann";
  scope = project_scope;
  role = user;
  trust = source_trust;
  content = "the notes";
  content_sha256 = "the notes";
  created_at = "noon";
}

abbrev tables : ContextStore
tables = record {
  conversations =
      record {
        conversation_id = "chat";
        tenant_id = "acme";
        project_id = "apollo";
        owner_id = "ann";
        scope = project_scope;
        created_at = "noon";
      }
      ∷ [];
  sources = notes_row ∷ [];
  entries = entry_of "acme" "chat" 1 "notes" "2" "noon" ∷ [];
}

abbrev brief : ContextSegment
brief = record {
  source_id = "policy";
  source_revision = "1";
  role = system;
  content = "be brief";
  trust = policy_trust;
  required = true;
  priority = pos 0;
}

abbrev policies : List TrustedPolicy
policies = record { tenant_id = "acme"; project_id = "apollo"; segments = brief ∷ [] } ∷ []

abbrev wanted : ContextSourceRef
wanted = record { source_id = "notes"; revision = "2"; required = true; priority = pos 0 }

-- The notes are selected as required and are a recent message: they stand once, required, with the
-- higher priority.
build_merges :
    build same_text policies (pos 50) bob "chat" (wanted ∷ []) 12 tables
    ≡ ok (record {
      conversation_id = "chat";
      tenant_id = "acme";
      project_id = "apollo";
      segments =
          brief
          ∷ record {
            source_id = "notes";
            source_revision = "2";
            role = user;
            content = "the notes";
            trust = source_trust;
            required = true;
            priority = pos 50;
          }
          ∷ [];
    })
unfolding select_source find is_source identifier is_identifier strip same_codes is_blank
    check_segment is_policy is_history is_user is_assistant is_system is_misplaced
    require_conversation conversation_row allowed_row conversation_allowed is_conversation
    is_project visible_row is_visible source_allowed as_segment segment_of resolve_sources
    authorize_all read_all recent_messages recent_rows descending insert_descending join_sources
    join_row take_first reversed reread_all filter is_entry_of get_conversation build policy_of
    put_together append_each append_unique merge_segment is_conflicting merged max_ℤ same_role
    same_trust
build_merges = refl
