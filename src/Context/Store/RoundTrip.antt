-- ===== src/Context/Store/RoundTrip.antt =====
-- What is read of a message that was appended, in backend/context/store.py.
use ryuk.Prelude.{
  String, Bool, true, false, some, List, [], ◌∷◌, ◌++◌, ◌≡◌, refl, ◌∙◌, ap, inl, inr, any,
  Bool-cases, eq_refl, arith, contains, ◌==◌,
}
use mathlib.Core.Path.{subst}
use ryuk.Prelude.Int.{pos}
use ryuk.Prelude.Result.{ok}
use ryuk.Inference.Contracts.{ChatRole, user, assistant, system}
use ryuk.Context.Contracts.{
  ContextPrincipal, ContextTrust, user_trust, assistant_history, ConversationRecord,
  ContextSourceRef, ContextSegment, check_segment,
}
use ryuk.Context.Tables.{
  Source, ContextStore, is_source, select_source, insert_source, require_conversation,
}
use ryuk.Context.Store.{
  message_in, trust_of, segment_of, source_row, ref_of, append_message, visible_row,
}
use ryuk.Workflows.Store.Tables.{find}
use ryuk.Context.Tables.{conversation_allowed, source_allowed}
use ryuk.Context.Contracts.{is_project}
use ryuk.Context.Store.{is_visible}
use ryuk.Context.Store.Reads.{resolve_sources, authorize_all, read_all, as_segment}
use ryuk.Context.Store.Isolation.{require_conversation-allowed}
use ryuk.Context.Store.Growth.{
  insert_source-Extends, Extends, Extends-trans, insert_source-sources, insert_entry-Extends,
  Extends-select_source, Extends-require_conversation,
}
use ryuk.Context.Store.Growth.Methods.{append_message-stored}
use ryuk.Context.Store.Immutable.{Write, write_all, write_all-Extends}

find-last :
    (p : Source → Bool) (xs : List Source) (s : Source)
    → any p xs ≡ false
    → p s ≡ true
    → find p (xs ++ (s ∷ [])) ≡ some s
unfolding find
find-last p [] s h passes = rw passes refl
find-last p (x ∷ xs) s h passes =
    let differs : p x ≡ false = ground arith in rw differs (find-last p xs s (ground arith) passes)

insert_source-select_source :
    (s : Source) (store after : ContextStore)
    → insert_source s store ≡ ok after
    → select_source s.tenant_id s.source_id s.revision after ≡ some s
unfolding select_source is_source
insert_source-select_source s store after h =
    let (fresh, grown) = insert_source-sources s store after h in
    ap (select_source s.tenant_id s.source_id s.revision) grown
    ∙ find-last (is_source s.tenant_id s.source_id s.revision) store.sources s fresh
        (rw (eq_refl s.tenant_id, eq_refl s.source_id, eq_refl s.revision))

-- The source of a message is visible to its actor in the conversation.
message-is_visible :
    (sha256 : String → String) (actor : ContextPrincipal) (c : ConversationRecord) (role : ChatRole)
    (content source_id at_time : String)
    → conversation_allowed c actor ≡ true
    → is_visible c actor (source_row sha256 actor (message_in c role content) source_id at_time)
      ≡ true
unfolding is_visible source_allowed conversation_allowed source_row
message-is_visible sha256 actor c role content source_id at_time may =
    elim (Bool-cases (is_project c.scope)) [
      | inl shared ↦
          let member : contains c.project_id actor.project_ids ≡ true = ground arith in
          rw (eq_refl c.project_id, eq_refl actor.tenant_id, shared, member)
      | inr own ↦ rw (eq_refl c.project_id, eq_refl actor.tenant_id, own, eq_refl actor.user_id)
    ]

-- A user's message is trusted as the user's, and any other as history of the assistant.
abbrev pub trust_as : ChatRole → ContextTrust
trust_as user = user_trust
trust_as _ = assistant_history

trust_of-trust_as : (role : ChatRole) → trust_of role ≡ trust_as role
unfolding trust_of
trust_of-trust_as user = refl
trust_of-trust_as assistant = refl
trust_of-trust_as system = refl

-- The segment of a message.
abbrev pub message_segment : ChatRole → String → String → ContextSegment
message_segment role content source_id = record {
  source_id = source_id;
  source_revision = "1";
  role = role;
  content = content;
  trust = trust_as role;
  required = false;
  priority = pos 0;
}

-- One reference, to a visible source with its hash and a segment that passes the checks, is resolved.
resolve_one :
    (sha256 : String → String) (actor : ContextPrincipal) (conversation_id : String)
    (r : ContextSourceRef) (store : ContextStore) (c : ConversationRecord) (s : Source)
    → require_conversation actor conversation_id store ≡ ok c
    → select_source actor.tenant_id r.source_id r.revision store ≡ some s
    → is_visible c actor s ≡ true
    → (sha256 s.content == s.content_sha256) ≡ true
    → check_segment (segment_of s r.required r.priority) ≡ ok tt
    → resolve_sources sha256 actor conversation_id (r ∷ []) store
      ≡ ok (segment_of s r.required r.priority ∷ [])
unfolding resolve_sources authorize_all read_all as_segment visible_row
resolve_one sha256 actor conversation_id r store c s row there visible intact checked =
    rw (row, there, visible, intact, checked)

-- After an append that returns and whatever is then written, by whatever actors and in any order, the
-- actor resolves the reference that was returned to exactly one segment: the message, under its new
-- identifier and the revision 1, with its role and content, trusted as the user's if the user wrote it and
-- as history of the assistant if not.
pub append_message-resolve_sources :
    (sha256 : String → String) (actor : ContextPrincipal) (conversation_id : String)
    (role : ChatRole) (content source_id at_time : String) (store : ContextStore)
    (ref : ContextSourceRef) (after : ContextStore) (ws : List Write)
    → append_message sha256 actor conversation_id role content source_id at_time store
      ≡ ok (ref, after)
    → resolve_sources sha256 actor conversation_id (ref ∷ []) (write_all sha256 after ws)
      ≡ ok (message_segment role content source_id ∷ [])
unfolding source_row segment_of
append_message-resolve_sources sha256 actor conversation_id role content source_id at_time store ref
      after ws h =
    let a =
      append_message-stored sha256 actor conversation_id role content source_id at_time store ref
        after h in
    let c = a.conversation in
    let s = source_row sha256 actor (message_in c role content) source_id at_time in
    let end = write_all sha256 after ws in
    let written : Extends end after = write_all-Extends sha256 after ws in
    let grown : Extends end a.stored =
      Extends-trans a.stored after end written (insert_entry-Extends _ a.stored after a.entered) in
    let whole : Extends end store =
      Extends-trans store a.stored end grown (insert_source-Extends s store a.stored a.inserted) in
    let (found, may) = require_conversation-allowed actor conversation_id store c a.required in
    subst
      (λ (r : ContextSourceRef).
        resolve_sources sha256 actor conversation_id (r ∷ []) end
        ≡ ok (message_segment role content source_id ∷ []))
      a.returned
      (resolve_one sha256 actor conversation_id (ref_of source_id "1") end c s
          (Extends-require_conversation store end actor conversation_id c whole a.required)
          (Extends-select_source a.stored end actor.tenant_id source_id "1" s grown
            (insert_source-select_source s store a.stored a.inserted))
          (message-is_visible sha256 actor c role content source_id at_time may)
          (eq_refl (sha256 content)) a.checked
        ∙ ap
            (λ (trust : ContextTrust).
              ok (record (message_segment role content source_id) { trust = trust } ∷ []))
            (trust_of-trust_as role))
