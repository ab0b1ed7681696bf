-- ===== src/Context/Store/Growth/Methods.antt =====
-- How the methods of backend/context/store.py extend the tables.
use ryuk.Prelude.{String, false, Option, none, some, ◌≡◌, ◌∙◌, ap, inl, inr, Bool-cases}
use mathlib.Core.Path.{subst}
use ryuk.Prelude.Int.{pos}
use ryuk.Prelude.Result.{Result, ok, err, raise_if, integrity_error, bind-ok, ok_inj, value_error}
use ryuk.Inference.Contracts.{ChatRole}
use ryuk.Context.Contracts.{
  ContextPrincipal, ContextScope, ConversationRecord, ContextSourceRef, ContextSegment, identifier,
  check_segment, is_system, is_policy,
}
use ryuk.Context.Tables.{
  Source, ContextStore, select_source, next_sequence, project_member, insert_conversation,
  insert_source, insert_entry, require_conversation,
}
use ryuk.Context.Store.{
  entry_of, message_in, trust_of, NewSource, create_conversation, add_source, add_row, segment_of,
  source_row, ref_of, append_message, attach_source, visible_row, integrity_as_conflict,
  same_source, is_too_long,
}
use ryuk.Context.Store.Growth.{
  Extends, Extends-refl, Extends-trans, insert_conversation-Extends, insert_source-Extends,
  insert_entry-Extends,
}

-- The tables of a result that is returned with a value.
tables_of :
    {T : Type 0} (v w : T) (a b : ContextStore)
    → ◌≡◌ {A = Result (T × ContextStore)} (ok (v, a)) (ok (w, b))
    → a ≡ b
tables_of {T = T} v w a b h = ap (λ (p : T × ContextStore). p.1) (ok_inj h)

pub create_conversation-Extends :
    (actor : ContextPrincipal) (project_id : String) (scope : ContextScope)
    (conversation_id at_time : String) (store : ContextStore) (made : ConversationRecord)
    (after : ContextStore)
    → create_conversation actor project_id scope conversation_id at_time store ≡ ok (made, after)
    → Extends after store
unfolding create_conversation
create_conversation-Extends actor project_id scope conversation_id at_time store made after h =
    let c : ConversationRecord = record {
      conversation_id = conversation_id;
      tenant_id = actor.tenant_id;
      project_id = project_id;
      owner_id = actor.user_id;
      scope = scope;
      created_at = at_time;
    } in
    let (nothing, member, next) = bind-ok (project_member actor project_id) _ h in
    let (stored, inserted, ended) = bind-ok (insert_conversation c store) _ next in
    subst (λ (t : ContextStore). Extends t store) (tables_of c made stored after ended)
      (insert_conversation-Extends c store stored inserted)

add_row-Extends :
    (o : Option Source) (s : Source) (store : ContextStore) (ref : ContextSourceRef)
    (after : ContextStore)
    → add_row o s store ≡ ok (ref, after)
    → Extends after store
unfolding add_row
add_row-Extends none s store ref after h =
    let (stored, inserted, ended) = bind-ok (insert_source s store) _ h in
    subst (λ (t : ContextStore). Extends t store) (tables_of _ ref stored after ended)
      (insert_source-Extends s store stored inserted)
add_row-Extends (some existing) s store ref after h = elim (Bool-cases (same_source existing s)) [
  | inl same ↦
      subst (λ (t : ContextStore). Extends t store)
        (tables_of (ref_of s.source_id s.revision) ref store after (rw same at h))
        (Extends-refl store)
  | inr differs ↦ absurd (let e = rw differs at h in cc)
]

pub add_source-Extends :
    (sha256 : String → String) (actor : ContextPrincipal) (new : NewSource)
    (source_id at_time : String) (store : ContextStore) (ref : ContextSourceRef)
    (after : ContextStore)
    → add_source sha256 actor new source_id at_time store ≡ ok (ref, after)
    → Extends after store
unfolding add_source
add_source-Extends sha256 actor new source_id at_time store ref after h =
    let s = source_row sha256 actor new source_id at_time in
    let (n₁, e₁, h₁) = bind-ok (project_member actor new.project_id) _ h in
    let (n₂, e₂, h₂) = bind-ok (identifier source_id) _ h₁ in
    let (n₃, e₃, h₃) = bind-ok (identifier new.revision) _ h₂ in
    let (n₄, e₄, h₄) = bind-ok (raise_if (is_too_long new.content) value_error) _ h₃ in
    let (n₅, e₅, h₅) = bind-ok (check_segment (segment_of s false (pos 0))) _ h₄ in
    let (n₆, e₆, h₆) = bind-ok (raise_if (is_policy new.trust) value_error) _ h₅ in
    add_row-Extends (select_source actor.tenant_id source_id new.revision store) s store ref after
      h₆

-- What an append that returns has done.
pub record IsAppended (sha256 : String → String) (actor : ContextPrincipal)
    (conversation_id : String) (role : ChatRole) (content source_id at_time : String)
    (store : ContextStore) (ref : ContextSourceRef) (after : ContextStore) : Type 0 where
  pub conversation : ConversationRecord
  pub required : require_conversation actor conversation_id store ≡ ok conversation
  pub checked :
      check_segment (record {
        source_id = source_id;
        source_revision = "1";
        role = role;
        content = content;
        trust = trust_of role;
        required = false;
        priority = pos 0;
      })
      ≡ ok tt
  pub stored : ContextStore
  pub inserted :
      insert_source
        (source_row sha256 actor (message_in conversation role content) source_id at_time)
        store
      ≡ ok stored
  pub entered :
      insert_entry
        (entry_of actor.tenant_id conversation_id
          (next_sequence actor.tenant_id conversation_id stored)
          source_id
          "1"
          at_time)
        stored
      ≡ ok after
  pub returned : ref_of source_id "1" ≡ ref

pub append_message-stored :
    (sha256 : String → String) (actor : ContextPrincipal) (conversation_id : String)
    (role : ChatRole) (content source_id at_time : String) (store : ContextStore)
    (ref : ContextSourceRef) (after : ContextStore)
    → append_message sha256 actor conversation_id role content source_id at_time store
      ≡ ok (ref, after)
    → IsAppended sha256 actor conversation_id role content source_id at_time store ref after
unfolding append_message
append_message-stored sha256 actor conversation_id role content source_id at_time store ref after
      h =
    let segment : ContextSegment = record {
      source_id = source_id;
      source_revision = "1";
      role = role;
      content = content;
      trust = trust_of role;
      required = false;
      priority = pos 0;
    } in
    let (n₁, e₁, h₁) = bind-ok (raise_if (is_system role) value_error) _ h in
    let (n₂, checked, h₂) = bind-ok (check_segment segment) _ h₁ in
    let (n₃, e₃, h₃) = bind-ok (raise_if (is_too_long content) value_error) _ h₂ in
    let (c, row, h₄) = bind-ok (require_conversation actor conversation_id store) _ h₃ in
    let s = source_row sha256 actor (message_in c role content) source_id at_time in
    let (stored, inserted, h₅) = bind-ok (insert_source s store) _ h₄ in
    let e =
      entry_of actor.tenant_id conversation_id
        (next_sequence actor.tenant_id conversation_id stored) source_id "1" at_time in
    let (ended_in, entered, ended) = bind-ok (insert_entry e stored) _ h₅ in
    record {
      conversation = c;
      required = row;
      checked = checked;
      stored = stored;
      inserted = inserted;
      entered = entered ∙ ap ok (tables_of (ref_of source_id "1") ref ended_in after ended);
      returned = ap (λ (p : ContextSourceRef × ContextStore). p.0) (ok_inj ended);
    }

pub append_message-Extends :
    (sha256 : String → String) (actor : ContextPrincipal) (conversation_id : String)
    (role : ChatRole) (content source_id at_time : String) (store : ContextStore)
    (ref : ContextSourceRef) (after : ContextStore)
    → append_message sha256 actor conversation_id role content source_id at_time store
      ≡ ok (ref, after)
    → Extends after store
append_message-Extends sha256 actor conversation_id role content source_id at_time store ref after
      h =
    let a =
      append_message-stored sha256 actor conversation_id role content source_id at_time store ref
        after h in
    Extends-trans store a.stored after (insert_entry-Extends _ a.stored after a.entered)
      (insert_source-Extends _ store a.stored a.inserted)

integrity_as_conflict-ok :
    (r : Result ContextStore) (after : ContextStore)
    → integrity_as_conflict r ≡ ok after
    → r ≡ ok after
unfolding integrity_as_conflict
integrity_as_conflict-ok (ok s) after h = h
integrity_as_conflict-ok (err integrity_error) after h = absurd cc
integrity_as_conflict-ok (err e) after h = absurd cc

pub attach_source-Extends :
    (actor : ContextPrincipal) (conversation_id : String) (ref : ContextSourceRef)
    (at_time : String) (store after : ContextStore)
    → attach_source actor conversation_id ref at_time store ≡ ok after
    → Extends after store
unfolding attach_source
attach_source-Extends actor conversation_id ref at_time store after h =
    let (c, row, next) = bind-ok (require_conversation actor conversation_id store) _ h in
    let (s, seen, entered) =
      bind-ok (visible_row c actor (select_source actor.tenant_id ref.source_id ref.revision store))
        _ next in
    let e =
      entry_of actor.tenant_id conversation_id (next_sequence actor.tenant_id conversation_id store)
        ref.source_id ref.revision at_time in
    insert_entry-Extends e store after
      (integrity_as_conflict-ok (insert_entry e store) after entered)
