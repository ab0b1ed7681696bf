-- ===== src/Context/Store/Growth.antt =====
-- How a statement on the tables of backend/context/store.py extends them.
pub mod Methods
use ryuk.Prelude.{
  String, Bool, false, not, ◌||◌, Option, none, some, List, [], ◌∷◌, ◌++◌, ◌≡◌, refl, ◌∙◌, ap, sym,
  inl, inr, any, Bool-cases,
}
use mathlib.Core.Path.{subst}
use ryuk.Prelude.Int.{pos}
use ryuk.Prelude.Result.{
  Result, ok, err, raise_if, integrity_error, bind-ok, ok_inj, raise_if-ok, value_error,
}
use ryuk.Inference.Contracts.{ChatRole}
use ryuk.Context.Contracts.{
  ContextPrincipal, ContextScope, ConversationRecord, ContextSourceRef, ContextSegment, identifier,
  check_segment, is_system, is_policy,
}
use ryuk.Context.Tables.{
  Source, Entry, ContextStore, is_source, select_source, next_sequence, project_member,
  insert_conversation, insert_source, insert_entry, require_conversation, is_conversation, clashes,
}
use ryuk.Context.Store.{
  entry_of, message_in, trust_of, NewSource, create_conversation, add_source, add_row, segment_of,
  source_row, ref_of, append_message, attach_source, visible_row, integrity_as_conflict,
  same_source, is_too_long,
}
use ryuk.Context.Tables.{conversation_row, allowed_row}
use ryuk.Context.Store.Isolation.{require_conversation-allowed}
use ryuk.Workflows.Store.Tables.{find}

-- A list that begins with another.
abbrev pub IsPrefix : {T : Type 0} → List T → List T → Type 0
IsPrefix {T = T} xs ys = (more : List T) × (ys ≡ xs ++ more)

append-nil : {T : Type 0} (xs : List T) → xs ≡ xs ++ []
append-nil [] = refl
append-nil (x ∷ xs) = ap (◌∷◌ x) (append-nil xs)

append_assoc : {T : Type 0} (xs ys zs : List T) → (xs ++ ys) ++ zs ≡ xs ++ (ys ++ zs)
append_assoc [] ys zs = refl
append_assoc (x ∷ xs) ys zs = ap (◌∷◌ x) (append_assoc xs ys zs)

IsPrefix-refl : {T : Type 0} (xs : List T) → IsPrefix xs xs
IsPrefix-refl xs = ([], append-nil xs)

IsPrefix-trans : {T : Type 0} (xs ys zs : List T) → IsPrefix xs ys → IsPrefix ys zs → IsPrefix xs zs
IsPrefix-trans {T = T} xs ys zs (more, h) (later, e) =
    (more ++ later, e ∙ ap (λ (l : List T). l ++ later) h ∙ append_assoc xs more later)

-- Tables whose sources and conversations begin with those of others.
abbrev pub Extends : ContextStore → ContextStore → Type 0
Extends after store =
    IsPrefix store.sources after.sources × IsPrefix store.conversations after.conversations

pub Extends-refl : (store : ContextStore) → Extends store store
Extends-refl store = (IsPrefix-refl store.sources, IsPrefix-refl store.conversations)

pub Extends-trans : (a b c : ContextStore) → Extends c b → Extends b a → Extends c a
Extends-trans a b c (later, later') (more, more') = (
  IsPrefix-trans a.sources b.sources c.sources more later,
  IsPrefix-trans a.conversations b.conversations c.conversations more' later',
)

pub insert_conversation-Extends :
    (c : ConversationRecord) (store after : ContextStore)
    → insert_conversation c store ≡ ok after
    → Extends after store
unfolding insert_conversation
insert_conversation-Extends c store after h =
    let (nothing, fresh, ended) =
      bind-ok
        (raise_if (any (is_conversation c.tenant_id c.conversation_id) store.conversations)
          integrity_error)
        _ h in
    subst (λ (t : ContextStore). Extends t store) (ok_inj ended)
      (IsPrefix-refl store.sources, (c ∷ [], refl))

pub insert_source-sources :
    (s : Source) (store after : ContextStore)
    → insert_source s store ≡ ok after
    → (any (is_source s.tenant_id s.source_id s.revision) store.sources ≡ false)
      × (after ≡ record store { sources = store.sources ++ (s ∷ []) })
unfolding insert_source
insert_source-sources s store after h =
    let (nothing, fresh, next) =
      bind-ok
        (raise_if (any (is_source s.tenant_id s.source_id s.revision) store.sources)
          integrity_error)
        _ h in
    let (nothing', checked, ended) =
      bind-ok (raise_if (is_system s.role || is_policy s.trust) integrity_error) _ next in
    (raise_if-ok _ _ fresh, sym (ok_inj ended))

pub insert_source-Extends :
    (s : Source) (store after : ContextStore)
    → insert_source s store ≡ ok after
    → Extends after store
insert_source-Extends s store after h =
    subst (λ (t : ContextStore). Extends t store) (sym (insert_source-sources s store after h).1)
      ((s ∷ [], refl), IsPrefix-refl store.conversations)

pub insert_entry-Extends :
    (e : Entry) (store after : ContextStore) → insert_entry e store ≡ ok after → Extends after store
unfolding insert_entry
insert_entry-Extends e store after h =
    let (nothing, fresh, h₁) =
      bind-ok (raise_if (any (clashes e) store.entries) integrity_error) _ h in
    let (nothing', known, h₂) =
      bind-ok
        (raise_if (not (any (is_conversation e.tenant_id e.conversation_id) store.conversations))
          integrity_error)
        _ h₁ in
    let (nothing'', there, ended) =
      bind-ok
        (raise_if (not (any (is_source e.tenant_id e.source_id e.source_revision) store.sources))
          integrity_error)
        _ h₂ in
    subst (λ (t : ContextStore). Extends t store) (ok_inj ended) (Extends-refl store)

find-append :
    {T : Type 0} (p : T → Bool) (xs ys : List T) (x : T)
    → find p xs ≡ some x
    → find p (xs ++ ys) ≡ some x
unfolding find
find-append p [] ys s h = absurd cc
find-append p (x ∷ xs) ys s h = elim (Bool-cases (p x)) [
  | inl here ↦ rw here (rw here at h)
  | inr elsewhere ↦ rw elsewhere (find-append p xs ys s (rw elsewhere at h))
]

IsPrefix-find :
    {T : Type 0} (p : T → Bool) (xs ys : List T) (x : T)
    → IsPrefix xs ys
    → find p xs ≡ some x
    → find p ys ≡ some x
IsPrefix-find p xs ys x (more, e) h = ap (find p) e ∙ find-append p xs more x h

pub Extends-select_source :
    (store after : ContextStore) (tenant source_id revision : String) (s : Source)
    → Extends after store
    → select_source tenant source_id revision store ≡ some s
    → select_source tenant source_id revision after ≡ some s
unfolding select_source
Extends-select_source store after tenant source_id revision s (sources, conversations) h =
    IsPrefix-find (is_source tenant source_id revision) store.sources after.sources s sources h

pub Extends-require_conversation :
    (store after : ContextStore) (actor : ContextPrincipal) (conversation_id : String)
    (c : ConversationRecord)
    → Extends after store
    → require_conversation actor conversation_id store ≡ ok c
    → require_conversation actor conversation_id after ≡ ok c
unfolding require_conversation conversation_row allowed_row
Extends-require_conversation store after actor conversation_id c (sources, conversations) h =
    let (row, found, next) = bind-ok (conversation_row actor conversation_id store) _ h in
    let (nothing, named, rows) = bind-ok (identifier conversation_id) _ found in
    let (there, may) = require_conversation-allowed actor conversation_id store c h in
    let still =
      IsPrefix-find (is_conversation actor.tenant_id conversation_id) store.conversations
        after.conversations c conversations there in
    rw (named, still, may)
