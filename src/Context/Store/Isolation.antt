-- ===== src/Context/Store/Isolation.antt =====
-- Whose sources the methods of backend/context/store.py let an actor read.
use ryuk.Prelude.{
  ◌&&◌, if◌then◌else◌, String, Bool, true, false, not, Option, none, some, List, [], ◌∷◌, ◌≡◌, refl,
  ◌∙◌, ap, sym, inl, inr, ◌==◌, contains, arith, eq_iff, Bool-cases, some_inj, All,
}
use mathlib.Core.Path.{subst}
use ryuk.Prelude.Int.{ℤ}
use ryuk.Prelude.Result.{
  ok, or_raise, raise_if, access_denied, bind-ok, or_raise-ok, raise_if-ok, ok_inj,
}
use ryuk.Context.Contracts.{
  ContextPrincipal, ContextScope, user_scope, project_scope, is_project, ConversationRecord,
  ContextSourceRef, ContextSegment, check_segment, identifier,
}
use ryuk.Context.Tables.{
  Source, ContextStore, is_conversation, is_source, select_source, require_conversation,
  conversation_row, allowed_row, conversation_allowed, source_allowed,
}
use ryuk.Context.Store.{segment_of, is_visible, visible_row}
use ryuk.Context.Store.Reads.{as_segment, authorize_all, read_all, resolve_sources, reread_all}
use ryuk.Workflows.Store.Tables.{find}

-- What a user's scope opens to its owner alone, and a project's scope to the present members of the
-- project alone, within the tenant.
abbrev pub IsOpenTo : ContextPrincipal → (tenant owner project : String) → ContextScope → Type 0
IsOpenTo actor tenant owner project user_scope =
    (tenant ≡ actor.tenant_id) × (owner ≡ actor.user_id)
IsOpenTo actor tenant owner project project_scope =
    (tenant ≡ actor.tenant_id) × (contains project actor.project_ids ≡ true)

-- The actor may read the source.
abbrev pub MayRead : ContextPrincipal → Source → Type 0
MayRead actor s = IsOpenTo actor s.tenant_id s.owner_id s.project_id s.scope

-- The actor may read the conversation.
abbrev pub MayOpen : ContextPrincipal → ConversationRecord → Type 0
MayOpen actor c = IsOpenTo actor c.tenant_id c.owner_id c.project_id c.scope

-- A conversation of a project shows no source of one user.
abbrev pub IsShown : ContextScope → ContextScope → Type 0
IsShown user_scope source = Unit
IsShown project_scope source = source ≡ project_scope

-- A segment of a source that the actor may read, in a conversation of the same project that it may read
-- too, with the content, the role and the trust that are stored.
pub record IsGranted (sha256 : String → String) (actor : ContextPrincipal)
    (conversation_id : String) (store : ContextStore) (segment : ContextSegment) : Type 0 where
  pub conversation : ConversationRecord
  pub found :
      find (is_conversation actor.tenant_id conversation_id) store.conversations ≡ some conversation
  pub openable : MayOpen actor conversation
  pub source : Source
  pub selected :
      select_source actor.tenant_id segment.source_id segment.source_revision store ≡ some source
  pub readable : MayRead actor source
  pub same_project : source.project_id ≡ conversation.project_id
  pub shown : IsShown conversation.scope source.scope
  pub stored :
      (segment.content ≡ source.content)
      × (segment.role ≡ source.role)
      × (segment.trust ≡ source.trust)
  pub intact : sha256 source.content ≡ source.content_sha256

open_to :
    (actor : ContextPrincipal) (tenant owner project : String) (scope : ContextScope)
    → (tenant == actor.tenant_id
        && (if is_project scope
            then contains project actor.project_ids
            else owner == actor.user_id))
      ≡ true
    → IsOpenTo actor tenant owner project scope
unfolding is_project
open_to actor tenant owner project user_scope h = (
  (eq_iff tenant actor.tenant_id).0 (ground arith),
  (eq_iff owner actor.user_id).0 (ground arith),
)
open_to actor tenant owner project project_scope h =
    ((eq_iff tenant actor.tenant_id).0 (ground arith), ground arith)

conversation_allowed-MayOpen :
    (c : ConversationRecord) (actor : ContextPrincipal)
    → conversation_allowed c actor ≡ true
    → MayOpen actor c
unfolding conversation_allowed
conversation_allowed-MayOpen c actor h = open_to actor c.tenant_id c.owner_id c.project_id c.scope h

source_allowed-MayRead :
    (s : Source) (actor : ContextPrincipal) → source_allowed s actor ≡ true → MayRead actor s
unfolding source_allowed
source_allowed-MayRead s actor h = open_to actor s.tenant_id s.owner_id s.project_id s.scope h

is_project-IsShown :
    (conversation source : ContextScope)
    → (is_project conversation && not (is_project source)) ≡ false
    → IsShown conversation source
unfolding is_project
is_project-IsShown user_scope source h = tt
is_project-IsShown project_scope project_scope h = refl
is_project-IsShown project_scope user_scope h = absurd cc

is_visible-MayRead :
    (c : ConversationRecord) (actor : ContextPrincipal) (s : Source)
    → is_visible c actor s ≡ true
    → MayRead actor s × (s.project_id ≡ c.project_id) × IsShown c.scope s.scope
unfolding is_visible
is_visible-MayRead c actor s h = (
  source_allowed-MayRead s actor (ground arith),
  (eq_iff s.project_id c.project_id).0 (ground arith),
  is_project-IsShown c.scope s.scope (ground arith),
)

allowed_row-some :
    (actor : ContextPrincipal) (row : Option ConversationRecord) (c : ConversationRecord)
    → allowed_row actor row ≡ some c
    → (row ≡ some c) × (conversation_allowed c actor ≡ true)
unfolding allowed_row
allowed_row-some actor none c h = absurd cc
allowed_row-some actor (some d) c h = elim (Bool-cases (conversation_allowed d actor)) [
  | inl passes ↦ let same : d ≡ c = some_inj (rw passes at h) in (ap some same, rw⁻¹ same passes)
  | inr fails ↦ absurd (let e = rw fails at h in cc)
]

pub require_conversation-allowed :
    (actor : ContextPrincipal) (conversation_id : String) (store : ContextStore)
    (c : ConversationRecord)
    → require_conversation actor conversation_id store ≡ ok c
    → (find (is_conversation actor.tenant_id conversation_id) store.conversations ≡ some c)
      × (conversation_allowed c actor ≡ true)
unfolding require_conversation conversation_row
require_conversation-allowed actor conversation_id store c h =
    let (row, found, next) = bind-ok (conversation_row actor conversation_id store) _ h in
    let (nothing, named, rows) = bind-ok (identifier conversation_id) _ found in
    allowed_row-some actor
      (find (is_conversation actor.tenant_id conversation_id) store.conversations) c
      (ok_inj rows ∙ or_raise-ok row _ next)

find-passes : (p : Source → Bool) (xs : List Source) (x : Source) → find p xs ≡ some x → p x ≡ true
unfolding find
find-passes p [] x h = absurd cc
find-passes p (y ∷ ys) x h = elim (Bool-cases (p y)) [
  | inl passes ↦ let same : y ≡ x = some_inj (rw passes at h) in rw⁻¹ same passes
  | inr fails ↦ find-passes p ys x (rw fails at h)
]

-- A selected source has the names that it is selected by.
pub select_source-names :
    (tenant source_id revision : String) (store : ContextStore) (s : Source)
    → select_source tenant source_id revision store ≡ some s
    → (s.source_id ≡ source_id) × (s.revision ≡ revision)
unfolding select_source is_source
select_source-names tenant source_id revision store s h =
    let passes = find-passes (is_source tenant source_id revision) store.sources s h in
    (
      (eq_iff s.source_id source_id).0 (ground (arith, passes)),
      (eq_iff s.revision revision).0 (ground (arith, passes)),
    )

-- A selected source is selected by its own names.
pub select_source-own :
    (tenant source_id revision : String) (store : ContextStore) (s : Source)
    → select_source tenant source_id revision store ≡ some s
    → select_source tenant s.source_id s.revision store ≡ some s
select_source-own tenant source_id revision store s h =
    let (same_id, same_revision) = select_source-names tenant source_id revision store s h in
    subst (λ (i : String). select_source tenant i s.revision store ≡ some s) (sym same_id)
      (subst (λ (r : String). select_source tenant source_id r store ≡ some s) (sym same_revision)
        h)

visible_row-some :
    (c : ConversationRecord) (actor : ContextPrincipal) (o : Option Source) (s : Source)
    → visible_row c actor o ≡ ok s
    → (o ≡ some s) × (is_visible c actor s ≡ true)
unfolding visible_row
visible_row-some c actor none s h = absurd cc
visible_row-some c actor (some x) s h = elim (Bool-cases (is_visible c actor x)) [
  | inl passes ↦ let same : x ≡ s = ok_inj (rw passes at h) in (ap some same, rw⁻¹ same passes)
  | inr fails ↦ absurd (let e = rw fails at h in cc)
]

-- One read, in a conversation that the actor may read.
module _ (sha256 : String → String) (actor : ContextPrincipal) (conversation_id : String)
    (store : ContextStore) (c : ConversationRecord)
    (found : find (is_conversation actor.tenant_id conversation_id) store.conversations ≡ some c)
    (may : conversation_allowed c actor ≡ true) where
  as_segment-IsGranted :
      (s : Source) (required : Bool) (priority : ℤ) (segment : ContextSegment)
      → select_source actor.tenant_id s.source_id s.revision store ≡ some s
      → is_visible c actor s ≡ true
      → as_segment sha256 s required priority ≡ ok segment
      → IsGranted sha256 actor conversation_id store segment
  unfolding as_segment segment_of
  as_segment-IsGranted s required priority segment selected visible h =
      let (nothing, intact, next) =
        bind-ok (raise_if (not (sha256 s.content == s.content_sha256)) _) _ h in
      let (nothing', checked, ended) =
        bind-ok (check_segment (segment_of s required priority)) _ next in
      let same : segment_of s required priority ≡ segment = ok_inj ended in
      let (readable, same_project, shown) = is_visible-MayRead c actor s visible in
      subst (IsGranted sha256 actor conversation_id store) same (record {
        conversation = c;
        found = found;
        openable = conversation_allowed-MayOpen c actor may;
        source = s;
        selected = selected;
        readable = readable;
        same_project = same_project;
        shown = shown;
        stored = (refl, refl, refl);
        intact =
            (eq_iff (sha256 s.content) s.content_sha256).0 (ground (arith, raise_if-ok _ _ intact));
      })

  read_all-IsGranted :
      (refs : List ContextSourceRef) (segments : List ContextSegment)
      → authorize_all c actor refs store ≡ ok tt
      → read_all sha256 actor refs store ≡ ok segments
      → All (IsGranted sha256 actor conversation_id store) segments
  unfolding authorize_all read_all
  read_all-IsGranted [] segments a h =
      subst (All (IsGranted sha256 actor conversation_id store)) (ok_inj h) tt
  read_all-IsGranted (r ∷ rs) segments a h =
      let (s, row, authorized) =
        bind-ok (visible_row c actor (select_source actor.tenant_id r.source_id r.revision store)) _
          a in
      let (there, visible) = visible_row-some c actor _ s row in
      let (s', again, next) =
        bind-ok
          (or_raise (select_source actor.tenant_id r.source_id r.revision store) access_denied) _
          h in
      let (segment, reads, rest_reads) =
        bind-ok (as_segment sha256 s' r.required r.priority) _ next in
      let (later, reads_later, ended) = bind-ok (read_all sha256 actor rs store) _ rest_reads in
      let same : s ≡ s' = some_inj (sym there ∙ or_raise-ok _ _ again) in
      subst (All (IsGranted sha256 actor conversation_id store)) (ok_inj ended) (
        as_segment-IsGranted s r.required r.priority segment
            (select_source-own actor.tenant_id r.source_id r.revision store s there) visible
            (rw same reads),
        read_all-IsGranted rs later authorized reads_later,
      )

  pub reread_all-IsGranted :
      (priority : ℤ) (rows : List Source) (segments : List ContextSegment)
      → All
          (λ (row : Source).
            (select_source actor.tenant_id row.source_id row.revision store ≡ some row)
            × (is_visible c actor row ≡ true))
          rows
      → reread_all sha256 actor priority rows store ≡ ok segments
      → All (IsGranted sha256 actor conversation_id store) segments
  unfolding reread_all
  reread_all-IsGranted priority [] segments a h =
      subst (All (IsGranted sha256 actor conversation_id store)) (ok_inj h) tt
  reread_all-IsGranted priority (row ∷ rows) segments ((there, visible), a) h =
      let (s, again, next) =
        bind-ok
          (or_raise (select_source actor.tenant_id row.source_id row.revision store) access_denied)
          _ h in
      let (segment, reads, rest_reads) = bind-ok (as_segment sha256 s false priority) _ next in
      let (later, reads_later, ended) =
        bind-ok (reread_all sha256 actor priority rows store) _ rest_reads in
      let same : row ≡ s = some_inj (sym there ∙ or_raise-ok _ _ again) in
      subst (All (IsGranted sha256 actor conversation_id store)) (ok_inj ended) (
        as_segment-IsGranted row false priority segment there visible (rw same reads),
        reread_all-IsGranted priority rows later a reads_later,
      )

-- Every segment that `resolve_sources` returns is of a source of the actor's tenant and of the
-- conversation's project. A source or conversation of a user's scope is the actor's own, and one of a
-- project's scope is of a project that the actor is a member of; a conversation of a project's scope shows
-- no source of a user's scope. The segment has the content, the role and the trust that are stored, with
-- the hash that was stored.
pub resolve_sources-IsGranted :
    (sha256 : String → String) (actor : ContextPrincipal) (conversation_id : String)
    (refs : List ContextSourceRef) (store : ContextStore) (segments : List ContextSegment)
    → resolve_sources sha256 actor conversation_id refs store ≡ ok segments
    → All (IsGranted sha256 actor conversation_id store) segments
unfolding resolve_sources
resolve_sources-IsGranted sha256 actor conversation_id refs store segments h =
    let (c, row, next) = bind-ok (require_conversation actor conversation_id store) _ h in
    let (nothing, authorized, reads) = bind-ok (authorize_all c actor refs store) _ next in
    let (found, may) = require_conversation-allowed actor conversation_id store c row in
    read_all-IsGranted sha256 actor conversation_id store c found may refs segments authorized reads
