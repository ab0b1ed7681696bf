-- ===== src/Context/Store/Recent.antt =====
-- Whose messages `recent_messages` of backend/context/store.py returns.
use ryuk.Prelude.{
  ℕ, String, Bool, true, false, not, ◌&&◌, Option, none, some, List, [], ◌∷◌, ◌≡◌, ap, sym, inl,
  inr, any, ◌==◌, ltb, filter, arith, eq_iff, Bool-cases, All,
}
use ryuk.Prelude.Int.{ℤ}
use ryuk.Prelude.Result.{ok, raise_if, access_denied, value_error, bind-ok, raise_if-ok}
use ryuk.Context.Contracts.{ContextPrincipal, ContextSegment}
use ryuk.Context.Tables.{
  Source, Entry, ContextStore, select_source, require_conversation, is_entry_of,
}
use ryuk.Context.Store.{is_visible}
use ryuk.Context.Store.Reads.{recent_messages, recent_rows, join_row, join_sources, reversed}
use ryuk.Context.Store.Entered.{
  take_first-All, reversed-All, descending-All, IsEntered, reread_all-IsEntered,
  recent_rows-IsEnteredAs,
}
use ryuk.Context.Store.Isolation.{
  IsGranted, require_conversation-allowed, select_source-own, reread_all-IsGranted,
}

-- The row is selected by its own names, in the tenant.
abbrev IsOwnRow : String → ContextStore → Source → Type 0
IsOwnRow tenant store row = select_source tenant row.source_id row.revision store ≡ some row

-- The entry is the tenant's.
abbrev IsOf : String → Entry → Type 0
IsOf tenant e = e.tenant_id ≡ tenant

filter-IsOf :
    (tenant conversation_id : String) (es : List Entry)
    → All (IsOf tenant) (filter (is_entry_of tenant conversation_id) es)
unfolding filter is_entry_of
filter-IsOf tenant conversation_id [] = tt
filter-IsOf tenant conversation_id (e ∷ es) =
    elim (Bool-cases (e.tenant_id == tenant && e.conversation_id == conversation_id)) [
      | inl here ↦
          rw here
            ((eq_iff e.tenant_id tenant).0 (ground arith), filter-IsOf tenant conversation_id es)
      | inr elsewhere ↦ rw elsewhere (filter-IsOf tenant conversation_id es)
    ]

join_row-IsOwnRow :
    (tenant source_id revision : String) (store : ContextStore) (o : Option Source)
    (later : List Source)
    → select_source tenant source_id revision store ≡ o
    → All (IsOwnRow tenant store) later
    → All (IsOwnRow tenant store) (join_row o later)
unfolding join_row
join_row-IsOwnRow tenant source_id revision store none later e h = h
join_row-IsOwnRow tenant source_id revision store (some s) later e h =
    (select_source-own tenant source_id revision store s e, h)

join_sources-IsOwnRow :
    (tenant : String) (store : ContextStore) (es : List Entry)
    → All (IsOf tenant) es
    → All (IsOwnRow tenant store) (join_sources store es)
unfolding join_sources
join_sources-IsOwnRow tenant store [] h = tt
join_sources-IsOwnRow tenant store (e ∷ es) h =
    join_row-IsOwnRow tenant e.source_id e.source_revision store _ _
      (ap (λ t. select_source t e.source_id e.source_revision store) (sym h.0))
      (join_sources-IsOwnRow tenant store es h.1)

both-All :
    (P : Source → Type 0) (p : Source → Bool) (rows : List Source)
    → All P rows
    → any (λ s. not (p s)) rows ≡ false
    → All (λ (s : Source). P s × (p s ≡ true)) rows
both-All P p [] h e = tt
both-All P p (r ∷ rs) h e =
    let here : p r ≡ true = ground arith in ((h.0, here), both-All P p rs h.1 (ground arith))

-- Every message that `recent_messages` returns is of a source of the actor's tenant and of the
-- conversation's project. A source or conversation of a user's scope is the actor's own, and one of a
-- project's scope is of a project that the actor is a member of; a conversation of a project's scope shows
-- no source of a user's scope. The message has the content, the role and the trust that are stored, with
-- the hash that was stored, and an entry of the conversation is of its source.
pub recent_messages-IsGranted :
    (sha256 : String → String) (actor : ContextPrincipal) (conversation_id : String) (limit : ℕ)
    (priority : ℤ) (store : ContextStore) (segments : List ContextSegment)
    → recent_messages sha256 actor conversation_id limit priority store ≡ ok segments
    → All (IsGranted sha256 actor conversation_id store) segments
      × All (IsEntered actor.tenant_id conversation_id store) segments
unfolding recent_messages recent_rows
recent_messages-IsGranted sha256 actor conversation_id limit priority store segments h =
    let (nothing, bounded, after) = bind-ok (raise_if (ltb 100 limit) value_error) _ h in
    let (c, row, next) = bind-ok (require_conversation actor conversation_id store) _ after in
    let rows = recent_rows actor.tenant_id conversation_id limit store in
    let (nothing', visible, reads) =
      bind-ok (raise_if (any (λ s. not (is_visible c actor s)) rows) access_denied) _ next in
    let (found, may) = require_conversation-allowed actor conversation_id store c row in
    let own : All (IsOwnRow actor.tenant_id store) rows =
      take_first-All (IsOwnRow actor.tenant_id store) limit _ (
        join_sources-IsOwnRow actor.tenant_id store _ (
          descending-All (IsOf actor.tenant_id) _
            (filter-IsOf actor.tenant_id conversation_id store.entries))) in
    (
      reread_all-IsGranted sha256 actor conversation_id store c found may priority (reversed rows)
          segments
          (reversed-All _ rows (
            both-All (IsOwnRow actor.tenant_id store) (is_visible c actor) rows own
              (raise_if-ok _ _ visible)))
          reads,
      reread_all-IsEntered sha256 actor conversation_id priority store (reversed rows) segments
          (reversed-All _ rows
            (recent_rows-IsEnteredAs actor.tenant_id conversation_id limit store))
          reads,
    )
