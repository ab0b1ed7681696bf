-- ===== src/Context/Store/Reads.antt =====
-- backend/context/store.py: the methods of `SQLiteContextStore` that read the contents of sources.
use ryuk.Prelude.{
  ℕ, zero, suc, String, Bool, false, not, Option, none, some, List, [], ◌∷◌, ◌++◌, any, ◌==◌, ltb,
  if◌then◌else◌, filter,
}
use ryuk.Prelude.Int.{ℤ}
use ryuk.Prelude.Result.{
  Result, Check, ok, or_raise, raise_if, value_error, access_denied, ◌>>=◌, ◌>>◌,
}
use ryuk.Context.Contracts.{
  ContextPrincipal, ConversationRecord, ContextSourceRef, ContextSegment, check_segment,
}
use ryuk.Context.Tables.{
  Source, Entry, ContextStore, select_source, require_conversation, is_entry_of,
}
use ryuk.Context.Store.{segment_of, is_visible, visible_row}

-- `_as_segment`, with the check of the hash.
unfoldable pub as_segment : (String → String) → Source → Bool → ℤ → Result ContextSegment
as_segment sha256 s required priority = do
  raise_if (not (sha256 s.content == s.content_sha256)) value_error
  check_segment (segment_of s required priority)
  ok (segment_of s required priority)

-- The first loop of `resolve_sources`.
unfoldable pub authorize_all :
    ConversationRecord → ContextPrincipal → List ContextSourceRef → ContextStore → Check
authorize_all c actor [] store = ok tt
authorize_all c actor (r ∷ rs) store =
    visible_row c actor (select_source actor.tenant_id r.source_id r.revision store) >>= λ s.
    authorize_all c actor rs store

-- The second loop, on the same references.
unfoldable pub read_all :
    (String → String)
    → ContextPrincipal
    → List ContextSourceRef
    → ContextStore
    → Result (List ContextSegment)
unfolding as_segment
read_all sha256 actor [] store = ok []
read_all sha256 actor (r ∷ rs) store = do
  s ← or_raise (select_source actor.tenant_id r.source_id r.revision store) access_denied
  segment ← as_segment sha256 s r.required r.priority
  segments ← read_all sha256 actor rs store
  ok (segment ∷ segments)

-- `resolve_sources`
unfoldable pub resolve_sources :
    (String → String)
    → ContextPrincipal
    → String
    → List ContextSourceRef
    → ContextStore
    → Result (List ContextSegment)
unfolding authorize_all read_all
resolve_sources sha256 actor conversation_id refs store = do
  c ← require_conversation actor conversation_id store
  authorize_all c actor refs store
  read_all sha256 actor refs store

-- `ORDER BY e.sequence DESC`: an entry before the first one with a lower number.
unfoldable pub insert_descending : Entry → List Entry → List Entry
insert_descending e [] = e ∷ []
insert_descending e (x ∷ xs) =
    let later = insert_descending e xs in
    if ltb x.sequence e.sequence then e ∷ x ∷ xs else x ∷ later

unfoldable pub descending : List Entry → List Entry
unfolding insert_descending
descending [] = []
descending (e ∷ es) = insert_descending e (descending es)

-- `LIMIT ?`
unfoldable pub take_first : ℕ → List Source → List Source
take_first zero ss = []
take_first (suc n) [] = []
take_first (suc n) (s ∷ ss) = s ∷ take_first n ss

unfoldable pub join_row : Option Source → List Source → List Source
join_row none later = later
join_row (some s) later = s ∷ later

-- The join of the entries with their sources.
unfoldable pub join_sources : ContextStore → List Entry → List Source
unfolding join_row
join_sources store [] = []
join_sources store (e ∷ es) =
    join_row (select_source e.tenant_id e.source_id e.source_revision store) (join_sources store es)

-- `reversed(entries)`
unfoldable pub reversed : List Source → List Source
reversed [] = []
reversed (s ∷ ss) = reversed ss ++ (s ∷ [])

-- The rows that `recent_messages` selects, the newest first.
unfoldable pub recent_rows : String → String → ℕ → ContextStore → List Source
unfolding take_first join_sources descending
recent_rows tenant conversation_id limit store =
    take_first limit
      (join_sources store (descending (filter (is_entry_of tenant conversation_id) store.entries)))

-- The loop that reads the selected rows again.
unfoldable pub reread_all :
    (String → String)
    → ContextPrincipal
    → ℤ
    → List Source
    → ContextStore
    → Result (List ContextSegment)
unfolding as_segment
reread_all sha256 actor priority [] store = ok []
reread_all sha256 actor priority (row ∷ rows) store = do
  s ← or_raise (select_source actor.tenant_id row.source_id row.revision store) access_denied
  segment ← as_segment sha256 s false priority
  segments ← reread_all sha256 actor priority rows store
  ok (segment ∷ segments)

-- `recent_messages`; a limit is a natural number.
unfoldable pub recent_messages :
    (String → String)
    → ContextPrincipal
    → String
    → ℕ
    → ℤ
    → ContextStore
    → Result (List ContextSegment)
unfolding recent_rows reread_all reversed
recent_messages sha256 actor conversation_id limit priority store = do
  raise_if (ltb 100 limit) value_error
  c ← require_conversation actor conversation_id store
  let rows = recent_rows actor.tenant_id conversation_id limit store
  raise_if (any (λ s. not (is_visible c actor s)) rows) access_denied
  reread_all sha256 actor priority (reversed rows) store
