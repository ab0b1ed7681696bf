-- ===== src/Context/Store/Entered.antt =====
-- The entries of the messages that `recent_messages` of backend/context/store.py returns.
use ryuk.Prelude.{
  ℕ, zero, suc, String, false, not, ◌&&◌, Option, none, some, List, [], ◌∷◌, ◌++◌, ◌≡◌, refl, ◌∙◌,
  sym, inl, inr, ◌==◌, ltb, filter, arith, eq_iff, Bool-cases, All, Has,
}
use mathlib.Core.Path.{subst}
use ryuk.Prelude.Int.{ℤ}
use ryuk.Prelude.Result.{
  ok, or_raise, or_raise-ok, raise_if, access_denied, value_error, bind-ok, ok_inj,
}
use ryuk.Context.Contracts.{ContextPrincipal, ContextSegment, check_segment}
use ryuk.Context.Tables.{Source, Entry, ContextStore, select_source, is_entry_of}
use ryuk.Context.Store.{segment_of}
use ryuk.Context.Store.Reads.{
  as_segment, reread_all, recent_rows, take_first, join_row, join_sources, descending,
  insert_descending, reversed,
}
use ryuk.Context.Store.Isolation.{select_source-names}

-- What the rows have, the first of them have, and in any direction.
module _ (P : Source → Type 0) where
  pub take_first-All : (n : ℕ) (rows : List Source) → All P rows → All P (take_first n rows)
  unfolding take_first
  take_first-All zero rows h = tt
  take_first-All (suc n) [] h = tt
  take_first-All (suc n) (r ∷ rs) h = (h.0, take_first-All n rs h.1)

  append-All : (rows : List Source) (r : Source) → All P rows → P r → All P (rows ++ (r ∷ []))
  append-All [] r h here = (here, tt)
  append-All (x ∷ xs) r h here = (h.0, append-All xs r h.1 here)

  pub reversed-All : (rows : List Source) → All P rows → All P (reversed rows)
  unfolding reversed
  reversed-All [] h = tt
  reversed-All (r ∷ rs) h = append-All (reversed rs) r (reversed-All rs h.1) h.0

module _ (P : Entry → Type 0) where
  insert_descending-All :
      (e : Entry) (es : List Entry) → P e → All P es → All P (insert_descending e es)
  unfolding insert_descending
  insert_descending-All e [] here h = (here, tt)
  insert_descending-All e (x ∷ xs) here h = elim (Bool-cases (ltb x.sequence e.sequence)) [
    | inl before ↦ rw before (here, h)
    | inr later ↦ rw later (h.0, insert_descending-All e xs here h.1)
  ]

  pub descending-All : (es : List Entry) → All P es → All P (descending es)
  unfolding descending
  descending-All [] h = tt
  descending-All (e ∷ es) h = insert_descending-All e (descending es) h.0 (descending-All es h.1)

-- The entry is one of the conversation in the tenant.
abbrev IsEntryIn : String → String → ContextStore → Entry → Type 0
IsEntryIn tenant conversation_id store e =
    Has store.entries e × (e.tenant_id ≡ tenant) × (e.conversation_id ≡ conversation_id)

-- An entry of the conversation is of the source of these names.
abbrev IsEnteredAs : String → String → ContextStore → String → String → Type 0
IsEnteredAs tenant conversation_id store source_id revision =
    (e : Entry) × IsEntryIn tenant conversation_id store e
    × (e.source_id ≡ source_id)
    × (e.source_revision ≡ revision)

-- An entry of the conversation is of the segment's source.
abbrev pub IsEntered : String → String → ContextStore → ContextSegment → Type 0
IsEntered tenant conversation_id store segment =
    IsEnteredAs tenant conversation_id store segment.source_id segment.source_revision

cons-Has :
    (x : Entry) (xs es : List Entry)
    → All (λ (e : Entry). Has xs e) es
    → All (λ (e : Entry). Has (x ∷ xs) e) es
cons-Has x xs [] h = tt
cons-Has x xs (e ∷ es) (here, h) = (inr here, cons-Has x xs es h)

Has-All : (es : List Entry) → All (λ (e : Entry). Has es e) es
Has-All [] = tt
Has-All (e ∷ es) = (inl refl, cons-Has e es es (Has-All es))

module _ (tenant conversation_id : String) (store : ContextStore) where
  filter-IsEntryIn :
      (es : List Entry)
      → All (λ (e : Entry). Has store.entries e) es
      → All
          (IsEntryIn tenant conversation_id store)
          (filter (is_entry_of tenant conversation_id) es)
  unfolding filter is_entry_of
  filter-IsEntryIn [] h = tt
  filter-IsEntryIn (e ∷ es) (there, h) =
      elim (Bool-cases (e.tenant_id == tenant && e.conversation_id == conversation_id)) [
        | inl here ↦ rw here (
          (
            there,
            (eq_iff e.tenant_id tenant).0 (ground arith),
            (eq_iff e.conversation_id conversation_id).0 (ground arith),
          ),
          filter-IsEntryIn es h,
        )
        | inr elsewhere ↦ rw elsewhere (filter-IsEntryIn es h)
      ]

  abbrev IsEnteredRow : Source → Type 0
  IsEnteredRow row = IsEnteredAs tenant conversation_id store row.source_id row.revision

  join_row-IsEnteredRow :
      (e : Entry) (o : Option Source) (later : List Source)
      → IsEntryIn tenant conversation_id store e
      → select_source e.tenant_id e.source_id e.source_revision store ≡ o
      → All IsEnteredRow later
      → All IsEnteredRow (join_row o later)
  unfolding join_row
  join_row-IsEnteredRow e none later i h k = k
  join_row-IsEnteredRow e (some s) later i h k =
      let (same_id, same_revision) =
        select_source-names e.tenant_id e.source_id e.source_revision store s h in
      ((e, i, sym same_id, sym same_revision), k)

  join_sources-IsEnteredRow :
      (es : List Entry)
      → All (IsEntryIn tenant conversation_id store) es
      → All IsEnteredRow (join_sources store es)
  unfolding join_sources
  join_sources-IsEnteredRow [] h = tt
  join_sources-IsEnteredRow (e ∷ es) (here, h) =
      join_row-IsEnteredRow e (select_source e.tenant_id e.source_id e.source_revision store)
        (join_sources store es) here refl (join_sources-IsEnteredRow es h)

pub recent_rows-IsEnteredAs :
    (tenant conversation_id : String) (limit : ℕ) (store : ContextStore)
    → All
        (λ (row : Source). IsEnteredAs tenant conversation_id store row.source_id row.revision)
        (recent_rows tenant conversation_id limit store)
unfolding recent_rows
recent_rows-IsEnteredAs tenant conversation_id limit store =
    take_first-All (IsEnteredRow tenant conversation_id store) limit _ (
      join_sources-IsEnteredRow tenant conversation_id store _ (
        descending-All (IsEntryIn tenant conversation_id store) _
          (filter-IsEntryIn tenant conversation_id store store.entries (Has-All store.entries))))

pub reread_all-IsEntered :
    (sha256 : String → String) (actor : ContextPrincipal) (conversation_id : String) (priority : ℤ)
    (store : ContextStore) (rows : List Source) (segments : List ContextSegment)
    → All
        (λ (row : Source).
          IsEnteredAs actor.tenant_id conversation_id store row.source_id row.revision)
        rows
    → reread_all sha256 actor priority rows store ≡ ok segments
    → All (IsEntered actor.tenant_id conversation_id store) segments
unfolding reread_all as_segment segment_of
reread_all-IsEntered sha256 actor conversation_id priority store [] segments a h =
    subst (All (IsEntered actor.tenant_id conversation_id store)) (ok_inj h) tt
reread_all-IsEntered sha256 actor conversation_id priority store (row ∷ rows) segments
      ((e, i, same_id, same_revision), a) h =
    let (s, again, next) =
      bind-ok
        (or_raise (select_source actor.tenant_id row.source_id row.revision store) access_denied) _
        h in
    let (segment, reads, rest_reads) = bind-ok (as_segment sha256 s false priority) _ next in
    let (later, reads_later, ended) =
      bind-ok (reread_all sha256 actor priority rows store) _ rest_reads in
    let (n₁, e₁, g₁) =
      bind-ok (raise_if (not (sha256 s.content == s.content_sha256)) value_error) _ reads in
    let (n₂, e₂, g₂) = bind-ok (check_segment (segment_of s false priority)) _ g₁ in
    let (id, revision) =
      select_source-names actor.tenant_id row.source_id row.revision store s
        (or_raise-ok _ _ again) in
    let here : IsEntered actor.tenant_id conversation_id store (segment_of s false priority) =
      (e, i, same_id ∙ sym id, same_revision ∙ sym revision) in
    subst (All (IsEntered actor.tenant_id conversation_id store)) (ok_inj ended) (
      subst (IsEntered actor.tenant_id conversation_id store) (ok_inj g₂) here,
      reread_all-IsEntered sha256 actor conversation_id priority store rows later a reads_later,
    )
