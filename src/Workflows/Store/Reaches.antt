-- ===== src/Workflows/Store/Reaches.antt =====
-- Batches of statements in backend/workflows/store.py: the creation of a row, and recovery, which
-- makes one step for each row that it finds.
use ryuk.Prelude.{
  ℕ, ◌+◌, String, ◌≡◌, refl, sym, ap, ◌∙◌, ◌⊎◌, inl, inr, Bool, true, ◌&&◌, none, some, List, [],
  ◌∷◌, ◌++◌, arith, ◌==◌, eq_iff, Bool-cases, some_inj, filter, Has, All,
}
use ryuk.Prelude.Result.{ok, ok_inj}
use mathlib.Core.Path.{subst}
use ryuk.Workflows.Store.Tables.{
  running, uncertain, Workflow, WorkflowStore, find, is_workflow, select_workflow, update_workflow,
  add_event,
}
use ryuk.Workflows.Store.Keys.{
  IsKeyed, DistinctKeys, Apart, find-Has, DistinctKeys-filter, DistinctKeys-append,
}
use ryuk.Workflows.Store.Recovery.{set_uncertain, is_expired, expire, expire_all, recover_expired}
use ryuk.Workflows.Store.Lifecycle.{
  Moves, lost, is_state-eq, stays, moves, Advances, update-Advances, Advances-same,
  select-update_self, select-update_other,
}
use ryuk.Workflows.Store.Effects.{set_uncertain-KeepsKey}

-- One store after another, each advancing the last.
pub data Reaches : WorkflowStore → WorkflowStore → Type 0 where
  here : {s : WorkflowStore} → Reaches s s
  further : {s m s' : WorkflowStore} → Advances s m → Reaches m s' → Reaches s s'

pub Reaches-trans : {s m s' : WorkflowStore} → Reaches s m → Reaches m s' → Reaches s s'
Reaches-trans here b = b
Reaches-trans (further a rest) b = further a (Reaches-trans rest b)

find-append :
    (p : Workflow → Bool) (rows : List Workflow) (q r : Workflow)
    → find p rows ≡ some r
    → find p (rows ++ q ∷ []) ≡ some r
unfolding find
find-append p [] q r h = absurd (cc)
find-append p (y ∷ ys) q r h = elim (Bool-cases (p y)) [
  | inl passes ↦ rw passes (rw passes at h)
  | inr fails ↦ rw fails (find-append p ys q r (rw fails at h))
]

pub append-Advances :
    (s s' : WorkflowStore) (q : Workflow)
    → find (λ r. r.id == q.id) s.workflows ≡ none
    → s'.workflows ≡ s.workflows ++ q ∷ []
    → Advances s s'
unfolding select_workflow
append-Advances s s' q fresh e = record {
  row_of = λ t i row found.
      (row, rw e (find-append (is_workflow t i) s.workflows q row found), stays refl);
  keys_kept = λ d. rw e (DistinctKeys-append q s.workflows d fresh);
}

-- Whatever row has the key, it is uncertain.
abbrev pub Unsure : String → String → WorkflowStore → Type 0
Unsure t i s = (row : Workflow) → select_workflow t i s ≡ some row → row.state ≡ uncertain

pub expire-selects :
    (t i : String) (r q : Workflow) (s : WorkflowStore)
    → select_workflow r.tenant r.id s ≡ some q
    → (select_workflow t i (expire r.tenant r s) ≡ select_workflow t i s)
      ⊎ ((r.tenant ≡ t)
          × (r.id ≡ i)
          × (select_workflow t i (expire r.tenant r s) ≡ some (set_uncertain (r.fence + 1) q)))
unfolding expire add_event select_workflow
expire-selects t i r q s e =
    let k = set_uncertain-KeepsKey (r.fence + 1) in
    elim (Bool-cases (r.tenant == t && r.id == i)) [
      | inr other ↦
          inl (select-update_other r.tenant r.id (set_uncertain (r.fence + 1)) k s t i other)
      | inl same ↦
          let same_tenant : r.tenant ≡ t = ground (arith, eq_iff r.tenant t) in
          let same_id : r.id ≡ i = ground (arith, eq_iff r.id i) in
          inr (
            same_tenant,
            same_id,
            rw (← same_tenant, ← same_id)
                (select-update_self r.tenant r.id (set_uncertain (r.fence + 1)) k s q e),
          )
    ]

expire-Advances :
    (r : Workflow) (s : WorkflowStore)
    → select_workflow r.tenant r.id s ≡ some r
    → r.state ≡ running
    → Advances s (expire r.tenant r s)
unfolding expire add_event
expire-Advances r s e ran =
    let f = set_uncertain (r.fence + 1) in
    Advances-same s (update_workflow r.tenant r.id f s) (expire r.tenant r s)
      (update-Advances r.tenant r.id f (set_uncertain-KeepsKey (r.fence + 1)) s r e (
        moves (subst (λ st. Moves st uncertain) (sym ran) lost) (omega arith)
          (record { packet_kept = refl; hash_kept = refl; result_kept = λ late. (refl, refl) })))
      refl

-- Each row of the list is the one that its key selects.
abbrev pub Selected : WorkflowStore → List Workflow → Type 0
Selected s rows = All (λ r. select_workflow r.tenant r.id s ≡ some r) rows

pub Selected-expire :
    (r : Workflow) (rows : List Workflow) (s : WorkflowStore)
    → select_workflow r.tenant r.id s ≡ some r
    → Apart r rows
    → Selected s rows
    → Selected (expire r.tenant r s) rows
Selected-expire r [] s e a d = tt
Selected-expire r (q ∷ qs) s e a d = (
  elim (expire-selects q.tenant q.id r r s e) [
    | inl same ↦ same ∙ d.0
    | inr (t, i, _) ↦ absurd (ground (arith, a.0, eq_iff q.tenant r.tenant, eq_iff q.id r.id))
  ],
  Selected-expire r qs s e a.1 d.1,
)

pub expire_all-Reaches :
    (rows : List Workflow) (s : WorkflowStore)
    → DistinctKeys rows
    → Selected s rows
    → All (λ r. r.state ≡ running) rows
    → Reaches s (expire_all rows s)
unfolding expire_all
expire_all-Reaches [] s d e ran = here
expire_all-Reaches (r ∷ rows) s d e ran =
    further (expire-Advances r s e.0 ran.0) (
      expire_all-Reaches rows (expire r.tenant r s) d.1 (Selected-expire r rows s e.0 d.0 e.1)
        ran.1)

-- An expiry leaves uncertain what is uncertain, and makes its own row so.
Unsure-expire :
    (t i : String) (r : Workflow) (s : WorkflowStore)
    → select_workflow r.tenant r.id s ≡ some r
    → Unsure t i s
    → Unsure t i (expire r.tenant r s)
Unsure-expire t i r s e u row found = elim (expire-selects t i r r s e) [
  | inl same ↦ u row (sym same ∙ found)
  | inr (_, _, made) ↦ sym (ap (λ (y : Workflow). y.state) (some_inj (sym made ∙ found)))
]

expire-Unsure :
    (r : Workflow) (s : WorkflowStore)
    → select_workflow r.tenant r.id s ≡ some r
    → Unsure r.tenant r.id (expire r.tenant r s)
unfolding expire add_event select_workflow
expire-Unsure r s e row found =
    let made =
      select-update_self r.tenant r.id (set_uncertain (r.fence + 1))
        (set_uncertain-KeepsKey (r.fence + 1)) s r e in
    sym (ap (λ (y : Workflow). y.state) (some_inj (sym made ∙ found)))

module _ (t i : String) where
  pub Unsure-expire_all :
      (rows : List Workflow) (s : WorkflowStore)
      → DistinctKeys rows
      → Selected s rows
      → Unsure t i s
      → Unsure t i (expire_all rows s)
  unfolding expire_all
  Unsure-expire_all [] s d e u = u
  Unsure-expire_all (r ∷ rows) s d e u =
      Unsure-expire_all rows (expire r.tenant r s) d.1 (Selected-expire r rows s e.0 d.0 e.1)
        (Unsure-expire t i r s e.0 u)

pub expire_all-Unsure :
    (rows : List Workflow) (s : WorkflowStore) (r : Workflow)
    → DistinctKeys rows
    → Selected s rows
    → Has rows r
    → Unsure r.tenant r.id (expire_all rows s)
unfolding expire_all
expire_all-Unsure [] s r d e h = absurd h
expire_all-Unsure (q ∷ rows) s r d e (inl same) =
    subst (λ y. Unsure y.tenant y.id (expire_all rows (expire q.tenant q s))) same
      (Unsure-expire_all q.tenant q.id rows (expire q.tenant q s) d.1
        (Selected-expire q rows s e.0 d.0 e.1) (expire-Unsure q s e.0))
expire_all-Unsure (q ∷ rows) s r d e (inr h) =
    expire_all-Unsure rows (expire q.tenant q s) r d.1 (Selected-expire q rows s e.0 d.0 e.1) h

-- What a filter of the table selects.
pub filter-Selected :
    (p : Workflow → Bool) (s : WorkflowStore) (rows : List Workflow)
    → IsKeyed s
    → ((r : Workflow) → Has rows r → Has s.workflows r)
    → Selected s (filter p rows)
unfolding filter select_workflow
filter-Selected p s [] d inside = tt
filter-Selected p s (r ∷ rows) d inside = elim (Bool-cases (p r)) [
  | inl passes ↦ rw passes (
    find-Has s.workflows r d (inside r (inl refl)),
    filter-Selected p s rows d (λ q h. inside q (inr h)),
  )
  | inr fails ↦ rw fails (filter-Selected p s rows d (λ q h. inside q (inr h)))
]

pub filter-All :
    (p : Workflow → Bool) (P : Workflow → Type 0) (rows : List Workflow)
    → ((r : Workflow) → p r ≡ true → P r)
    → All P (filter p rows)
unfolding filter
filter-All p P [] f = tt
filter-All p P (r ∷ rows) f = elim (Bool-cases (p r)) [
  | inl passes ↦ rw passes (f r passes, filter-All p P rows f)
  | inr fails ↦ rw fails (filter-All p P rows f)
]

pub recover_expired-Reaches :
    (tenant : String) (now count : ℕ) (s s' : WorkflowStore)
    → IsKeyed s
    → recover_expired tenant now s ≡ ok (count, s')
    → Reaches s s'
unfolding recover_expired is_expired
recover_expired-Reaches tenant now count s s' d h =
    let p : Workflow → Bool = λ r. r.tenant == tenant && is_expired now r in
    subst (Reaches s) (ap (λ (y : ℕ × WorkflowStore). y.1) (ok_inj h)) (
      expire_all-Reaches (filter p s.workflows) s (DistinctKeys-filter p s.workflows d)
        (filter-Selected p s s.workflows d (λ r inside. inside))
        (filter-All p (λ r. r.state ≡ running) s.workflows
          (λ r passes. is_state-eq r.state running (ground arith))))
