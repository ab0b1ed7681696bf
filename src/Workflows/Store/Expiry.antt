-- ===== src/Workflows/Store/Expiry.antt =====
-- The rows of leases that are over, after `recover_expired` of backend/workflows/store.py.
use ryuk.Prelude.{
  ℕ, ◌+◌, ◌≤◌, String, ◌≡◌, refl, ◌∙◌, inl, inr, Bool, true, ◌&&◌, some, List, [], ◌∷◌, arith, ◌==◌,
  eq_iff, eq_refl, Bool-cases, some_inj, filter, length, Has,
}
use ryuk.Prelude.Result.{ok}
use mathlib.Core.Path.{subst}
use ryuk.Workflows.Store.Tables.{
  running, Workflow, WorkflowStore, find, is_workflow, select_workflow, update_workflow, add_event,
}
use ryuk.Workflows.Store.External.{is_state}
use ryuk.Workflows.Store.Keys.{IsKeyed, DistinctKeys, Apart, DistinctKeys-filter, filter-Has}
use ryuk.Workflows.Store.Lifecycle.{select-update_self}
use ryuk.Workflows.Store.Recovery.{set_uncertain, is_expired, expire, expire_all, recover_expired}
use ryuk.Workflows.Store.Effects.{set_uncertain-KeepsKey}
use ryuk.Workflows.Store.Reaches.{expire-selects, Selected, Selected-expire, filter-Selected}

-- The row of an expired lease, after the whole batch.
expire_all-other :
    (r : Workflow) (rows : List Workflow) (s : WorkflowStore)
    → DistinctKeys rows
    → Selected s rows
    → Apart r rows
    → select_workflow r.tenant r.id (expire_all rows s) ≡ select_workflow r.tenant r.id s
unfolding expire_all
expire_all-other r [] s d e a = refl
expire_all-other r (q ∷ rows) s d e a =
    expire_all-other r rows (expire q.tenant q s) d.1 (Selected-expire q rows s e.0 d.0 e.1) a.1
    ∙ elim (expire-selects r.tenant r.id q q s e.0) [
      | inl same ↦ same
      | inr (t, i, _) ↦ absurd (ground (arith, a.0, eq_iff q.tenant r.tenant, eq_iff q.id r.id))
    ]

expire_self :
    (r : Workflow) (s : WorkflowStore)
    → select_workflow r.tenant r.id s ≡ some r
    → select_workflow r.tenant r.id (expire r.tenant r s) ≡ some (set_uncertain (r.fence + 1) r)
unfolding expire add_event select_workflow
expire_self r s e =
    select-update_self r.tenant r.id (set_uncertain (r.fence + 1))
      (set_uncertain-KeepsKey (r.fence + 1)) s r e

expire_all-selects :
    (r : Workflow) (rows : List Workflow) (s : WorkflowStore)
    → DistinctKeys rows
    → Selected s rows
    → Has rows r
    → select_workflow r.tenant r.id (expire_all rows s) ≡ some (set_uncertain (r.fence + 1) r)
unfolding expire_all
expire_all-selects r [] s d e h = absurd h
expire_all-selects r (q ∷ rows) s d e (inl same) =
    subst
      (λ (y : Workflow).
        select_workflow y.tenant y.id (expire_all rows (expire q.tenant q s))
        ≡ some (set_uncertain (y.fence + 1) y))
      same
      (expire_all-other q rows (expire q.tenant q s) d.1 (Selected-expire q rows s e.0 d.0 e.1) d.0
        ∙ expire_self q s e.0)
expire_all-selects r (q ∷ rows) s d e (inr h) =
    expire_all-selects r rows (expire q.tenant q s) d.1 (Selected-expire q rows s e.0 d.0 e.1) h

expire_all-dispatches :
    (rows : List Workflow) (s : WorkflowStore)
    → ((expire_all rows s).dispatches ≡ s.dispatches)
      × ((expire_all rows s).artifacts ≡ s.artifacts)
unfolding expire_all expire add_event update_workflow
expire_all-dispatches [] s = (refl, refl)
expire_all-dispatches (r ∷ rows) s = expire_all-dispatches rows (expire r.tenant r s)

find-passes :
    (p : Workflow → Bool) (rows : List Workflow) (r : Workflow)
    → find p rows ≡ some r
    → Has rows r × (p r ≡ true)
unfolding find
find-passes p [] r h = absurd (cc)
find-passes p (y ∷ ys) r h = elim (Bool-cases (p y)) [
  | inl passes ↦
      let same : y ≡ r = some_inj (rw passes at h) in
      (inl same, subst (λ z. p z ≡ true) same passes)
  | inr fails ↦ let (there, holds) = find-passes p ys r (rw fails at h) in (inr there, holds)
]

module _ (tenant id : String) (now : ℕ) where
  is_due : Workflow → Bool
  is_due r = r.tenant == tenant && is_expired now r

  -- `recover_expired` makes the row of a lease that is over uncertain, one fence on.
  pub recover_expired-selects :
      (row : Workflow) (until : ℕ) (s : WorkflowStore)
      → IsKeyed s
      → select_workflow tenant id s ≡ some row
      → row.state ≡ running
      → row.lease_until ≡ some until
      → until ≤ now
      → (count : ℕ) × (s' : WorkflowStore) × (recover_expired tenant now s ≡ ok (count, s'))
        × (select_workflow tenant id s' ≡ some (set_uncertain (row.fence + 1) row))
        × (s'.dispatches ≡ s.dispatches)
        × (s'.artifacts ≡ s.artifacts)
  unfolding recover_expired is_due
  recover_expired-selects row until s d found ran lease over =
      let rows = filter is_due s.workflows in
      let (inside, passes) =
        find-passes (is_workflow tenant id) s.workflows row (unfold select_workflow in found) in
      let same_tenant : row.tenant ≡ tenant = ground (arith, eq_iff row.tenant tenant) in
      let same_id : row.id ≡ id = ground (arith, eq_iff row.id id) in
      let due : is_due row ≡ true =
        unfold is_expired is_state in rw (same_tenant, eq_refl, ran, lease) (ground arith) in
      (
        length rows,
        expire_all rows s,
        refl,
        subst
            (λ i.
              select_workflow tenant i (expire_all rows s)
              ≡ some (set_uncertain (row.fence + 1) row))
            same_id
            (subst
              (λ t.
                select_workflow t row.id (expire_all rows s)
                ≡ some (set_uncertain (row.fence + 1) row))
              same_tenant
              (expire_all-selects row rows s (DistinctKeys-filter is_due s.workflows d)
                (filter-Selected is_due s s.workflows d (λ r h. h))
                (filter-Has is_due s.workflows row inside due))),
        (expire_all-dispatches rows s).0,
        (expire_all-dispatches rows s).1,
      )
