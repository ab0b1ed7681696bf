-- ===== src/Workflows/Store/Startup.antt =====
-- `recover_startup` of backend/workflows/store.py: one step for each lease that is over, then one
-- for each outcome that the journal proves.
use ryuk.Prelude.{
  ℕ, ◌+◌, String, ◌≡◌, refl, sym, ap, ◌∙◌, ◌⊎◌, inl, inr, Bool, false, ◌&&◌, ◌||◌, Option, none,
  some, List, [], ◌∷◌, map, arith, ◌==◌, eq_iff, Option-cases, Bool-cases, some_inj, filter, length,
  Has, All, ltb,
}
use ryuk.Prelude.Result.{
  Result, ok, err, conflict, value_error, type_error, raise_if, or_raise, bind-ok, or_raise-ok,
  ok_inj,
}
use mathlib.Core.Path.{subst}
use ryuk.Workflows.Store.Tables.{
  running, uncertain, Workflow, Artifact, Dispatch, WorkflowStore, select_workflow, select_dispatch,
}
use ryuk.Workflows.Store.External.{External, is_state}
use ryuk.Workflows.Store.Keys.{
  IsKeyed, DistinctKeys, Apart, find-Has, DistinctKeys-filter, Has-filter, filter-Has,
}
use ryuk.Workflows.Store.Operations.{commit_result, outcome_state, set_outcome}
use ryuk.Workflows.Store.Recovery.{
  is_expired, expire_all, needs_recovery, StartupReport, recover_startup, settle_all,
  settle_journal, settle_outcome, check_outcome,
}
use ryuk.Workflows.Store.Lifecycle.{Moves, stage, is_state-eq, select-update_other}
use ryuk.Workflows.Store.Effects.{
  set_outcome-KeepsKey, from_uncertain, early_of, commit_result-rows,
}
use ryuk.Workflows.Store.Advances.{outcome-Advances}
use ryuk.Workflows.Store.Reaches.{
  Reaches, here, further, Reaches-trans, Unsure, Unsure-expire_all, Selected, expire_all-Reaches,
  expire_all-Unsure, filter-Selected, filter-All,
}

Apart-Has_key :
    (r : Workflow) (rows : List Workflow) (q : Workflow)
    → Apart r rows
    → Has rows q
    → (r.tenant == q.tenant && r.id == q.id) ≡ false
Apart-Has_key r [] q a h = absurd h
Apart-Has_key r (y ∷ ys) q a (inl e) =
    subst (λ (z : Workflow). (r.tenant == z.tenant && r.id == z.id) ≡ false) e
      (ground (
        arith,
        a.0,
        eq_iff y.tenant r.tenant,
        eq_iff r.tenant y.tenant,
        eq_iff y.id r.id,
        eq_iff r.id y.id,
      ))
Apart-Has_key r (y ∷ ys) q a (inr h) = Apart-Has_key r ys q a.1 h

abbrev AllUnsure : WorkflowStore → List Workflow → Type 0
AllUnsure s rows = All (λ c. Unsure c.tenant c.id s) rows

module _ (x : External) where
  settle_outcome_lem :
      (c row : Workflow) (encoded : String) (checked : Result Bool) (artifact_id : String)
      (report report' : StartupReport) (s s' : WorkflowStore)
      → settle_outcome x c row encoded checked artifact_id report s ≡ ok (report', s')
      → (s' ≡ s)
        ⊎ ((success : Bool) × (a : Artifact) × (commit_result x c.tenant c.id row.fence encoded
                success artifact_id s
              ≡ ok (a, s')))
  unfolding settle_outcome
  settle_outcome_lem c row encoded (err e) artifact_id report report' s s' h =
      inl (sym (ap (λ (y : StartupReport × WorkflowStore). y.1) (ok_inj h)))
  settle_outcome_lem c row encoded (ok success) artifact_id report report' s s' h =
      let ((a, t), committed, made) =
        bind-ok (commit_result x c.tenant c.id row.fence encoded success artifact_id s) _ h in
      inr (
        success,
        a,
        subst
            (λ y. commit_result x c.tenant c.id row.fence encoded success artifact_id s ≡ ok (a, y))
            (ap (λ (p : StartupReport × WorkflowStore). p.1) (ok_inj made)) committed,
      )

  settle_journal_lem :
      (c row : Workflow) (d : Option Dispatch) (artifact_id : String)
      (report report' : StartupReport) (s s' : WorkflowStore)
      → settle_journal x c row d artifact_id report s ≡ ok (report', s')
      → (s' ≡ s)
        ⊎ ((encoded : String) × (success : Bool) × (a : Artifact) × (commit_result x c.tenant c.id
                row.fence encoded success artifact_id s
              ≡ ok (a, s')))
  unfolding settle_journal
  settle_journal_lem c row none artifact_id report report' s s' h =
      inl (sym (ap (λ (y : StartupReport × WorkflowStore). y.1) (ok_inj h)))
  settle_journal_lem c row (some d) artifact_id report report' s s' h =
      elim (Option-cases d.outcome_json) [
        | inl missing ↦
            inl (sym (ap (λ (y : StartupReport × WorkflowStore). y.1) (ok_inj (rw missing at h))))
        | inr (encoded, e) ↦
            elim (settle_outcome_lem c row encoded (check_outcome x d encoded row.fence) artifact_id
              report report' s s' (rw e at h)) [
                | inl same ↦ inl same
                | inr (success, a, committed) ↦ inr (encoded, success, a, committed)
              ]
      ]

  -- A settled candidate leaves the others as they were.
  commit-Unsure :
      (c : Workflow) (fence : ℕ) (encoded : String) (success : Bool) (artifact_id : String)
      (a : Artifact) (s s' : WorkflowStore) (cs : List Workflow)
      → commit_result x c.tenant c.id fence encoded success artifact_id s ≡ ok (a, s')
      → Apart c cs
      → AllUnsure s cs
      → AllUnsure s' cs
  unfolding select_workflow
  commit-Unsure c fence encoded success artifact_id a s s' [] committed apart u = tt
  commit-Unsure c fence encoded success artifact_id a s s' (q ∷ qs) committed apart u = (
    λ row found.
        let f = set_outcome success encoded artifact_id in
        let k = set_outcome-KeepsKey success encoded artifact_id in
        let rows =
          commit_result-rows x c.tenant c.id fence encoded success artifact_id a s s' committed in
        let other = Apart-Has_key c (q ∷ qs) q apart (inl refl) in
        u.0 row
          (sym (select-update_other c.tenant c.id f k s q.tenant q.id other) ∙ rw (← rows) found),
    commit-Unsure c fence encoded success artifact_id a s s' qs committed apart.1 u.1,
  )

  settle_all-Reaches :
      (cs : List Workflow) (fresh : ℕ → String) (n : ℕ) (report report' : StartupReport)
      (s s' : WorkflowStore)
      → DistinctKeys cs
      → AllUnsure s cs
      → settle_all x cs fresh n report s ≡ ok (report', s')
      → Reaches s s'
  unfolding settle_all
  settle_all-Reaches [] fresh n report report' s s' d u h =
      subst (Reaches s) (ap (λ (y : StartupReport × WorkflowStore). y.1) (ok_inj h)) here
  settle_all-Reaches (c ∷ cs) fresh n report report' s s' d u h =
      let (row, looked, after) =
        bind-ok (or_raise (select_workflow c.tenant c.id s) type_error) _ h in
      let found = or_raise-ok (select_workflow c.tenant c.id s) type_error looked in
      let ((r1, s1), settled, rest) =
        bind-ok (settle_journal x c row (select_dispatch c.tenant c.id s) (fresh n) report s) _
          after in
      elim (settle_journal_lem c row (select_dispatch c.tenant c.id s) (fresh n) report r1 s s1
        settled) [
          | inl same ↦
              settle_all-Reaches cs fresh (n + 1) r1 report' s s' d.1 u.1
                (subst (λ y. settle_all x cs fresh (n + 1) r1 y ≡ ok (report', s')) same rest)
          | inr (encoded, success, a, committed) ↦
              further
                (outcome-Advances x c.tenant c.id row.fence encoded success (fresh n) a s s1 row
                  found
                  (subst (λ st. Moves st (outcome_state success)) (sym (u.0 row found))
                    (from_uncertain success))
                  (early_of row.state uncertain (u.0 row found) (unfold stage in omega arith))
                  committed)
                (settle_all-Reaches cs fresh (n + 1) r1 report' s1 s' d.1
                  (commit-Unsure c row.fence encoded success (fresh n) a s s1 cs committed d.0 u.1)
                  rest)
        ]

-- The candidates are uncertain when the leases that are over have been ended.
module _ (now : ℕ) (s : WorkflowStore) (d : IsKeyed s) where
  abbrev is_running_row : Workflow → Bool
  is_running_row r = is_state r.state running

  abbrev candidates : List Workflow
  candidates = filter (needs_recovery now) s.workflows

  candidates-Distinct : DistinctKeys candidates
  candidates-Distinct = DistinctKeys-filter (needs_recovery now) s.workflows d

  running-Selected : Selected s (filter is_running_row candidates)
  running-Selected =
      filter-Selected is_running_row s candidates d
        (λ r h. (Has-filter (needs_recovery now) s.workflows r h).0)

  running-Distinct : DistinctKeys (filter is_running_row candidates)
  running-Distinct = DistinctKeys-filter is_running_row candidates candidates-Distinct

  candidate-Unsure :
      (c : Workflow)
      → Has candidates c
      → Unsure c.tenant c.id (expire_all (filter is_running_row candidates) s)
  unfolding needs_recovery is_expired select_workflow
  candidate-Unsure c h = elim (Bool-cases (is_state c.state running)) [
    | inl ran ↦
        expire_all-Unsure (filter is_running_row candidates) s c running-Distinct running-Selected
          (filter-Has is_running_row candidates c h ran)
    | inr idle ↦
        let (inside, passes) = Has-filter (needs_recovery now) s.workflows c h in
        Unsure-expire_all c.tenant c.id (filter is_running_row candidates) s running-Distinct
          running-Selected
          (λ row found.
            subst (λ (y : Workflow). y.state ≡ uncertain)
              (some_inj (sym (find-Has s.workflows c d inside) ∙ found))
              (is_state-eq c.state uncertain (ground arith)))
  ]

  all-Unsure :
      (cs : List Workflow)
      → ((c : Workflow) → Has cs c → Has candidates c)
      → AllUnsure (expire_all (filter is_running_row candidates) s) cs
  all-Unsure [] inside = tt
  all-Unsure (c ∷ cs) inside =
      (candidate-Unsure c (inside c (inl refl)), all-Unsure cs (λ q h. inside q (inr h)))

  running-Reaches : Reaches s (expire_all (filter is_running_row candidates) s)
  running-Reaches =
      expire_all-Reaches (filter is_running_row candidates) s running-Distinct running-Selected (
        filter-All is_running_row (λ r. r.state ≡ running) candidates
          (λ r passes. is_state-eq r.state running passes))

pub recover_startup-Reaches :
    (x : External) (limit now : ℕ) (fresh : ℕ → String) (report : StartupReport)
    (s s' : WorkflowStore)
    → IsKeyed s
    → recover_startup x limit now fresh s ≡ ok (report, s')
    → Reaches s s'
unfolding recover_startup
recover_startup-Reaches x limit now fresh report s s' d h =
    let (_, in_range, h1) = bind-ok (raise_if (ltb limit 1 || ltb 100_000 limit) value_error) _ h in
    let (_, in_limit, h2) =
      bind-ok (raise_if (ltb limit (length (candidates now s d))) conflict) _ h1 in
    let expired = filter (λ r. is_state r.state running) (candidates now s d) in
    Reaches-trans (running-Reaches now s d) (
      settle_all-Reaches x (candidates now s d) fresh 0
        (record {
          scanned = length (candidates now s d);
          expired = map (λ r. (r.tenant, r.id)) expired;
          reconciled = [];
          unresolved = [];
        })
        report (expire_all expired s) s' (candidates-Distinct now s d)
        (all-Unsure now s d (candidates now s d) (λ c h. h)) h2)
