-- ===== src/Workflows/Store/Recovery.antt =====
-- Recovery in backend/workflows/store.py: leases that are over, and outcomes that were recorded.
use ryuk.Prelude.{
  ℕ, ◌+◌, String, Bool, false, not, ◌&&◌, ◌||◌, Option, none, some, List, [], ◌∷◌, ◌++◌, map,
  if◌then◌else◌, ◌==◌, eqb, leb, ltb, filter, length,
}
use ryuk.Prelude.Result.{
  Result, ok, err, value_error, conflict, type_error, raise_if, or_raise, ◌>>=◌, ◌>>◌,
}
use ryuk.Workflows.Store.Tables.{
  WorkflowState, running, uncertain, entered, Workflow, Dispatch, WorkflowStore, select_workflow,
  update_workflow, select_dispatch, add_event,
}
use ryuk.Workflows.Store.External.{External, Tx, is_state, is_text}
use ryuk.Workflows.Store.Operations.{outcome_state, commit_result}

module _ (x : External) where
  -- The evidence of an outcome for a workflow whose fence is now `fence`.
  unfoldable pub check_outcome : Dispatch → String → ℕ → Result Bool
  check_outcome d encoded fence = do
    raise_if (not (eqb (d.fence + 1) fence)) conflict
    raise_if (not (is_text d.outcome_sha256 (x.sha256 encoded))) conflict
    success ← or_raise d.succeeded conflict
    object ← or_raise (x.reads_object encoded) value_error
    raise_if (not object) conflict
    ok success

  -- `reconcile_uncertain` for an uncertain row; the journal decides.
  unfoldable pub reconcile_row :
      String → String → Workflow → Option Dispatch → String → Tx WorkflowState
  reconcile_row tenant id row none artifact_id s = ok (uncertain, s)
  reconcile_row tenant id row (some d) artifact_id s = elim d.outcome_json [
    | none ↦ ok (uncertain, s)
    | some encoded ↦ (do
      success ← check_outcome d encoded row.fence
      (_, s') ← commit_result x tenant id row.fence encoded success artifact_id s
      ok (outcome_state success, s'))
  ]

  -- `reconcile_uncertain`
  unfoldable pub reconcile_uncertain : String → String → String → Tx WorkflowState
  reconcile_uncertain tenant id artifact_id s = do
    row ← or_raise (select_workflow tenant id s) conflict
    if not (is_state row.state uncertain)
        then ok (row.state, s)
        else reconcile_row tenant id row (select_dispatch tenant id s) artifact_id s

-- `state='running' AND lease_until<=?`; a NULL passes no comparison.
unfoldable pub is_expired : ℕ → Workflow → Bool
is_expired now row =
    is_state row.state running && elim row.lease_until [ none ↦ false | some t ↦ leb t now ]

-- The SET clause of the UPDATE statement.
abbrev pub set_uncertain : ℕ → Workflow → Workflow
set_uncertain fence r = record r {
  state = uncertain;
  fence = fence;
  owner = none;
  lease_until = none;
}

-- The two statements for a row whose lease is over.
unfoldable pub expire : String → Workflow → WorkflowStore → WorkflowStore
expire tenant row s =
    add_event tenant row.id (entered uncertain) (row.fence + 1)
      (update_workflow tenant row.id (set_uncertain (row.fence + 1)) s)

unfoldable pub expire_all : List Workflow → WorkflowStore → WorkflowStore
expire_all [] s = s
expire_all (row ∷ rows) s = expire_all rows (expire row.tenant row s)

-- `recover_expired`
unfoldable pub recover_expired : String → ℕ → Tx ℕ
recover_expired tenant now s =
    let rows = filter (λ r. r.tenant == tenant && is_expired now r) s.workflows in
    ok (length rows, expire_all rows s)

-- `WHERE state='uncertain' OR (state='running' AND lease_until<=?)`
unfoldable pub needs_recovery : ℕ → Workflow → Bool
needs_recovery now row = is_state row.state uncertain || is_expired now row

-- Why a workflow stays uncertain.
pub data Reason : Type 0 where
  outcome_unknown invalid_outcome_evidence : Reason

pub record StartupReport : Type 0 where
  pub scanned : ℕ
  pub expired : List (String × String)
  pub reconciled : List (String × String × WorkflowState)
  pub unresolved : List (String × String × Reason)

abbrev pub add_unresolved : Workflow → Reason → StartupReport → StartupReport
add_unresolved c reason report = record report {
  unresolved = report.unresolved ++ (c.tenant, c.id, reason) ∷ [];
}

abbrev pub add_reconciled : Workflow → WorkflowState → StartupReport → StartupReport
add_reconciled c state report = record report {
  reconciled = report.reconciled ++ (c.tenant, c.id, state) ∷ [];
}

module _ (x : External) where
  -- A candidate whose journal has an outcome, valid or not.
  unfoldable pub settle_outcome :
      Workflow → Workflow → String → Result Bool → String → StartupReport → Tx StartupReport
  settle_outcome c row encoded (err e) artifact_id report s =
      ok (add_unresolved c invalid_outcome_evidence report, s)
  settle_outcome c row encoded (ok success) artifact_id report s = do
    (_, s') ← commit_result x c.tenant c.id row.fence encoded success artifact_id s
    ok (add_reconciled c (outcome_state success) report, s')

  unfoldable pub settle_journal :
      Workflow → Workflow → Option Dispatch → String → StartupReport → Tx StartupReport
  settle_journal c row none artifact_id report s = ok (add_unresolved c outcome_unknown report, s)
  settle_journal c row (some d) artifact_id report s = elim d.outcome_json [
    | none ↦ ok (add_unresolved c outcome_unknown report, s)
    | some encoded ↦
        settle_outcome c row encoded (check_outcome x d encoded row.fence) artifact_id report s
  ]

  -- The loop over the candidates. `fresh` gives the identifiers that `uuid4` returns, and `n` counts
  -- the candidates so far. A candidate is a row of the table, so that its lookup finds one: the error
  -- stands for a case that does not occur, which the code would report as unresolved.
  unfoldable pub settle_all : List Workflow → (ℕ → String) → ℕ → StartupReport → Tx StartupReport
  settle_all [] fresh n report s = ok (report, s)
  settle_all (c ∷ cs) fresh n report s = do
    row ← or_raise (select_workflow c.tenant c.id s) type_error
    (report', s') ← settle_journal c row (select_dispatch c.tenant c.id s) (fresh n) report s
    settle_all cs fresh (n + 1) report' s'

  -- `recover_startup`
  unfoldable pub recover_startup : ℕ → ℕ → (ℕ → String) → Tx StartupReport
  recover_startup limit now fresh s = do
    raise_if (ltb limit 1 || ltb 100_000 limit) value_error
    let candidates = filter (needs_recovery now) s.workflows
    raise_if (ltb limit (length candidates)) conflict
    let expired = filter (λ r. is_state r.state running) candidates
    let report : StartupReport = record {
      scanned = length candidates;
      expired = map (λ r. (r.tenant, r.id)) expired;
      reconciled = [];
      unresolved = [];
    }
    settle_all candidates fresh 0 report (expire_all expired s)
