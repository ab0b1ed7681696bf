-- ===== src/Workflows/Store/Acceptance.antt =====
-- The acceptance of a result, and cancellation, in backend/workflows/store.py.
use ryuk.Prelude.{
  ℕ, ◌+◌, String, Bool, true, false, not, ◌&&◌, Option, none, some, [], ◌∷◌, ◌++◌, if◌then◌else◌,
  ◌==◌,
}
use ryuk.Prelude.Result.{Result, ok, err, conflict, raise_if, or_raise, ◌>>=◌, ◌>>◌}
use ryuk.Workflows.Store.Tables.{
  WorkflowState, ready, running, awaiting_validation, succeeded, rejected, cancelled, entered,
  Workflow, Artifact, Report, Validation, Binding, WorkflowStore, select_workflow, update_workflow,
  select_validation, select_binding, get_artifact, add_event,
}
use ryuk.Workflows.Store.External.{External, Tx, is_state}

-- The SET clauses of the UPDATE statements.
abbrev pub set_judged : WorkflowState → Workflow → Workflow
set_judged state r = record r { state = state }

abbrev pub set_cancelled : ℕ → Workflow → Workflow
set_cancelled fence r = record r {
  state = cancelled;
  fence = fence;
  owner = none;
  lease_until = none;
}

-- `get_artifact` with the row's column, which may be NULL.
abbrev pub result_artifact : String → String → Workflow → WorkflowStore → Option Artifact
result_artifact tenant id row s = elim row.result_artifact_id [
  | none ↦ none
  | some artifact_id ↦ get_artifact tenant id artifact_id s
]

module _ (x : External) where
  -- The policy that decides: the one that is bound, or the one that is given.
  unfoldable pub validation_policy : Option Binding → Option String → Result String
  validation_policy (some b) none = ok (x.binding_policy b.binding_json)
  validation_policy (some b) (some policy) = do
    raise_if (not (policy == x.binding_policy b.binding_json)) conflict
    ok (x.binding_policy b.binding_json)
  validation_policy none (some policy) = ok policy
  validation_policy none none = err conflict

  -- The decision: a recorded one is returned, and must be about the same input.
  unfoldable pub decide :
      String → String → Workflow → String → Artifact → Option Validation → Tx Report
  decide tenant id row policy artifact (some v) s = do
    raise_if
        (not (
          v.report.policy == policy
          && (v.report.artifact_id == artifact.id && v.report.sha256 == artifact.sha256)))
        conflict
    ok (v.report, s)
  decide tenant id row policy artifact none s = do
    raise_if (not (is_state row.state awaiting_validation)) conflict
    let report : Report = record {
      policy = policy;
      artifact_id = artifact.id;
      sha256 = artifact.sha256;
      accepted = x.accepts artifact.content_json policy;
    }
    let state : WorkflowState = if report.accepted then succeeded else rejected
    let recorded = record s {
      validations =
          s.validations ++ record { workflow_id = id; tenant = tenant; report = report } ∷ [];
    }
    let judged = update_workflow tenant id (set_judged state) recorded
    ok (report, add_event tenant id (entered state) row.fence judged)

  -- `validate`; `policy` is the canonical text of the given policy's snapshot.
  unfoldable pub validate : String → String → Option String → Tx Report
  validate tenant id policy s = do
    chosen ← validation_policy (select_binding tenant id s) policy
    row ← or_raise (select_workflow tenant id s) conflict
    artifact ← or_raise (result_artifact tenant id row s) conflict
    decide tenant id row chosen artifact (select_validation tenant id s) s

-- `row["state"] in ("ready", "running", "awaiting_validation")`
unfoldable pub is_cancellable : WorkflowState → Bool
is_cancellable ready = true
is_cancellable running = true
is_cancellable awaiting_validation = true
is_cancellable _ = false

unfoldable pub cancel_row : String → String → Option Workflow → Tx Bool
cancel_row tenant id none s = ok (false, s)
cancel_row tenant id (some row) s =
    if is_state row.state cancelled
    then ok (true, s)
    else if not (is_cancellable row.state)
    then ok (false, s)
    else ok (
      true,
      add_event tenant id (entered cancelled) (row.fence + 1)
          (update_workflow tenant id (set_cancelled (row.fence + 1)) s),
    )

-- `cancel`
unfoldable pub cancel : String → String → Tx Bool
cancel tenant id s = cancel_row tenant id (select_workflow tenant id s) s
