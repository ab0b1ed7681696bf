-- ===== src/Workflows/Store/Operations.antt =====
-- The methods of `SQLiteWorkflowStore` in backend/workflows/store.py for single-task workflows. A
-- method is a transaction: where it raises, the store is as before, so only a return has a store.
use Prim.Native.String.{len}
use ryuk.Prelude.{
  ℕ, ◌+◌, String, Bool, not, ◌&&◌, ◌||◌, Option, none, some, [], ◌∷◌, ◌++◌, if◌then◌else◌, ◌==◌,
  eqb, ltb,
}
use ryuk.Prelude.Text.{is_identifier}
use ryuk.Prelude.Result.{
  Check, ok, err, value_error, conflict, integrity_error, raise_if, or_raise, ◌>>=◌, ◌>>◌,
}
use ryuk.Workflows.Store.Tables.{
  WorkflowState, ready, running, awaiting_validation, failed, entered, dispatch_started,
  outcome_recorded, Workflow, Artifact, Dispatch, WorkflowStore, find, select_workflow,
  update_workflow, is_dispatch, select_dispatch, add_event, update_where,
}
use ryuk.Workflows.Store.External.{
  External, Tx, microseconds, is_state, is_text, is_missing, is_flag, require_lease,
}

abbrev pub outcome_state : Bool → WorkflowState
outcome_state success = if success then awaiting_validation else failed

-- The SET clauses of the UPDATE statements.
abbrev pub set_running : String → ℕ → ℕ → Workflow → Workflow
set_running owner fence until r = record r {
  state = running;
  fence = fence;
  owner = some owner;
  lease_until = some until;
}

abbrev pub set_outcome : Bool → String → String → Workflow → Workflow
set_outcome success encoded artifact_id r = record r {
  state = outcome_state success;
  owner = none;
  lease_until = none;
  result = some encoded;
  result_artifact_id = some artifact_id;
}

abbrev pub set_recorded : String → String → Bool → Dispatch → Dispatch
set_recorded encoded digest success d = record d {
  outcome_json = some encoded;
  outcome_sha256 = some digest;
  succeeded = some success;
}

unfoldable pub new_workflow : String → String → String → String → String → Workflow
new_workflow id tenant key digest packet = record {
  id = id;
  tenant = tenant;
  idempotency_key = key;
  request_hash = digest;
  packet = packet;
  state = ready;
  fence = 0;
  owner = none;
  lease_until = none;
  result = none;
  result_artifact_id = none;
}

unfoldable pub add_binding : String → String → Option String → WorkflowStore → WorkflowStore
add_binding tenant id none s = s
add_binding tenant id (some binding) s = record s {
  bindings =
      s.bindings ++ record { workflow_id = id; tenant = tenant; binding_json = binding } ∷ [];
}

module _ (x : External) where
  -- `claim`
  claim_row : String → String → String → ℕ → ℕ → Workflow → Tx ℕ
  claim_row tenant id owner lease now row s = do
    raise_if (not (is_state row.state ready)) conflict
    raise_if (not (x.reads_packet row.packet)) value_error
    let fence = row.fence + 1
    let taken = update_workflow tenant id (set_running owner fence (now + microseconds lease)) s
    ok (fence, add_event tenant id (entered running) fence taken)

  unfoldable pub claim : String → String → String → ℕ → ℕ → Tx ℕ
  unfolding claim_row
  claim tenant id owner lease now s = do
    raise_if (not (is_identifier owner)) value_error
    raise_if (ltb lease 1 || ltb 3600 lease) value_error
    row ← or_raise (select_workflow tenant id s) conflict
    claim_row tenant id owner lease now row s

  -- The text whose hash identifies the request.
  unfoldable pub request_text : String → Option String → String
  request_text packet none = packet
  request_text packet (some binding) = x.with_binding packet binding

  -- The row that has the key, or a new row; `id` is what `uuid4` returns.
  unfoldable pub create_row :
      String → String → String → Option String → String → Option Workflow → Tx String
  unfolding request_text add_binding new_workflow
  create_row tenant key packet binding id (some row) s =
      if row.request_hash == x.sha256 (request_text packet binding)
      then ok (row.id, s)
      else err conflict
  create_row tenant key packet binding id none s = do
    -- the primary key
    raise_if (not (is_missing (find (λ r. r.id == id) s.workflows))) integrity_error
    let row = new_workflow id tenant key (x.sha256 (request_text packet binding)) packet
    let added = record s { workflows = s.workflows ++ row ∷ [] }
    ok (id, add_event tenant id (entered ready) 0 (add_binding tenant id binding added))

  -- `create`
  unfoldable pub create : String → String → String → Option String → String → Tx String
  unfolding create_row
  create tenant key packet binding id s = do
    raise_if (not (is_identifier tenant)) value_error
    raise_if (not (is_identifier key)) value_error
    raise_if (not (x.reads_packet packet)) value_error
    create_row tenant key packet binding id
        (find (λ r. r.tenant == tenant && r.idempotency_key == key) s.workflows) s

  -- `begin_dispatch`; `budget` is the canonical text of the budget.
  unfoldable pub begin_dispatch : String → String → String → ℕ → String → ℕ → Tx Unit
  begin_dispatch tenant id owner fence budget now s = do
    require_lease tenant id owner fence now s
    raise_if (not (is_missing (find (λ d. d.workflow_id == id) s.dispatches))) conflict
    let row : Dispatch = record {
      workflow_id = id;
      tenant = tenant;
      fence = fence;
      budget_json = budget;
      outcome_json = none;
      outcome_sha256 = none;
      succeeded = none;
    }
    let added = record s { dispatches = s.dispatches ++ row ∷ [] }
    ok (tt, add_event tenant id dispatch_started fence added)

  -- `row["outcome_json"] == encoded and row["success"] == int(success) and the hash is right`
  unfoldable pub same_outcome : Dispatch → String → Bool → Bool
  same_outcome d encoded success =
      is_text d.outcome_json encoded
      && is_flag d.succeeded success
      && is_text d.outcome_sha256 (x.sha256 encoded)

  unfoldable pub record_new_outcome : String → String → ℕ → String → Bool → Dispatch → Tx Unit
  record_new_outcome tenant id fence encoded success d s = elim d.outcome_json [
    | some text ↦ (if same_outcome d encoded success then ok (tt, s) else err conflict)
    | none ↦
        let written = record s {
          dispatches =
              update_where (is_dispatch tenant id) (set_recorded encoded (x.sha256 encoded) success)
                s.dispatches;
        } in
        ok (tt, add_event tenant id outcome_recorded fence written)
  ]

  -- `record_outcome`; `encoded` is the canonical text of the result.
  unfoldable pub record_outcome : String → String → String → ℕ → String → Bool → ℕ → Tx Unit
  unfolding record_new_outcome
  record_outcome tenant id owner fence encoded success now s = do
    require_lease tenant id owner fence now s
    d ← or_raise (select_dispatch tenant id s) conflict
    raise_if (not (eqb d.fence fence)) conflict
    record_new_outcome tenant id fence encoded success d s

  -- `_commit_result`; `artifact_id` is what `uuid4` returns.
  unfoldable pub commit_result : String → String → ℕ → String → Bool → String → Tx Artifact
  commit_result tenant id fence encoded success artifact_id s = do
    raise_if (not (is_missing (find (λ a. a.id == artifact_id) s.artifacts))) integrity_error
    let artifact : Artifact = record {
      id = artifact_id;
      workflow_id = id;
      tenant = tenant;
      schema_version = 1;
      sha256 = x.sha256 encoded;
      size_bytes = len encoded;
      content_json = encoded;
    }
    let stored = record s { artifacts = s.artifacts ++ artifact ∷ [] }
    let done = update_workflow tenant id (set_outcome success encoded artifact_id) stored
    ok (artifact, add_event tenant id (entered (outcome_state success)) fence done)

  -- The test of `complete` on the journal, if there is one.
  check_journal : Option Dispatch → ℕ → String → Bool → Check
  check_journal none fence encoded success = ok tt
  check_journal (some d) fence encoded success =
      raise_if (not (same_outcome d encoded success && eqb d.fence fence)) conflict

  -- `complete`
  unfoldable pub complete : String → String → String → ℕ → String → Bool → ℕ → String → Tx Artifact
  unfolding check_journal
  complete tenant id owner fence encoded success now artifact_id s = do
    require_lease tenant id owner fence now s
    check_journal (select_dispatch tenant id s) fence encoded success
    commit_result tenant id fence encoded success artifact_id s
