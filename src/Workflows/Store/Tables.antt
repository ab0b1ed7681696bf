-- ===== src/Workflows/Store/Tables.antt =====
-- The tables of backend/workflows/store.py for single-task workflows, and the statements on them.
-- A timestamp is a number of microseconds: the ISO texts of the table are in UTC, and their order
-- is that of the times.
use ryuk.Prelude.{
  ℕ, String, Bool, ◌&&◌, Option, none, some, List, [], ◌∷◌, ◌++◌, if◌then◌else◌, ◌==◌,
}

pub data WorkflowState : Type 0 where
  ready running awaiting_validation succeeded failed rejected cancelled uncertain : WorkflowState

-- What an event reports: a state, or a step of the journal.
pub data EventKind : Type 0 where
  entered : WorkflowState → EventKind
  dispatch_started outcome_recorded : EventKind

-- A row of `workflows`.
pub record Workflow : Type 0 where
  pub id : String
  pub tenant : String
  pub idempotency_key : String
  pub request_hash : String
  pub packet : String
  pub state : WorkflowState
  pub fence : ℕ
  pub owner : Option String
  pub lease_until : Option ℕ
  pub result : Option String
  pub result_artifact_id : Option String

-- A row of `workflow_events`; the list's order is that of the sequence numbers.
pub record Event : Type 0 where
  pub workflow_id : String
  pub tenant : String
  pub kind : EventKind
  pub fence : ℕ

-- A row of `workflow_artifacts`.
pub record Artifact : Type 0 where
  pub id : String
  pub workflow_id : String
  pub tenant : String
  pub schema_version : ℕ
  pub sha256 : String
  pub size_bytes : ℕ
  pub content_json : String

-- A row of `workflow_dispatches`: the journal of what was sent and what came back. `succeeded` is
-- NULL, 0 or 1, since nothing else is written.
pub record Dispatch : Type 0 where
  pub workflow_id : String
  pub tenant : String
  pub fence : ℕ
  pub budget_json : String
  pub outcome_json : Option String
  pub outcome_sha256 : Option String
  pub succeeded : Option Bool

-- The report that is bound to an artifact: `policy` is the canonical text of the policy snapshot.
pub record Report : Type 0 where
  pub policy : String
  pub artifact_id : String
  pub sha256 : String
  pub accepted : Bool

-- A row of `workflow_validations`.
pub record Validation : Type 0 where
  pub workflow_id : String
  pub tenant : String
  pub report : Report

-- A row of `workflow_bindings`.
pub record Binding : Type 0 where
  pub workflow_id : String
  pub tenant : String
  pub binding_json : String

pub record WorkflowStore : Type 0 where
  pub workflows : List Workflow
  pub events : List Event
  pub artifacts : List Artifact
  pub validations : List Validation
  pub dispatches : List Dispatch
  pub bindings : List Binding

abbrev pub empty_store : WorkflowStore
empty_store = record {
  workflows = [];
  events = [];
  artifacts = [];
  validations = [];
  dispatches = [];
  bindings = [];
}

-- `fetchone` on the rows that pass.
unfoldable pub find {ℓ} : {A : Type ℓ} → (A → Bool) → List A → Option A
find p [] = none
find p (x ∷ xs) = if p x then some x else find p xs

-- `UPDATE … WHERE`
unfoldable pub update_where {ℓ} : {A : Type ℓ} → (A → Bool) → (A → A) → List A → List A
update_where p f [] = []
update_where p f (x ∷ xs) = (if p x then f x else x) ∷ update_where p f xs

-- `WHERE tenant=? AND id=?`
abbrev pub is_workflow : String → String → Workflow → Bool
is_workflow tenant id row = row.tenant == tenant && row.id == id

unfoldable pub select_workflow : String → String → WorkflowStore → Option Workflow
select_workflow tenant id s = find (is_workflow tenant id) s.workflows

unfoldable pub update_workflow :
    String → String → (Workflow → Workflow) → WorkflowStore → WorkflowStore
update_workflow tenant id f s = record s {
  workflows = update_where (is_workflow tenant id) f s.workflows;
}

-- `WHERE tenant=? AND workflow_id=?`
abbrev pub is_dispatch : String → String → Dispatch → Bool
is_dispatch tenant id row = row.tenant == tenant && row.workflow_id == id

unfoldable pub select_dispatch : String → String → WorkflowStore → Option Dispatch
select_dispatch tenant id s = find (is_dispatch tenant id) s.dispatches

unfoldable pub select_validation : String → String → WorkflowStore → Option Validation
select_validation tenant id s =
    find (λ row. row.tenant == tenant && row.workflow_id == id) s.validations

unfoldable pub select_binding : String → String → WorkflowStore → Option Binding
select_binding tenant id s = find (λ row. row.tenant == tenant && row.workflow_id == id) s.bindings

-- `get_artifact`
unfoldable pub get_artifact : String → String → String → WorkflowStore → Option Artifact
get_artifact tenant id artifact_id s =
    find (λ row. row.tenant == tenant && (row.workflow_id == id && row.id == artifact_id))
      s.artifacts

-- `_event`
unfoldable pub add_event : String → String → EventKind → ℕ → WorkflowStore → WorkflowStore
add_event tenant id kind fence s = record s {
  events =
      s.events ++ record { workflow_id = id; tenant = tenant; kind = kind; fence = fence } ∷ [];
}
