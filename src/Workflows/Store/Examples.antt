-- ===== src/Workflows/Store/Examples.antt =====
-- One workflow in the store of backend/workflows/store.py: created, claimed, dispatched, recorded,
-- completed and validated, or cancelled on the way.
use ryuk.Prelude.{ℕ, String, ◌≡◌, refl, Bool, true, Option, none, some, [], ◌∷◌, arith}
use ryuk.Prelude.Text.{is_identifier}
use ryuk.Prelude.Result.{ok, err, conflict}
use ryuk.Workflows.Store.Tables.{
  WorkflowState, ready, running, awaiting_validation, succeeded, cancelled, entered,
  outcome_recorded, Workflow, Event, EventKind, Artifact, Dispatch, Report, WorkflowStore, find,
  select_workflow, select_dispatch, select_validation, select_binding, get_artifact, update_where,
  update_workflow, add_event,
}
use ryuk.Workflows.Store.External.{External, require_lease, check_lease, lease_over, is_state}
use ryuk.Workflows.Store.Operations.{
  create, claim, record_outcome, complete, request_text, commit_result,
}
use ryuk.Workflows.Store.Acceptance.{
  cancel, cancel_row, is_cancellable, validate, decide, validation_policy,
}
use ryuk.Workflows.Store.Recovery.{recover_expired, reconcile_uncertain}
use ryuk.Workflows.Store.Runs.{done, next, claims, cancels, validates}
use ryuk.Workflows.Store.Guarantees.{
  Later, run_lifecycle, claimed_once, completed_once, cancelled_for_good,
}
use ryuk.Workflows.Store.Replay.{create_again, validate_again}
use ryuk.Workflows.Store.Crash.{recorded_outcome_survives}

abbrev host : External
host = record {
  sha256 = λ text. text;
  reads_object = λ text. some true;
  reads_packet = λ text. true;
  with_binding = λ packet binding. binding;
  binding_policy = λ binding. binding;
  accepts = λ content policy. true;
}

abbrev row_of :
    WorkflowState → ℕ → Option String → Option ℕ → Option String → Option String → Workflow
row_of state fence owner lease result artifact = record {
  id = "w1";
  tenant = "t1";
  idempotency_key = "k1";
  request_hash = "p";
  packet = "p";
  state = state;
  fence = fence;
  owner = owner;
  lease_until = lease;
  result = result;
  result_artifact_id = artifact;
}

abbrev event_of : EventKind → ℕ → Event
event_of kind fence = record { workflow_id = "w1"; tenant = "t1"; kind = kind; fence = fence }

abbrev created_store : WorkflowStore
created_store = record {
  workflows = row_of ready 0 none none none none ∷ [];
  events = event_of (entered ready) 0 ∷ [];
  artifacts = [];
  validations = [];
  dispatches = [];
  bindings = [];
}

abbrev claimed_store : WorkflowStore
claimed_store = record {
  workflows = row_of running 1 (some "o1") (some 60_000_000) none none ∷ [];
  events = event_of (entered ready) 0 ∷ event_of (entered running) 1 ∷ [];
  artifacts = [];
  validations = [];
  dispatches = [];
  bindings = [];
}

abbrev journal_of : Option String → Option Bool → Dispatch
journal_of outcome flag = record {
  workflow_id = "w1";
  tenant = "t1";
  fence = 1;
  budget_json = "b";
  outcome_json = outcome;
  outcome_sha256 = outcome;
  succeeded = flag;
}

abbrev begun_store : WorkflowStore
begun_store = record claimed_store { dispatches = journal_of none none ∷ [] }

abbrev recorded_store : WorkflowStore
recorded_store = record claimed_store {
  dispatches = journal_of (some "r") (some true) ∷ [];
  events =
      event_of (entered ready) 0 ∷ event_of (entered running) 1 ∷ event_of outcome_recorded 1 ∷ [];
}

abbrev result_of : Artifact
result_of = record {
  id = "a1";
  workflow_id = "w1";
  tenant = "t1";
  schema_version = 1;
  sha256 = "r";
  size_bytes = 1;
  content_json = "r";
}

abbrev completed_store : WorkflowStore
completed_store = record {
  workflows = row_of awaiting_validation 1 none none (some "r") (some "a1") ∷ [];
  events =
      event_of (entered ready) 0
      ∷ event_of (entered running) 1
      ∷ event_of (entered awaiting_validation) 1
      ∷ [];
  artifacts = result_of ∷ [];
  validations = [];
  dispatches = [];
  bindings = [];
}

abbrev report_of : Report
report_of = record { policy = "y"; artifact_id = "a1"; sha256 = "r"; accepted = true }

abbrev validated_store : WorkflowStore
validated_store = record completed_store {
  workflows = row_of succeeded 1 none none (some "r") (some "a1") ∷ [];
  events =
      event_of (entered ready) 0
      ∷ event_of (entered running) 1
      ∷ event_of (entered awaiting_validation) 1
      ∷ event_of (entered succeeded) 1
      ∷ [];
  validations = record { workflow_id = "w1"; tenant = "t1"; report = report_of } ∷ [];
}

abbrev cancelled_store : WorkflowStore
cancelled_store = record claimed_store {
  workflows = row_of cancelled 2 none none none none ∷ [];
  events =
      event_of (entered ready) 0
      ∷ event_of (entered running) 1
      ∷ event_of (entered cancelled) 2
      ∷ [];
}

claims_first : claim host "t1" "w1" "o1" 60 0 created_store ≡ ok (1, claimed_store)
unfolding is_identifier claim select_workflow find update_workflow update_where add_event is_state
claims_first = refl

completes_first :
    complete host "t1" "w1" "o1" 1 "r" true 5 "a1" claimed_store ≡ ok (result_of, completed_store)
unfolding complete select_workflow find update_workflow update_where add_event is_state
    require_lease check_lease lease_over select_dispatch commit_result
completes_first = refl

validates_first :
    validate host "t1" "w1" (some "y") completed_store ≡ ok (report_of, validated_store)
unfolding validate validation_policy decide select_binding select_validation get_artifact
    select_workflow find update_workflow update_where add_event is_state
validates_first = refl

cancels_first : cancel "t1" "w1" claimed_store ≡ ok (true, cancelled_store)
unfolding cancel cancel_row is_cancellable select_workflow find update_workflow update_where
    add_event is_state
cancels_first = refl

records_first :
    record_outcome host "t1" "w1" "o1" 1 "r" true 5 begun_store ≡ ok (tt, recorded_store)
unfolding record_outcome select_dispatch select_workflow find update_workflow update_where add_event
    is_state require_lease check_lease lease_over
records_first = refl

creates_again : create host "t1" "k1" "p" none "w2" claimed_store ≡ ok ("w1", claimed_store)
unfolding is_identifier create find request_text
creates_again = refl

run_lifecycle_example :
    (row : Workflow) × (select_workflow "t1" "w1" cancelled_store ≡ some row)
    × Later (row_of ready 0 none none none none) row
unfolding select_workflow find
run_lifecycle_example =
    run_lifecycle host "t1" "w1" (row_of ready 0 none none none none) created_store cancelled_store
      (tt, tt)
      (next (claims "t1" "w1" "o1" 60 0 1 claims_first)
        (next (cancels "t1" "w1" true cancels_first) done))
      refl

claimed_once_example : ¬ (claim host "t1" "w1" "o2" 60 5 cancelled_store ≡ ok (3, claimed_store))
claimed_once_example =
    claimed_once host "t1" "w1" "o1" "o2" 60 0 1 60 5 (3, claimed_store) created_store claimed_store
      cancelled_store (tt, tt) claims_first (next (cancels "t1" "w1" true cancels_first) done)

completed_once_example :
    ((row : Workflow) × (select_workflow "t1" "w1" validated_store ≡ some row)
      × (row.result ≡ some "r")
      × (row.result_artifact_id ≡ some "a1"))
    × ((other : String) (fence' : ℕ) (encoded' : String) (success' : Bool) (now' : ℕ)
          (artifact' : String) (r : Artifact × WorkflowStore)
        → ¬ (
            complete host "t1" "w1" other fence' encoded' success' now' artifact' validated_store
            ≡ ok r))
completed_once_example =
    completed_once host "t1" "w1" "o1" 1 "r" true 5 "a1" result_of claimed_store completed_store
      validated_store (tt, tt) completes_first
      (next (validates "t1" "w1" (some "y") report_of validates_first) done)

cancelled_for_good_example :
    ((row : Workflow) × (select_workflow "t1" "w1" cancelled_store ≡ some row)
      × (row.state ≡ cancelled))
    × ((owner : String) (lease now : ℕ) (r : ℕ × WorkflowStore)
        → ¬ (claim host "t1" "w1" owner lease now cancelled_store ≡ ok r))
    × ((owner : String) (fence now : ℕ)
        → ¬ (require_lease "t1" "w1" owner fence now cancelled_store ≡ ok tt))
cancelled_for_good_example =
    cancelled_for_good host "t1" "w1" claimed_store cancelled_store cancelled_store (tt, tt)
      cancels_first done

recorded_outcome_survives_example :
    (count : ℕ) × (s2 s3 : WorkflowStore) × (settled : Workflow) × (recover_expired "t1" 60_000_001
        recorded_store
      ≡ ok (count, s2))
    × (reconcile_uncertain host "t1" "w1" "a1" s2 ≡ ok (awaiting_validation, s3))
    × (select_workflow "t1" "w1" s3 ≡ some settled)
    × (settled.state ≡ awaiting_validation)
    × (settled.result ≡ some "r")
unfolding select_workflow find
recorded_outcome_survives_example =
    recorded_outcome_survives host "t1" "w1" "r" true "a1" "o1" 1 5 60_000_001 60_000_000
      (row_of running 1 (some "o1") (some 60_000_000) none none) begun_store recorded_store (tt, tt)
      records_first refl refl (omega arith) refl refl

create_again_example :
    (create host "t1" "k1" "p" none "w3" claimed_store ≡ ok ("w1", claimed_store))
    × (¬ (host.sha256 (request_text host "p" none) ≡ host.sha256 (request_text host "q" none))
        → create host "t1" "k1" "q" none "w3" claimed_store ≡ err conflict)
create_again_example =
    create_again host "t1" "k1" "p" none "w2" "w1" "w3" "q" none claimed_store claimed_store
      creates_again refl

validate_again_example :
    validate host "t1" "w1" (some "y") validated_store ≡ ok (report_of, validated_store)
validate_again_example =
    validate_again host "t1" "w1" (some "y") report_of completed_store validated_store
      validates_first
