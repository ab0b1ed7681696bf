-- ===== src/Workflows/Store/Effects.antt =====
-- What the statements and methods of backend/workflows/store.py need and do.
use ryuk.Prelude.{
  ℕ, ◌+◌, ◌*◌, ◌≤◌, String, ◌≡◌, refl, ap, ◌⊎◌, inl, inr, Bool, true, false, Option, none, some,
  arith, if◌then◌else◌, eq_iff, Option-cases,
}
use ryuk.Prelude.Result.{Error, Check, ok, err}
use ryuk.Workflows.Store.Tables.{
  WorkflowState, ready, running, awaiting_validation, succeeded, rejected, cancelled, uncertain,
  entered, Workflow, Artifact, WorkflowStore, select_workflow, update_workflow, add_event,
}
use ryuk.Workflows.Store.External.{External, is_state, is_text, check_lease, require_lease}
use ryuk.Workflows.Store.Operations.{
  claim, begin_dispatch, record_outcome, commit_result, complete, set_running, set_outcome,
  outcome_state,
}
use ryuk.Workflows.Store.Acceptance.{set_judged, set_cancelled, is_cancellable}
use ryuk.Workflows.Store.Recovery.{set_uncertain}
use ryuk.Workflows.Store.Lifecycle.{
  Moves, withdrawn, returned, broke, stopped, accepted, refused, dropped, recovered, found_failed,
  is_state-eq, stage,
}
use ryuk.Workflows.Store.Keys.{KeepsKey}

pub set_running-KeepsKey :
    (owner : String) (fence until : ℕ) → KeepsKey (set_running owner fence until)
set_running-KeepsKey owner fence until = record { tenant_kept = λ r. refl; id_kept = λ r. refl }

pub set_outcome-KeepsKey :
    (success : Bool) (encoded artifact_id : String)
    → KeepsKey (set_outcome success encoded artifact_id)
set_outcome-KeepsKey success encoded artifact_id = record {
  tenant_kept = λ r. refl;
  id_kept = λ r. refl;
}

pub set_uncertain-KeepsKey : (fence : ℕ) → KeepsKey (set_uncertain fence)
set_uncertain-KeepsKey fence = record { tenant_kept = λ r. refl; id_kept = λ r. refl }

pub set_cancelled-KeepsKey : (fence : ℕ) → KeepsKey (set_cancelled fence)
set_cancelled-KeepsKey fence = record { tenant_kept = λ r. refl; id_kept = λ r. refl }

pub set_judged-KeepsKey : (state : WorkflowState) → KeepsKey (set_judged state)
set_judged-KeepsKey state = record { tenant_kept = λ r. refl; id_kept = λ r. refl }

-- What a valid lease is.
pub record Holds (tenant id owner : String) (fence now : ℕ) (s : WorkflowStore) (row : Workflow)
    : Type 0 where
  pub found : select_workflow tenant id s ≡ some row
  pub is_running : row.state ≡ running
  pub by_owner : row.owner ≡ some owner
  pub at_fence : row.fence ≡ fence

pub is_text-eq : (o : Option String) (t : String) → is_text o t ≡ true → o ≡ some t
is_text-eq none t h = absurd (cc)
is_text-eq (some s) t h = ap some ((eq_iff s t).0 h)

pub require_lease-Holds :
    (tenant id owner : String) (fence now : ℕ) (s : WorkflowStore)
    → require_lease tenant id owner fence now s ≡ ok tt
    → (row : Workflow) × Holds tenant id owner fence now s row
unfolding require_lease check_lease
require_lease-Holds tenant id owner fence now s h =
    elim (Option-cases (select_workflow tenant id s)) [
      | inl missing ↦ absurd (ground arith)
      | inr (row, e) ↦ (
        row,
        record {
          found = e;
          is_running = is_state-eq row.state running (ground arith);
          by_owner = is_text-eq row.owner owner (ground arith);
          at_fence = ground arith;
        },
      )
    ]

pub from_awaiting :
    (accepts : Bool) → Moves awaiting_validation (if accepts then succeeded else rejected)
from_awaiting true = accepted
from_awaiting false = refused

pub to_cancelled : (state : WorkflowState) → is_cancellable state ≡ true → Moves state cancelled
unfolding is_cancellable
to_cancelled ready h = withdrawn
to_cancelled running h = stopped
to_cancelled awaiting_validation h = dropped
to_cancelled state h = absurd (cc)

pub cancellable_not :
    (state : WorkflowState) → is_cancellable state ≡ true → is_state state cancelled ≡ false
unfolding is_cancellable is_state
cancellable_not cancelled h = absurd (cc)
cancellable_not state h = ground arith

pub check-cases : (c : Check) → (c ≡ ok tt) ⊎ ((e : Error) × (c ≡ err e))
check-cases (ok tt) = inl refl
check-cases (err e) = inr (e, refl)

pub early_of : (state known : WorkflowState) → state ≡ known → stage known ≤ 2 → stage state ≤ 2
early_of state known e h = rw e h

pub from_running : (success : Bool) → Moves running (outcome_state success)
from_running true = returned
from_running false = broke

pub from_uncertain : (success : Bool) → Moves uncertain (outcome_state success)
from_uncertain true = recovered
from_uncertain false = found_failed

module _ (x : External) where
  -- A claim that succeeds found the workflow ready, and raised its fence by one.
  pub claim_lem :
      (tenant id owner : String) (lease now fence : ℕ) (s s' : WorkflowStore)
      → claim x tenant id owner lease now s ≡ ok (fence, s')
      → (row : Workflow) × (select_workflow tenant id s ≡ some row)
        × (row.state ≡ ready)
        × (fence ≡ row.fence + 1)
        × (s'
            ≡ add_event tenant id
                (entered running)
                fence
                (update_workflow tenant id (set_running owner fence (now + lease * 1_000_000)) s))
  unfolding claim
  claim_lem tenant id owner lease now fence s s' h =
      elim (Option-cases (select_workflow tenant id s)) [
        | inl missing ↦ absurd (ground arith)
        | inr (row, e) ↦
            (row, e, is_state-eq row.state ready (ground arith), ground arith, ground arith)
      ]

  pub begin_dispatch-rows :
      (tenant id owner : String) (fence : ℕ) (budget : String) (now : ℕ) (s s' : WorkflowStore)
      → begin_dispatch x tenant id owner fence budget now s ≡ ok (tt, s')
      → s'.workflows ≡ s.workflows
  unfolding begin_dispatch add_event
  begin_dispatch-rows tenant id owner fence budget now s s' h = ground arith

  pub record_outcome-rows :
      (tenant id owner : String) (fence : ℕ) (encoded : String) (success : Bool) (now : ℕ)
      (s s' : WorkflowStore)
      → record_outcome x tenant id owner fence encoded success now s ≡ ok (tt, s')
      → s'.workflows ≡ s.workflows
  unfolding record_outcome add_event
  record_outcome-rows tenant id owner fence encoded success now s s' h = ground arith

  pub commit_result-rows :
      (tenant id : String) (fence : ℕ) (encoded : String) (success : Bool) (artifact_id : String)
      (a : Artifact) (s s' : WorkflowStore)
      → commit_result x tenant id fence encoded success artifact_id s ≡ ok (a, s')
      → s'.workflows
        ≡ (update_workflow tenant id (set_outcome success encoded artifact_id) s).workflows
  unfolding commit_result add_event update_workflow
  commit_result-rows tenant id fence encoded success artifact_id a s s' h = ground arith

  pub complete_lem :
      (tenant id owner : String) (fence : ℕ) (encoded : String) (success : Bool) (now : ℕ)
      (artifact_id : String) (a : Artifact) (s s' : WorkflowStore)
      → complete x tenant id owner fence encoded success now artifact_id s ≡ ok (a, s')
      → (require_lease tenant id owner fence now s ≡ ok tt)
        × (commit_result x tenant id fence encoded success artifact_id s ≡ ok (a, s'))
  unfolding complete
  complete_lem tenant id owner fence encoded success now artifact_id a s s' h =
      elim (check-cases (require_lease tenant id owner fence now s)) [
        | inl holds ↦ (holds, ground arith)
        | inr (e, raised) ↦ absurd (ground arith)
      ]
