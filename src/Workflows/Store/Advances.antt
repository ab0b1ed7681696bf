-- ===== src/Workflows/Store/Advances.antt =====
-- What each method of backend/workflows/store.py does to the rows of `workflows`.
use ryuk.Prelude.{
  ℕ, ◌+◌, ◌*◌, ◌≤◌, String, ◌≡◌, refl, sym, ap, ◌⊎◌, inl, inr, Bool, Option, none, some, arith,
  if◌then◌else◌, Option-cases, Bool-cases,
}
use ryuk.Prelude.Result.{ok, conflict, or_raise, bind-ok, or_raise-ok, ok_inj, ◌>>=◌}
use mathlib.Core.Path.{subst}
use ryuk.Workflows.Store.Tables.{
  WorkflowState, running, awaiting_validation, succeeded, rejected, uncertain, Workflow, Artifact,
  Dispatch, Validation, Report, WorkflowStore, select_binding, select_validation, select_workflow,
  update_workflow, add_event, select_dispatch,
}
use ryuk.Workflows.Store.External.{External, is_state}
use ryuk.Workflows.Store.Operations.{
  claim, commit_result, complete, set_running, set_outcome, outcome_state,
}
use ryuk.Workflows.Store.Acceptance.{
  set_judged, set_cancelled, cancel, cancel_row, is_cancellable, validate, decide, result_artifact,
  validation_policy,
}
use ryuk.Workflows.Store.Recovery.{reconcile_uncertain, reconcile_row, check_outcome}
use ryuk.Workflows.Store.Lifecycle.{
  Moves, claimed, is_state-eq, RowStep, moves, stage, Advances, update-Advances, same-Advances,
  Advances-same,
}
use ryuk.Workflows.Store.Effects.{
  set_running-KeepsKey, set_outcome-KeepsKey, set_cancelled-KeepsKey, set_judged-KeepsKey,
  require_lease-Holds, from_awaiting, to_cancelled, cancellable_not, early_of, from_running,
  from_uncertain, claim_lem, commit_result-rows, complete_lem,
}

module _ (x : External) where
  -- A committed outcome moves the row that it is for.
  pub outcome-Advances :
      (tenant id : String) (fence : ℕ) (encoded : String) (success : Bool) (artifact_id : String)
      (a : Artifact) (s s' : WorkflowStore) (row : Workflow)
      → select_workflow tenant id s ≡ some row
      → Moves row.state (outcome_state success)
      → stage row.state ≤ 2
      → commit_result x tenant id fence encoded success artifact_id s ≡ ok (a, s')
      → Advances s s'
  outcome-Advances tenant id fence encoded success artifact_id a s s' row e m early h =
      let f = set_outcome success encoded artifact_id in
      let step : RowStep row (f row) = moves m (omega arith) (record {
        packet_kept = refl;
        hash_kept = refl;
        result_kept = λ late. absurd (omega (arith, early));
      }) in
      Advances-same s (update_workflow tenant id f s) s'
        (update-Advances tenant id f (set_outcome-KeepsKey success encoded artifact_id) s row e
          step)
        (commit_result-rows x tenant id fence encoded success artifact_id a s s' h)

  reconcile_row_lem :
      (tenant id : String) (row : Workflow) (d : Option Dispatch) (artifact_id : String)
      (state : WorkflowState) (s s' : WorkflowStore)
      → reconcile_row x tenant id row d artifact_id s ≡ ok (state, s')
      → (s' ≡ s)
        ⊎ ((encoded : String) × (success : Bool) × (a : Artifact) × (commit_result x tenant id
                row.fence encoded success artifact_id s
              ≡ ok (a, s')))
  unfolding reconcile_row
  reconcile_row_lem tenant id row none artifact_id state s s' h = inl (ground arith)
  reconcile_row_lem tenant id row (some d) artifact_id state s s' h =
      elim (Option-cases d.outcome_json) [
        | inl missing ↦ inl (ground arith)
        | inr (encoded, e) ↦
            let (success, _, after) =
              bind-ok (check_outcome x d encoded row.fence)
                (λ b. commit_result x tenant id row.fence encoded b artifact_id s >>= λ (_, t).
                  ok (outcome_state b, t))
                (rw e at h) in
            let ((a, t), committed, made) =
              bind-ok (commit_result x tenant id row.fence encoded success artifact_id s)
                (λ (_, t). ok (outcome_state success, t)) after in
            inr (
              encoded,
              success,
              a,
              subst
                  (λ y.
                    commit_result x tenant id row.fence encoded success artifact_id s ≡ ok (a, y))
                  (ap (λ (p : WorkflowState × WorkflowStore). p.1) (ok_inj made)) committed,
            )
      ]

  -- Each method, where it returns, moves every workflow along the lifecycle or leaves it.
  pub claim-Advances :
      (tenant id owner : String) (lease now fence : ℕ) (s s' : WorkflowStore)
      → claim x tenant id owner lease now s ≡ ok (fence, s')
      → Advances s s'
  unfolding add_event
  claim-Advances tenant id owner lease now fence s s' h =
      let (row, e, at_ready, raised, made) = claim_lem x tenant id owner lease now fence s s' h in
      let f = set_running owner fence (now + lease * 1_000_000) in
      let step : RowStep row (f row) =
        moves (subst (λ st. Moves st running) (sym at_ready) claimed) (omega arith)
          (record { packet_kept = refl; hash_kept = refl; result_kept = λ late. (refl, refl) }) in
      Advances-same s (update_workflow tenant id f s) s'
        (update-Advances tenant id f (set_running-KeepsKey owner fence (now + lease * 1_000_000)) s
          row e step)
        (ap (λ (y : WorkflowStore). y.workflows) made)

  pub complete-Advances :
      (tenant id owner : String) (fence : ℕ) (encoded : String) (success : Bool) (now : ℕ)
      (artifact_id : String) (a : Artifact) (s s' : WorkflowStore)
      → complete x tenant id owner fence encoded success now artifact_id s ≡ ok (a, s')
      → Advances s s'
  complete-Advances tenant id owner fence encoded success now artifact_id a s s' h =
      let (lease, committed) =
        complete_lem x tenant id owner fence encoded success now artifact_id a s s' h in
      let (row, holds) = require_lease-Holds tenant id owner fence now s lease in
      outcome-Advances tenant id fence encoded success artifact_id a s s' row holds.found
        (subst (λ st. Moves st (outcome_state success)) (sym holds.is_running)
          (from_running success))
        (early_of row.state running holds.is_running (unfold stage in omega arith)) committed

  -- `reconcile_uncertain` commits, or changes nothing.
  pub reconcile_lem :
      (tenant id artifact_id : String) (state : WorkflowState) (s s' : WorkflowStore)
      → reconcile_uncertain x tenant id artifact_id s ≡ ok (state, s')
      → (s' ≡ s)
        ⊎ ((row : Workflow) × (encoded : String) × (success : Bool) × (a : Artifact)
            × (select_workflow tenant id s ≡ some row)
            × (row.state ≡ uncertain)
            × (commit_result x tenant id row.fence encoded success artifact_id s ≡ ok (a, s')))
  unfolding reconcile_uncertain
  reconcile_lem tenant id artifact_id state s s' h =
      elim (Option-cases (select_workflow tenant id s)) [
        | inl missing ↦ absurd (ground arith)
        | inr (row, e) ↦ elim (Bool-cases (is_state row.state uncertain)) [
          | inr other ↦ inl (ground arith)
          | inl unsure ↦
              elim (reconcile_row_lem tenant id row (select_dispatch tenant id s) artifact_id state
                s s' (ground arith)) [
                  | inl same ↦ inl same
                  | inr (encoded, success, a, c) ↦
                      inr (row, encoded, success, a, e, is_state-eq row.state uncertain unsure, c)
                ]
        ]
      ]

  pub reconcile-Advances :
      (tenant id artifact_id : String) (state : WorkflowState) (s s' : WorkflowStore)
      → reconcile_uncertain x tenant id artifact_id s ≡ ok (state, s')
      → Advances s s'
  reconcile-Advances tenant id artifact_id state s s' h =
      elim (reconcile_lem tenant id artifact_id state s s' h) [
        | inl same ↦ same-Advances s s' (ap (λ (y : WorkflowStore). y.workflows) same)
        | inr (row, encoded, success, a, e, unsure, c) ↦
            outcome-Advances tenant id row.fence encoded success artifact_id a s s' row e
              (subst (λ st. Moves st (outcome_state success)) (sym unsure) (from_uncertain success))
              (early_of row.state uncertain unsure (unfold stage in omega arith)) c
      ]

  pub decide-Advances :
      (tenant id : String) (row : Workflow) (policy : String) (artifact : Artifact)
      (v : Option Validation) (report : Report) (s s' : WorkflowStore)
      → select_workflow tenant id s ≡ some row
      → decide x tenant id row policy artifact v s ≡ ok (report, s')
      → Advances s s'
  unfolding decide add_event
  decide-Advances tenant id row policy artifact (some v) report s s' e h =
      same-Advances s s' (ground arith)
  decide-Advances tenant id row policy artifact none report s s' e h =
      let judged : WorkflowState =
        if x.accepts artifact.content_json policy then succeeded else rejected in
      let waiting : row.state ≡ awaiting_validation =
        is_state-eq row.state awaiting_validation (ground arith) in
      Advances-same s (update_workflow tenant id (set_judged judged) s) s'
        (update-Advances tenant id (set_judged judged) (set_judged-KeepsKey judged) s row e (
          moves
            (subst (λ st. Moves st judged) (sym waiting)
              (from_awaiting (x.accepts artifact.content_json policy)))
            (omega arith)
            (record { packet_kept = refl; hash_kept = refl; result_kept = λ late. (refl, refl) })))
        (unfold update_workflow in ground arith)

  pub validate-Advances :
      (tenant id : String) (policy : Option String) (report : Report) (s s' : WorkflowStore)
      → validate x tenant id policy s ≡ ok (report, s')
      → Advances s s'
  unfolding validate
  validate-Advances tenant id policy report s s' h =
      let (chosen, _, h1) = bind-ok (validation_policy x (select_binding tenant id s) policy) _ h in
      let (row, found, h2) = bind-ok (or_raise (select_workflow tenant id s) conflict) _ h1 in
      let (artifact, _, h3) = bind-ok (or_raise (result_artifact tenant id row s) conflict) _ h2 in
      decide-Advances tenant id row chosen artifact (select_validation tenant id s) report s s'
        (or_raise-ok (select_workflow tenant id s) conflict found) h3

pub cancel-Advances :
    (tenant id : String) (done : Bool) (s s' : WorkflowStore)
    → cancel tenant id s ≡ ok (done, s')
    → Advances s s'
unfolding cancel cancel_row add_event
cancel-Advances tenant id done s s' h = elim (Option-cases (select_workflow tenant id s)) [
  | inl missing ↦ same-Advances s s' (ground arith)
  | inr (row, e) ↦ elim (Bool-cases (is_cancellable row.state)) [
    | inr over ↦ same-Advances s s' (ground arith)
    | inl live ↦
        let f = set_cancelled (row.fence + 1) in
        Advances-same s (update_workflow tenant id f s) s'
          (update-Advances tenant id f (set_cancelled-KeepsKey (row.fence + 1)) s row e (
            moves (to_cancelled row.state live) (omega arith) (record {
              packet_kept = refl;
              hash_kept = refl;
              result_kept = λ late. (refl, refl);
            })))
          (ground (arith, cancellable_not row.state live))
  ]
]
