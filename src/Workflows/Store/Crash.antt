-- ===== src/Workflows/Store/Crash.antt =====
-- A crash after `record_outcome` in backend/workflows/store.py: the journal has the outcome, the lease
-- runs out, `recover_expired` makes the workflow uncertain, and `reconcile_uncertain` commits.
use ryuk.Workflows.Store.Evidence.{Recorded, record_outcome-Recorded, record_outcome-Holds}
use ryuk.Workflows.Store.Expiry.{recover_expired-selects}
use ryuk.Prelude.{
  ℕ, ◌+◌, ◌≤◌, String, ◌≡◌, refl, inl, inr, Bool, true, none, some, arith, ◌==◌, eq_refl,
}
use ryuk.Prelude.Result.{Result-cases, ok}
use ryuk.Workflows.Store.Tables.{
  uncertain, Workflow, Artifact, Dispatch, WorkflowStore, find, select_workflow, select_dispatch,
}
use ryuk.Workflows.Store.External.{External, is_state}
use ryuk.Workflows.Store.Keys.{IsKeyed}
use ryuk.Workflows.Store.Operations.{record_outcome, commit_result, set_outcome, outcome_state}
use ryuk.Workflows.Store.Recovery.{
  set_uncertain, recover_expired, reconcile_uncertain, reconcile_row, check_outcome,
}
use ryuk.Workflows.Store.Effects.{record_outcome-rows}
use ryuk.Workflows.Store.Guarantees.{committed-selects}

module _ (x : External) (tenant id encoded : String) (success : Bool) (artifact_id : String) where
  commit_returns :
      (fence : ℕ) (s : WorkflowStore)
      → find (λ a. a.id == artifact_id) s.artifacts ≡ none
      → (r : Artifact × WorkflowStore) × (commit_result x tenant id fence encoded success
            artifact_id s
          ≡ ok r)
  commit_returns fence s fresh =
      elim (Result-cases (commit_result x tenant id fence encoded success artifact_id s)) [
        | inl returned ↦ returned
        | inr (e, raised) ↦ absurd (unfold commit_result in ground arith)
      ]

  Recorded-moved :
      (fence : ℕ) (d : Dispatch) (s s' : WorkflowStore)
      → s'.dispatches ≡ s.dispatches
      → Recorded x tenant id encoded success fence s d
      → Recorded x tenant id encoded success fence s' d
  Recorded-moved fence d s s' e r = record {
    journal = unfold select_dispatch in rw e r.journal;
    at_fence = r.at_fence;
    outcome = r.outcome;
    digest = r.digest;
    success_flag = r.success_flag;
  }

  -- The evidence is accepted, and the outcome is committed.
  reconcile_commits :
      (fence : ℕ) (row : Workflow) (d : Dispatch) (s : WorkflowStore)
      → Recorded x tenant id encoded success fence s d
      → select_workflow tenant id s ≡ some row
      → row.state ≡ uncertain
      → row.fence ≡ fence + 1
      → x.reads_object encoded ≡ some true
      → find (λ a. a.id == artifact_id) s.artifacts ≡ none
      → (a : Artifact) × (s' : WorkflowStore) × (commit_result x tenant id row.fence encoded success
            artifact_id s
          ≡ ok (a, s'))
        × (reconcile_uncertain x tenant id artifact_id s ≡ ok (outcome_state success, s'))
  unfolding reconcile_uncertain reconcile_row is_state
  reconcile_commits fence row d s r found unsure raised object fresh =
      let evidence : check_outcome x d encoded row.fence ≡ ok success =
        unfold check_outcome in
        rw (r.at_fence, raised, r.digest, r.success_flag, object, eq_refl) (ground arith) in
      let ((a, s'), committed) = commit_returns row.fence s fresh in
      (a, s', committed, rw (found, unsure, r.journal, r.outcome, evidence, committed) refl)

  -- An outcome that was recorded under a lease is not lost: once the lease is over, `recover_expired` returns, and
  -- `reconcile_uncertain` then returns the outcome's state and leaves a row with that state and the recorded result,
  -- if the result is the text of an object and the artifact's identifier is new.
  pub recorded_outcome_survives :
      (owner : String) (fence now later until : ℕ) (row : Workflow) (s s1 : WorkflowStore)
      → IsKeyed s
      → record_outcome x tenant id owner fence encoded success now s ≡ ok (tt, s1)
      → select_workflow tenant id s1 ≡ some row
      → row.lease_until ≡ some until
      → until ≤ later
      → x.reads_object encoded ≡ some true
      → find (λ a. a.id == artifact_id) s1.artifacts ≡ none
      → (count : ℕ) × (s2 s3 : WorkflowStore) × (settled : Workflow) × (recover_expired tenant later
            s1
          ≡ ok (count, s2))
        × (reconcile_uncertain x tenant id artifact_id s2 ≡ ok (outcome_state success, s3))
        × (select_workflow tenant id s3 ≡ some settled)
        × (settled.state ≡ outcome_state success)
        × (settled.result ≡ some encoded)
  recorded_outcome_survives owner fence now later until row s s1 d h found lease over object fresh =
      let (dispatch, recorded) =
        record_outcome-Recorded x tenant id encoded success fence owner now s s1 h in
      let rows = record_outcome-rows x tenant id owner fence encoded success now s s1 h in
      let (ran, at_fence) =
        record_outcome-Holds x tenant id owner encoded fence now success row s s1 h found in
      let (count, s2, recovered, unsure, dispatches, artifacts) =
        recover_expired-selects tenant id later row until s1 (rw rows d) found ran lease over in
      let (a, s3, committed, reconciled) =
        reconcile_commits fence (set_uncertain (row.fence + 1) row) dispatch s2
          (Recorded-moved fence dispatch s1 s2 dispatches recorded) unsure refl (rw at_fence refl)
          object (rw artifacts fresh) in
      (
        count,
        s2,
        s3,
        set_outcome success encoded artifact_id (set_uncertain (row.fence + 1) row),
        recovered,
        reconciled,
        committed-selects x tenant id (row.fence + 1) encoded success artifact_id a
            (set_uncertain (row.fence + 1) row) s2 s3 unsure committed,
        refl,
        refl,
      )
