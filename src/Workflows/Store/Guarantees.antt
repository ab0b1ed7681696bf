-- ===== src/Workflows/Store/Guarantees.antt =====
-- One workflow of backend/workflows/store.py over a run of the store.
use ryuk.Prelude.{
  ℕ, ◌+◌, ◌*◌, ◌≤◌, ◌<◌, String, ◌≡◌, refl, sym, ap, ◌∙◌, inl, inr, Bool, true, false, some, arith,
  Option-cases, Bool-cases, some_inj,
}
use ryuk.Prelude.Result.{ok}
use mathlib.Core.Path.{subst}
use ryuk.Workflows.Store.Tables.{
  WorkflowState, ready, running, awaiting_validation, succeeded, failed, rejected, cancelled,
  uncertain, entered, Workflow, Artifact, WorkflowStore, select_workflow, update_workflow,
  add_event,
}
use ryuk.Workflows.Store.External.{External, require_lease, is_state}
use ryuk.Workflows.Store.Keys.{IsKeyed}
use ryuk.Workflows.Store.Operations.{
  claim, complete, commit_result, set_running, set_outcome, outcome_state,
}
use ryuk.Workflows.Store.Acceptance.{cancel, cancel_row, is_cancellable, set_cancelled}
use ryuk.Workflows.Store.Lifecycle.{
  Moves, stage, Moves-stage, RowStep, stays, moves, Keeps, select-update_self, is_state-eq,
}
use ryuk.Workflows.Store.Effects.{
  require_lease-Holds, claim_lem, complete_lem, commit_result-rows, set_running-KeepsKey,
  set_outcome-KeepsKey, set_cancelled-KeepsKey,
}
use ryuk.Workflows.Store.Advances.{claim-Advances, complete-Advances, cancel-Advances}
use ryuk.Workflows.Store.Reaches.{Reaches, here, further}
use ryuk.Workflows.Store.Runs.{Runs, Runs-Reaches}

-- A path of the lifecycle.
pub data Passes : WorkflowState → WorkflowState → Type 0 where
  rests : {a : WorkflowState} → Passes a a
  goes : {a b c : WorkflowState} → Moves a b → Passes b c → Passes a c

-- What a row has become.
pub record Later (a b : Workflow) : Type 0 where
  pub passes : Passes a.state b.state
  pub fence_kept : a.fence ≤ b.fence
  pub keeps : Keeps a b

pub Passes-stage : {a b : WorkflowState} → Passes a b → stage a ≤ stage b
Passes-stage rests = omega arith
Passes-stage (goes m rest) = omega (arith, Moves-stage m, Passes-stage rest)

Later-refl : (a : Workflow) → Later a a
Later-refl a = record {
  passes = rests;
  fence_kept = omega arith;
  keeps = record { packet_kept = refl; hash_kept = refl; result_kept = λ late. (refl, refl) };
}

Later-trans : {a b c : Workflow} → RowStep a b → Later b c → Later a c
Later-trans {a} {b} {c} (stays e) l = subst (λ y. Later y c) e l
Later-trans (moves m f k) l = record {
  passes = goes m l.passes;
  fence_kept = omega (arith, l.fence_kept);
  keeps = record {
    packet_kept = l.keeps.packet_kept ∙ k.packet_kept;
    hash_kept = l.keeps.hash_kept ∙ k.hash_kept;
    result_kept = λ late.
        let after = l.keeps.result_kept (omega (arith, Moves-stage m)) in
        let before = k.result_kept late in (after.0 ∙ before.0, after.1 ∙ before.1);
  };
}

Reaches-row :
    {s s' : WorkflowStore} (tenant id : String) (row : Workflow)
    → Reaches s s'
    → select_workflow tenant id s ≡ some row
    → (row' : Workflow) × (select_workflow tenant id s' ≡ some row') × Later row row'
Reaches-row tenant id row here found = (row, found, Later-refl row)
Reaches-row tenant id row (further a rest) found =
    let (mid, there, step) = a.row_of tenant id row found in
    let (row', found', later) = Reaches-row tenant id mid rest there in
    (row', found', Later-trans step later)

stage-le : (a : WorkflowState) → stage a ≤ 4
unfolding stage
stage-le ready = omega arith
stage-le running = omega arith
stage-le uncertain = omega arith
stage-le awaiting_validation = omega arith
stage-le succeeded = omega arith
stage-le failed = omega arith
stage-le rejected = omega arith
stage-le cancelled = omega arith

-- Nothing leads out of the last four states.
Passes-last : {a b : WorkflowState} → Passes a b → 3 < stage a → a ≡ b
unfolding stage
Passes-last rests last = refl
Passes-last {a} (goes {b = b} m _) last = absurd (omega (arith, Moves-stage m, stage-le b))

stage-is : (a b : WorkflowState) → a ≡ b → stage a ≡ stage b
stage-is a b e = rw e refl

stage_values : (stage ready ≡ 0) × (stage running ≡ 1) × (stage cancelled ≡ 4)
unfolding stage
stage_values = (refl, refl, refl)

stage_outcome : (success : Bool) → 2 < stage (outcome_state success)
unfolding stage
stage_outcome true = omega arith
stage_outcome false = omega arith

-- A workflow past `running` gives no lease.
past-require_lease :
    (tenant id owner : String) (fence now : ℕ) (s : WorkflowStore) (row : Workflow)
    → select_workflow tenant id s ≡ some row
    → 1 < stage row.state
    → ¬ (require_lease tenant id owner fence now s ≡ ok tt)
past-require_lease tenant id owner fence now s row found past h =
    let (other, holds) = require_lease-Holds tenant id owner fence now s h in
    let same : row ≡ other = some_inj (sym found ∙ holds.found) in
    let runs = stage-is other.state running holds.is_running in
    let equal = ap (λ (y : Workflow). stage y.state) same in
    omega (arith, past, runs, equal, stage_values.1)

cancelled-selects :
    (tenant id : String) (s s' : WorkflowStore) (row : Workflow)
    → select_workflow tenant id s ≡ some row
    → s'
      ≡ add_event tenant id
          (entered cancelled)
          (row.fence + 1)
          (update_workflow tenant id (set_cancelled (row.fence + 1)) s)
    → select_workflow tenant id s' ≡ some (set_cancelled (row.fence + 1) row)
unfolding add_event select_workflow
cancelled-selects tenant id s s' row found made = rw made (
    select-update_self tenant id (set_cancelled (row.fence + 1))
      (set_cancelled-KeepsKey (row.fence + 1)) s row found)

-- A cancellation that reports true leaves the workflow cancelled.
cancel_lem :
    (tenant id : String) (s s' : WorkflowStore)
    → cancel tenant id s ≡ ok (true, s')
    → (row : Workflow) × (select_workflow tenant id s' ≡ some row) × (row.state ≡ cancelled)
unfolding cancel cancel_row add_event
cancel_lem tenant id s s' h = elim (Option-cases (select_workflow tenant id s)) [
  | inl missing ↦ absurd (ground arith)
  | inr (row, e) ↦ elim (Bool-cases (is_state row.state cancelled)) [
    | inl was ↦ (
      row,
      subst (λ y. select_workflow tenant id y ≡ some row) (ground arith) e,
      is_state-eq row.state cancelled was,
    )
    | inr live ↦ elim (Bool-cases (is_cancellable row.state)) [
      | inr over ↦ absurd (ground arith)
      | inl cancels ↦ (
        set_cancelled (row.fence + 1) row,
        cancelled-selects tenant id s s' row e (unfold add_event in ground arith),
        refl,
      )
    ]
  ]
]

claimed-selects :
    (tenant id owner : String) (lease now fence : ℕ) (s s' : WorkflowStore) (row : Workflow)
    → select_workflow tenant id s ≡ some row
    → s'
      ≡ add_event tenant id
          (entered running)
          fence
          (update_workflow tenant id (set_running owner fence (now + lease * 1_000_000)) s)
    → select_workflow tenant id s' ≡ some (set_running owner fence (now + lease * 1_000_000) row)
unfolding add_event select_workflow
claimed-selects tenant id owner lease now fence s s' row found made = rw made (
    select-update_self tenant id (set_running owner fence (now + lease * 1_000_000))
      (set_running-KeepsKey owner fence (now + lease * 1_000_000)) s row found)

module _ (x : External) where
  -- Over any run of the store's methods from a store with distinct keys, a workflow stays in the table,
  -- its state passes along the lifecycle, its fence never falls, its packet and request hash stay,
  -- and from `awaiting_validation` on its result and the result's artifact stay.
  pub run_lifecycle :
      (tenant id : String) (row : Workflow) (s s' : WorkflowStore)
      → IsKeyed s
      → Runs x s s'
      → select_workflow tenant id s ≡ some row
      → (row' : Workflow) × (select_workflow tenant id s' ≡ some row') × Later row row'
  run_lifecycle tenant id row s s' d runs found =
      Reaches-row tenant id row (Runs-Reaches x d runs) found

  -- A workflow that has been claimed is never claimed again: after a successful claim and any run, every claim of
  -- it, by any owner and at any time, raises.
  pub claimed_once :
      (tenant id owner other : String) (lease now fence lease' now' : ℕ) (r : ℕ × WorkflowStore)
      (s s' s'' : WorkflowStore)
      → IsKeyed s
      → claim x tenant id owner lease now s ≡ ok (fence, s')
      → Runs x s' s''
      → ¬ (claim x tenant id other lease' now' s'' ≡ ok r)
  claimed_once tenant id owner other lease now fence lease' now' r s s' s'' d h runs again =
      let (row, found, at_ready, raised, made) =
        claim_lem x tenant id owner lease now fence s s' h in
      let d' = (claim-Advances x tenant id owner lease now fence s s' h).keys_kept d in
      let (row', found', later) =
        run_lifecycle tenant id (set_running owner fence (now + lease * 1_000_000) row) s' s'' d'
          runs (claimed-selects tenant id owner lease now fence s s' row found made) in
      let (row2, found2, ready2, _, _) =
        claim_lem x tenant id other lease' now' r.0 s'' r.1 again in
      let same = ap (λ (y : Workflow). stage y.state) (some_inj (sym found' ∙ found2)) in
      omega (
        arith,
        same,
        Passes-stage later.passes,
        stage-is row2.state ready ready2,
        stage_values.0,
        stage_values.1,
      )

  pub committed-selects :
      (tenant id : String) (fence : ℕ) (encoded : String) (success : Bool) (artifact_id : String)
      (a : Artifact) (row : Workflow) (s s' : WorkflowStore)
      → select_workflow tenant id s ≡ some row
      → commit_result x tenant id fence encoded success artifact_id s ≡ ok (a, s')
      → select_workflow tenant id s' ≡ some (set_outcome success encoded artifact_id row)
  unfolding select_workflow
  committed-selects tenant id fence encoded success artifact_id a row s s' found h =
      let k = set_outcome-KeepsKey success encoded artifact_id in
      rw (commit_result-rows x tenant id fence encoded success artifact_id a s s' h)
        (select-update_self tenant id (set_outcome success encoded artifact_id) k s row found)

  -- A completed workflow has its result for good: after a successful completion and any run, its row has the
  -- encoded result and the artifact of that completion, and it gives no lease to any owner at any fence, so that
  -- no later completion returns.
  pub completed_once :
      (tenant id owner : String) (fence : ℕ) (encoded : String) (success : Bool) (now : ℕ)
      (artifact_id : String) (a : Artifact) (s s' s'' : WorkflowStore)
      → IsKeyed s
      → complete x tenant id owner fence encoded success now artifact_id s ≡ ok (a, s')
      → Runs x s' s''
      → ((row : Workflow) × (select_workflow tenant id s'' ≡ some row)
          × (row.result ≡ some encoded)
          × (row.result_artifact_id ≡ some artifact_id))
        × ((other : String) (fence' : ℕ) (encoded' : String) (success' : Bool) (now' : ℕ)
              (artifact' : String) (r : Artifact × WorkflowStore)
            → ¬ (complete x tenant id other fence' encoded' success' now' artifact' s'' ≡ ok r))
  completed_once tenant id owner fence encoded success now artifact_id a s s' s'' d h runs =
      let (lease, committed) =
        complete_lem x tenant id owner fence encoded success now artifact_id a s s' h in
      let (row, holds) = require_lease-Holds tenant id owner fence now s lease in
      let d' =
        (complete-Advances x tenant id owner fence encoded success now artifact_id a s s'
            h).keys_kept
          d in
      let (row', found', later) =
        run_lifecycle tenant id (set_outcome success encoded artifact_id row) s' s'' d' runs (
          committed-selects tenant id fence encoded success artifact_id a row s s' holds.found
            committed) in
      let kept = later.keeps.result_kept (stage_outcome success) in
      (
        (row', found', kept.0, kept.1),
        λ other fence' encoded' success' now' artifact' r again.
            past-require_lease tenant id other fence' now' s'' row' found'
              (omega (arith, Passes-stage later.passes, stage_outcome success))
              (complete_lem x tenant id other fence' encoded' success' now' artifact' r.0 s'' r.1
                again).0,
      )

  -- A cancellation that reports true is for good: after any run the workflow is cancelled, no claim of it
  -- returns, and it gives no lease to any owner at any fence and time.
  pub cancelled_for_good :
      (tenant id : String) (s s' s'' : WorkflowStore)
      → IsKeyed s
      → cancel tenant id s ≡ ok (true, s')
      → Runs x s' s''
      → ((row : Workflow) × (select_workflow tenant id s'' ≡ some row) × (row.state ≡ cancelled))
        × ((owner : String) (lease now : ℕ) (r : ℕ × WorkflowStore)
            → ¬ (claim x tenant id owner lease now s'' ≡ ok r))
        × ((owner : String) (fence now : ℕ)
            → ¬ (require_lease tenant id owner fence now s'' ≡ ok tt))
  cancelled_for_good tenant id s s' s'' d h runs =
      let (row, found, is_cancelled) = cancel_lem tenant id s s' h in
      let d' = (cancel-Advances tenant id true s s' h).keys_kept d in
      let (row', found', later) = run_lifecycle tenant id row s' s'' d' runs found in
      let at_four = stage-is row.state cancelled is_cancelled in
      let same = Passes-last later.passes (omega (arith, at_four, stage_values.2)) in
      let still_four = stage-is row'.state cancelled (sym same ∙ is_cancelled) in
      (
        (row', found', sym same ∙ is_cancelled),
        (λ owner lease now r claims.
            let (row2, found2, ready2, _, _) =
              claim_lem x tenant id owner lease now r.0 s'' r.1 claims in
            let equal = ap (λ (y : Workflow). stage y.state) (some_inj (sym found' ∙ found2)) in
            omega (
              arith,
              equal,
              stage-is row2.state ready ready2,
              still_four,
              stage_values.0,
              stage_values.2,
            )),
        λ owner fence now.
            past-require_lease tenant id owner fence now s'' row' found'
              (omega (arith, still_four, stage_values.2)),
      )
