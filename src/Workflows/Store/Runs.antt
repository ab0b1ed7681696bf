-- ===== src/Workflows/Store/Runs.antt =====
-- Runs of the store of backend/workflows/store.py: any sequence of its methods that return. A method
-- that raises changes nothing.
use ryuk.Prelude.{
  ℕ, String, ◌≡◌, ap, ◌⊎◌, inl, inr, Bool, ◌&&◌, Option, none, some, [], ◌∷◌, ◌++◌, arith, ◌==◌,
  Option-cases,
}
use ryuk.Prelude.Result.{ok}
use ryuk.Workflows.Store.Tables.{
  WorkflowState, ready, entered, Workflow, Artifact, Report, WorkflowStore, find, add_event,
}
use ryuk.Workflows.Store.External.{External}
use ryuk.Workflows.Store.Keys.{IsKeyed}
use ryuk.Workflows.Store.Operations.{
  create, claim, begin_dispatch, record_outcome, complete, new_workflow, create_row, add_binding,
  request_text,
}
use ryuk.Workflows.Store.Acceptance.{validate, cancel}
use ryuk.Workflows.Store.Recovery.{
  reconcile_uncertain, recover_expired, recover_startup, StartupReport,
}
use ryuk.Workflows.Store.Lifecycle.{same-Advances}
use ryuk.Workflows.Store.Effects.{begin_dispatch-rows, record_outcome-rows}
use ryuk.Workflows.Store.Advances.{
  claim-Advances, complete-Advances, reconcile-Advances, validate-Advances, cancel-Advances,
}
use ryuk.Workflows.Store.Reaches.{
  Reaches, here, further, Reaches-trans, append-Advances, recover_expired-Reaches,
}
use ryuk.Workflows.Store.Startup.{recover_startup-Reaches}

-- A method returns.
pub data Step (x : External) : WorkflowStore → WorkflowStore → Type 0 where
  creates :
      (tenant key packet id got : String) (binding : Option String) {s s' : WorkflowStore}
      → create x tenant key packet binding id s ≡ ok (got, s')
      → Step x s s'
  claims :
      (tenant id owner : String) (lease now fence : ℕ) {s s' : WorkflowStore}
      → claim x tenant id owner lease now s ≡ ok (fence, s')
      → Step x s s'
  begins :
      (tenant id owner budget : String) (fence now : ℕ) {s s' : WorkflowStore}
      → begin_dispatch x tenant id owner fence budget now s ≡ ok (tt, s')
      → Step x s s'
  records :
      (tenant id owner encoded : String) (fence now : ℕ) (success : Bool) {s s' : WorkflowStore}
      → record_outcome x tenant id owner fence encoded success now s ≡ ok (tt, s')
      → Step x s s'
  completes :
      (tenant id owner encoded artifact_id : String) (fence now : ℕ) (success : Bool) (a : Artifact)
      {s s' : WorkflowStore}
      → complete x tenant id owner fence encoded success now artifact_id s ≡ ok (a, s')
      → Step x s s'
  validates :
      (tenant id : String) (policy : Option String) (report : Report) {s s' : WorkflowStore}
      → validate x tenant id policy s ≡ ok (report, s')
      → Step x s s'
  cancels :
      (tenant id : String) (done : Bool) {s s' : WorkflowStore}
      → cancel tenant id s ≡ ok (done, s')
      → Step x s s'
  reconciles :
      (tenant id artifact_id : String) (state : WorkflowState) {s s' : WorkflowStore}
      → reconcile_uncertain x tenant id artifact_id s ≡ ok (state, s')
      → Step x s s'
  expires :
      (tenant : String) (now count : ℕ) {s s' : WorkflowStore}
      → recover_expired tenant now s ≡ ok (count, s')
      → Step x s s'
  starts :
      (limit now : ℕ) (fresh : ℕ → String) (report : StartupReport) {s s' : WorkflowStore}
      → recover_startup x limit now fresh s ≡ ok (report, s')
      → Step x s s'

pub data Runs (x : External) : WorkflowStore → WorkflowStore → Type 0 where
  done : {s : WorkflowStore} → Runs x s s
  next : {s m s' : WorkflowStore} → Step x s m → Runs x m s' → Runs x s s'

pub added-rows :
    (tenant id : String) (binding : Option String) (s s' : WorkflowStore)
    → s' ≡ add_event tenant id (entered ready) 0 (add_binding tenant id binding s)
    → s'.workflows ≡ s.workflows
unfolding add_event add_binding
added-rows tenant id none s s' h = ap (λ (y : WorkflowStore). y.workflows) h
added-rows tenant id (some b) s s' h = ap (λ (y : WorkflowStore). y.workflows) h

-- The two ends of `create`: the row was there, or a row with a new identifier is added.
create-rows :
    (x : External) (tenant key packet : String) (binding : Option String) (id got : String)
    (s s' : WorkflowStore)
    → create x tenant key packet binding id s ≡ ok (got, s')
    → (s'.workflows ≡ s.workflows)
      ⊎ ((q : Workflow) × (find (λ r. r.id == q.id) s.workflows ≡ none)
          × (s'.workflows ≡ s.workflows ++ q ∷ []))
unfolding create create_row
create-rows x tenant key packet binding id got s s' h =
    elim (Option-cases (find (λ r. r.tenant == tenant && r.idempotency_key == key) s.workflows)) [
      | inr (row, e) ↦ inl (ground arith)
      | inl missing ↦ inr (
        new_workflow id tenant key (x.sha256 (request_text x packet binding)) packet,
        ground arith,
        added-rows tenant id binding
            (record s {
              workflows =
                  s.workflows
                  ++ new_workflow id tenant key (x.sha256 (request_text x packet binding)) packet
                    ∷ [];
            })
            s' (ground arith),
      )
    ]

Step-Reaches : (x : External) {s s' : WorkflowStore} → IsKeyed s → Step x s s' → Reaches s s'
Step-Reaches x {s} {s'} d (creates tenant key packet id got binding h) =
    elim (create-rows x tenant key packet binding id got s s' h) [
      | inl same ↦ further (same-Advances s s' same) here
      | inr (q, fresh, e) ↦ further (append-Advances s s' q fresh e) here
    ]
Step-Reaches x {s} {s'} d (claims tenant id owner lease now fence h) =
    further (claim-Advances x tenant id owner lease now fence s s' h) here
Step-Reaches x {s} {s'} d (begins tenant id owner budget fence now h) =
    further (same-Advances s s' (begin_dispatch-rows x tenant id owner fence budget now s s' h))
      here
Step-Reaches x {s} {s'} d (records tenant id owner encoded fence now success h) =
    further
      (same-Advances s s' (record_outcome-rows x tenant id owner fence encoded success now s s' h))
      here
Step-Reaches x {s} {s'} d (completes tenant id owner encoded artifact_id fence now success a h) =
    further (complete-Advances x tenant id owner fence encoded success now artifact_id a s s' h)
      here
Step-Reaches x {s} {s'} d (validates tenant id policy report h) =
    further (validate-Advances x tenant id policy report s s' h) here
Step-Reaches x {s} {s'} d (cancels tenant id over h) =
    further (cancel-Advances tenant id over s s' h) here
Step-Reaches x {s} {s'} d (reconciles tenant id artifact_id state h) =
    further (reconcile-Advances x tenant id artifact_id state s s' h) here
Step-Reaches x {s} {s'} d (expires tenant now count h) =
    recover_expired-Reaches tenant now count s s' d h
Step-Reaches x {s} {s'} d (starts limit now fresh report h) =
    recover_startup-Reaches x limit now fresh report s s' d h

Reaches-IsKeyed : {s s' : WorkflowStore} → Reaches s s' → IsKeyed s → IsKeyed s'
Reaches-IsKeyed here d = d
Reaches-IsKeyed (further a rest) d = Reaches-IsKeyed rest (a.keys_kept d)

pub Runs-Reaches : (x : External) {s s' : WorkflowStore} → IsKeyed s → Runs x s s' → Reaches s s'
Runs-Reaches x d done = here
Runs-Reaches x d (next step rest) =
    let first = Step-Reaches x d step in
    Reaches-trans first (Runs-Reaches x (Reaches-IsKeyed first d) rest)

-- The primary key holds in every store that a run from the empty one reaches.
pub Runs-IsKeyed : (x : External) {s s' : WorkflowStore} → IsKeyed s → Runs x s s' → IsKeyed s'
Runs-IsKeyed x d runs = Reaches-IsKeyed (Runs-Reaches x d runs) d
