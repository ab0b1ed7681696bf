-- ===== src/Workflows/Store/Evidence.antt =====
-- The journal of backend/workflows/store.py after `record_outcome`.
use ryuk.Prelude.{
  ℕ, String, ◌≡◌, refl, sym, ◌∙◌, inl, inr, Bool, true, false, not, Option, none, some, arith,
  Option-cases, Bool-cases, some_inj, eqb,
}
use ryuk.Prelude.Result.{ok, conflict, raise_if, or_raise, bind-ok, or_raise-ok, raise_if-ok}
use mathlib.Core.Path.{subst}
use ryuk.Workflows.Store.Tables.{
  running, Workflow, Dispatch, WorkflowStore, select_workflow, add_event, update_where, is_dispatch,
  select_dispatch,
}
use ryuk.Workflows.Store.Rows.{find-update_self}
use ryuk.Workflows.Store.External.{External, require_lease, is_flag}
use ryuk.Workflows.Store.Operations.{record_outcome, record_new_outcome, same_outcome, set_recorded}
use ryuk.Workflows.Store.Effects.{is_text-eq, record_outcome-rows, require_lease-Holds}

-- The journal has the outcome of the dispatch that was made at the fence.
pub record Recorded (x : External) (tenant id encoded : String) (success : Bool) (fence : ℕ)
    (s : WorkflowStore) (d : Dispatch) : Type 0 where
  pub journal : select_dispatch tenant id s ≡ some d
  pub at_fence : d.fence ≡ fence
  pub outcome : d.outcome_json ≡ some encoded
  pub digest : d.outcome_sha256 ≡ some (x.sha256 encoded)
  pub success_flag : d.succeeded ≡ some success

is_flag-some : (o : Option Bool) (b : Bool) → is_flag o b ≡ true → o ≡ some b
is_flag-some none b h = absurd (cc)
is_flag-some (some true) true h = refl
is_flag-some (some true) false h = absurd (cc)
is_flag-some (some false) true h = absurd (cc)
is_flag-some (some false) false h = refl

module _ (x : External) (tenant id : String) (encoded : String) (success : Bool) (fence : ℕ) where
  written-dispatches :
      (d : Dispatch) (s s' : WorkflowStore)
      → d.outcome_json ≡ none
      → record_new_outcome x tenant id fence encoded success d s ≡ ok (tt, s')
      → s'.dispatches
        ≡ update_where
            (is_dispatch tenant id)
            (set_recorded encoded (x.sha256 encoded) success)
            s.dispatches
  unfolding record_new_outcome add_event
  written-dispatches d s s' missing h = ground arith

  record_new-Recorded :
      (d : Dispatch) (s s' : WorkflowStore)
      → select_dispatch tenant id s ≡ some d
      → d.fence ≡ fence
      → record_new_outcome x tenant id fence encoded success d s ≡ ok (tt, s')
      → (d' : Dispatch) × Recorded x tenant id encoded success fence s' d'
  unfolding record_new_outcome same_outcome select_dispatch add_event
  record_new-Recorded d s s' found at_fence h = elim (Option-cases d.outcome_json) [
    | inr (text, e) ↦ elim (Bool-cases (same_outcome x d encoded success)) [
      | inr differs ↦ absurd (ground arith)
      | inl same ↦
          let same_store : s ≡ s' = ground arith in
          (
            d,
            record {
              journal =
                  subst (λ (y : WorkflowStore). select_dispatch tenant id y ≡ some d) same_store
                    found;
              at_fence = at_fence;
              outcome = is_text-eq d.outcome_json encoded (ground arith);
              digest = is_text-eq d.outcome_sha256 (x.sha256 encoded) (ground arith);
              success_flag = is_flag-some d.succeeded success (ground arith);
            },
          )
    ]
    | inl missing ↦ (
      set_recorded encoded (x.sha256 encoded) success d,
      record {
        journal = rw (written-dispatches d s s' missing h) (
            find-update_self (is_dispatch tenant id)
              (set_recorded encoded (x.sha256 encoded) success) (λ a. refl) s.dispatches d found);
        at_fence = at_fence;
        outcome = refl;
        digest = refl;
        success_flag = refl;
      },
    )
  ]

  pub record_outcome-Recorded :
      (owner : String) (now : ℕ) (s s' : WorkflowStore)
      → record_outcome x tenant id owner fence encoded success now s ≡ ok (tt, s')
      → (d : Dispatch) × Recorded x tenant id encoded success fence s' d
  unfolding record_outcome
  record_outcome-Recorded owner now s s' h =
      let (_, lease, h1) = bind-ok (require_lease tenant id owner fence now s) _ h in
      let (d, looked, h2) = bind-ok (or_raise (select_dispatch tenant id s) conflict) _ h1 in
      let (_, same, h3) = bind-ok (raise_if (not (eqb d.fence fence)) conflict) _ h2 in
      let at_fence : d.fence ≡ fence =
        ground (arith, raise_if-ok (not (eqb d.fence fence)) conflict same) in
      record_new-Recorded d s s' (or_raise-ok (select_dispatch tenant id s) conflict looked)
        at_fence h3

record_outcome-lease :
    (x : External) (tenant id owner encoded : String) (fence now : ℕ) (success : Bool)
    (s s' : WorkflowStore)
    → record_outcome x tenant id owner fence encoded success now s ≡ ok (tt, s')
    → require_lease tenant id owner fence now s ≡ ok tt
unfolding record_outcome
record_outcome-lease x tenant id owner encoded fence now success s s' h =
    (bind-ok (require_lease tenant id owner fence now s) _ h).1

-- A lease was held when the outcome was recorded.
pub record_outcome-Holds :
    (x : External) (tenant id owner encoded : String) (fence now : ℕ) (success : Bool)
    (row : Workflow) (s s' : WorkflowStore)
    → record_outcome x tenant id owner fence encoded success now s ≡ ok (tt, s')
    → select_workflow tenant id s' ≡ some row
    → (row.state ≡ running) × (row.fence ≡ fence)
unfolding select_workflow
record_outcome-Holds x tenant id owner encoded fence now success row s s' h found =
    let lease = record_outcome-lease x tenant id owner encoded fence now success s s' h in
    let (other, holds) = require_lease-Holds tenant id owner fence now s lease in
    let rows = record_outcome-rows x tenant id owner fence encoded success now s s' h in
    let same : other ≡ row = some_inj (sym holds.found ∙ (rw (← rows) found)) in
    (
      subst (λ (y : Workflow). y.state ≡ running) same holds.is_running,
      subst (λ (y : Workflow). y.fence ≡ fence) same holds.at_fence,
    )
