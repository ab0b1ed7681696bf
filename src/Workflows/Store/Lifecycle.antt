-- ===== src/Workflows/Store/Lifecycle.antt =====
-- The lifecycle of a workflow in backend/workflows/store.py: which states follow which, and the
-- change of a row that a statement makes.
use ryuk.Prelude.{
  ℕ, ◌≤◌, ◌<◌, String, ◌≡◌, refl, sym, ◌∙◌, inl, inr, true, false, ◌&&◌, none, some, List, [], ◌∷◌,
  arith, if◌then◌else◌, ◌==◌, eq_iff, eq_refl, Bool-cases, some_inj,
}
use mathlib.Core.Path.{subst}
use ryuk.Workflows.Store.Tables.{
  WorkflowState, ready, running, awaiting_validation, succeeded, failed, rejected, cancelled,
  uncertain, Workflow, WorkflowStore, find, is_workflow, select_workflow, update_workflow,
  update_where,
}
use ryuk.Workflows.Store.External.{is_state}
use ryuk.Workflows.Store.Keys.{KeepsKey, IsKeyed, DistinctKeys-update_where}

-- The lifecycle. Nothing leads back to `ready` or `running`, and nothing out of the last four.
pub data Moves : WorkflowState → WorkflowState → Type 0 where
  claimed : Moves ready running
  withdrawn : Moves ready cancelled
  returned : Moves running awaiting_validation
  broke : Moves running failed
  stopped : Moves running cancelled
  lost : Moves running uncertain
  accepted : Moves awaiting_validation succeeded
  refused : Moves awaiting_validation rejected
  dropped : Moves awaiting_validation cancelled
  recovered : Moves uncertain awaiting_validation
  found_failed : Moves uncertain failed

-- How far a workflow has come.
unfoldable pub stage : WorkflowState → ℕ
stage ready = 0
stage running = 1
stage uncertain = 2
stage awaiting_validation = 3
stage _ = 4

pub Moves-stage : {a b : WorkflowState} → Moves a b → stage a < stage b
unfolding stage
Moves-stage claimed = omega arith
Moves-stage withdrawn = omega arith
Moves-stage returned = omega arith
Moves-stage broke = omega arith
Moves-stage stopped = omega arith
Moves-stage lost = omega arith
Moves-stage accepted = omega arith
Moves-stage refused = omega arith
Moves-stage dropped = omega arith
Moves-stage recovered = omega arith
Moves-stage found_failed = omega arith

pub is_state-eq : (a b : WorkflowState) → is_state a b ≡ true → a ≡ b
unfolding is_state
is_state-eq ready b h = ground arith
is_state-eq running b h = ground arith
is_state-eq awaiting_validation b h = ground arith
is_state-eq succeeded b h = ground arith
is_state-eq failed b h = ground arith
is_state-eq rejected b h = ground arith
is_state-eq cancelled b h = ground arith
is_state-eq uncertain b h = ground arith

-- A row keeps its request, and its result once it has one.
pub record Keeps (a b : Workflow) : Type 0 where
  pub packet_kept : b.packet ≡ a.packet
  pub hash_kept : b.request_hash ≡ a.request_hash
  pub result_kept :
      2 < stage a.state → (b.result ≡ a.result) × (b.result_artifact_id ≡ a.result_artifact_id)

-- What an operation does to a row: nothing, or a move that keeps the fence or raises it.
pub data RowStep (a b : Workflow) : Type 0 where
  stays : b ≡ a → RowStep a b
  moves : Moves a.state b.state → a.fence ≤ b.fence → Keeps a b → RowStep a b

-- An operation keeps every row, and each row stays or moves along the lifecycle.
pub record Advances (s s' : WorkflowStore) : Type 0 where
  pub row_of :
      (tenant id : String) (row : Workflow)
      → select_workflow tenant id s ≡ some row
      → (row' : Workflow) × (select_workflow tenant id s' ≡ some row') × RowStep row row'
  pub keys_kept : IsKeyed s → IsKeyed s'

module _ (t i u j : String) (f : Workflow → Workflow) (k : KeepsKey f) where
  find-update_where :
      (rows : List Workflow)
      → find (is_workflow t i) (update_where (is_workflow u j) f rows) ≡ (
          if u == t && j == i
          then elim (find (is_workflow t i) rows) [ none ↦ none | some r ↦ some (f r) ]
          else find (is_workflow t i) rows)
  unfolding find update_where
  find-update_where [] = ground arith
  find-update_where (r ∷ rows) = ground (
    arith,
    find-update_where rows,
    k.tenant_kept r,
    k.id_kept r,
    eq_iff r.tenant t,
    eq_iff r.id i,
    eq_iff r.tenant u,
    eq_iff r.id j,
    eq_iff u t,
    eq_iff j i,
  )

module _ (u j : String) (f : Workflow → Workflow) (k : KeepsKey f) (s : WorkflowStore) where
  pub select-update_self :
      (r : Workflow)
      → select_workflow u j s ≡ some r
      → select_workflow u j (update_workflow u j f s) ≡ some (f r)
  unfolding select_workflow update_workflow
  select-update_self r e = rw (find-update_where u j u j f k s.workflows, eq_refl, eq_refl, e)

  pub select-update_other :
      (t i : String)
      → (u == t && j == i) ≡ false
      → select_workflow t i (update_workflow u j f s) ≡ select_workflow t i s
  unfolding select_workflow update_workflow
  select-update_other t i differ = rw (find-update_where t i u j f k s.workflows, differ)

  -- One row is updated: the operation advances if that row does.
  pub update-Advances :
      (r : Workflow)
      → select_workflow u j s ≡ some r
      → RowStep r (f r)
      → Advances s (update_workflow u j f s)
  update-Advances r e step = record {
    row_of = λ t i row found. elim (Bool-cases (u == t && j == i)) [
      | inr differ ↦ (row, rw (select-update_other t i differ) found, stays refl)
      | inl same ↦
          let same_tenant : u ≡ t = ground (arith, eq_iff u t) in
          let same_id : j ≡ i = ground (arith, eq_iff j i) in
          let here : r ≡ row = some_inj (sym e ∙ rw (same_tenant, same_id) found) in
          (
            f r,
            rw (← same_tenant, ← same_id) (select-update_self r e),
            subst (λ y. RowStep y (f r)) here step,
          )
    ];
    keys_kept = λ d. unfold update_workflow in DistinctKeys-update_where u j f k s.workflows d;
  }

-- What does not touch `workflows` leaves every row.
pub same-Advances : (s s' : WorkflowStore) → s'.workflows ≡ s.workflows → Advances s s'
unfolding select_workflow
same-Advances s s' e = record {
  row_of = λ t i row found. (row, rw e found, stays refl);
  keys_kept = λ d. rw e d;
}

-- The updated store may differ from what the update was applied to outside `workflows`.
pub Advances-same :
    (s a b : WorkflowStore) → Advances s a → b.workflows ≡ a.workflows → Advances s b
unfolding select_workflow
Advances-same s a b h e = record {
  row_of = λ t i row found.
      let (row', found', step) = h.row_of t i row found in (row', rw e found', step);
  keys_kept = λ d. rw e (h.keys_kept d);
}

pub Advances-from :
    (s a b : WorkflowStore) → a.workflows ≡ s.workflows → Advances a b → Advances s b
unfolding select_workflow
Advances-from s a b e h = record {
  row_of = λ t i row found. h.row_of t i row (rw e found);
  keys_kept = λ d. h.keys_kept (rw e d);
}

pub stage_of_RowStep :
    {a b : Workflow} → RowStep a b → (stage a.state ≤ stage b.state) × (a.fence ≤ b.fence)
stage_of_RowStep (stays e) = rw e (omega arith, omega arith)
stage_of_RowStep (moves m f kept) = (omega (arith, Moves-stage m), f)
