-- ===== src/Workflows/Store/Replay.antt =====
-- The repetition of a method of backend/workflows/store.py after a return that the caller did not see.
use ryuk.Prelude.{
  String, ◌≡◌, refl, sym, ◌∙◌, inl, inr, Bool, true, false, not, ◌&&◌, Option, none, some, List, [],
  ◌∷◌, ◌++◌, arith, if◌then◌else◌, ◌==◌, eq_iff, eq_refl, Option-cases, Bool-cases,
}
use ryuk.Prelude.Text.{is_identifier}
use ryuk.Prelude.Result.{ok, err, conflict, value_error, raise_if, or_raise, bind-ok, or_raise-ok}
use mathlib.Core.Path.{subst}
use ryuk.Workflows.Store.Tables.{
  WorkflowState, succeeded, rejected, Workflow, Artifact, Validation, Report, WorkflowStore, find,
  select_workflow, update_workflow, add_event, select_validation, select_binding, get_artifact,
}
use ryuk.Workflows.Store.External.{External}
use ryuk.Workflows.Store.Operations.{create, create_row, new_workflow, request_text}
use ryuk.Workflows.Store.Acceptance.{
  validate, decide, result_artifact, validation_policy, set_judged,
}
use ryuk.Workflows.Store.Lifecycle.{select-update_self}
use ryuk.Workflows.Store.Effects.{set_judged-KeepsKey}
use ryuk.Workflows.Store.Runs.{added-rows}

find-append_new {ℓ} :
    {A : Type ℓ} (p : A → Bool) (rows : List A) (q : A)
    → find p rows ≡ none
    → p q ≡ true
    → find p (rows ++ q ∷ []) ≡ some q
unfolding find
find-append_new p [] q h e = rw e refl
find-append_new p (y ∷ ys) q h e = elim (Bool-cases (p y)) [
  | inl passes ↦ absurd (ground arith)
  | inr fails ↦ rw fails (find-append_new p ys q (rw fails at h) e)
]

hashes-differ : (a b c : String) → a ≡ b → ¬ (b ≡ c) → (a == c) ≡ false
hashes-differ a b c e differs = elim (Bool-cases (a == c)) [
  | inl same ↦ absurd (differs (sym e ∙ (eq_iff a c).0 same))
  | inr other ↦ other
]

module _ (x : External) (tenant key : String) where
  -- `WHERE tenant=? AND idempotency_key=?`
  abbrev has_key : Workflow → Bool
  has_key r = r.tenant == tenant && r.idempotency_key == key

  create_row-found :
      (packet : String) (binding : Option String) (id got : String) (s s' : WorkflowStore)
      → create_row x tenant key packet binding id (find has_key s.workflows) s ≡ ok (got, s')
      → (row : Workflow) × (find has_key s'.workflows ≡ some row)
        × (row.request_hash ≡ x.sha256 (request_text x packet binding))
        × (row.id ≡ got)
  unfolding create_row
  create_row-found packet binding id got s s' h = elim (Option-cases (find has_key s.workflows)) [
    | inr (row, e) ↦
        elim (Bool-cases (row.request_hash == x.sha256 (request_text x packet binding))) [
          | inr differs ↦ absurd (ground arith)
          | inl same ↦
              let unchanged : s ≡ s' = ground arith in
              (
                row,
                subst (λ (y : WorkflowStore). find has_key y.workflows ≡ some row) unchanged e,
                (eq_iff row.request_hash (x.sha256 (request_text x packet binding))).0 same,
                ground arith,
              )
        ]
    | inl missing ↦
        let row = new_workflow id tenant key (x.sha256 (request_text x packet binding)) packet in
        let rows : s'.workflows ≡ s.workflows ++ row ∷ [] =
          added-rows tenant id binding (record s { workflows = s.workflows ++ row ∷ [] }) s'
            (ground arith) in
        (
          row,
          rw rows (
              find-append_new has_key s.workflows row missing
                (unfold new_workflow in rw (eq_refl, eq_refl) refl)),
          unfold new_workflow in refl,
          unfold new_workflow in ground arith,
        )
  ]

  -- After a creation that returns, the same request returns the same identifier and changes nothing, whatever
  -- identifier would be drawn; a readable request under the same key whose text has another hash raises a conflict.
  pub create_again :
      (packet : String) (binding : Option String) (id got id' packet' : String)
      (binding' : Option String) (s s' : WorkflowStore)
      → create x tenant key packet binding id s ≡ ok (got, s')
      → x.reads_packet packet' ≡ true
      → (create x tenant key packet binding id' s' ≡ ok (got, s'))
        × (¬ (x.sha256 (request_text x packet binding) ≡ x.sha256 (request_text x packet' binding'))
            → create x tenant key packet' binding' id' s' ≡ err conflict)
  unfolding create create_row
  create_again packet binding id got id' packet' binding' s s' h readable =
      let (_, tenant_ok, h1) = bind-ok (raise_if (not (is_identifier tenant)) value_error) _ h in
      let (_, key_ok, h2) = bind-ok (raise_if (not (is_identifier key)) value_error) _ h1 in
      let (_, packet_ok, h3) = bind-ok (raise_if (not (x.reads_packet packet)) value_error) _ h2 in
      let (row, found, hash, same_id) = create_row-found packet binding id got s s' h3 in
      (
        rw (tenant_ok, key_ok, packet_ok, found, hash, eq_refl, same_id) refl,
        λ differs.
            let other =
              hashes-differ row.request_hash (x.sha256 (request_text x packet binding))
                (x.sha256 (request_text x packet' binding')) hash differs in
            rw (tenant_ok, key_ok, readable, found, other) refl,
      )

-- The artifact of a row stands where it stood.
result_artifact-same :
    (tenant id : String) (row row' : Workflow) (s s' : WorkflowStore)
    → row'.result_artifact_id ≡ row.result_artifact_id
    → s'.artifacts ≡ s.artifacts
    → result_artifact tenant id row' s' ≡ result_artifact tenant id row s
unfolding get_artifact
result_artifact-same tenant id row row' s s' e g = elim (Option-cases row.result_artifact_id) [
  | inl missing ↦ rw (e, missing) refl
  | inr (artifact_id, known) ↦ rw (e, known, g) refl
]

judged-selects :
    (tenant id : String) (state : WorkflowState) (row : Workflow) (s s' : WorkflowStore)
    → select_workflow tenant id s ≡ some row
    → s'.workflows ≡ (update_workflow tenant id (set_judged state) s).workflows
    → select_workflow tenant id s' ≡ some (set_judged state row)
unfolding select_workflow
judged-selects tenant id state row s s' found e =
    rw e (select-update_self tenant id (set_judged state) (set_judged-KeepsKey state) s row found)

module _ (x : External) (tenant id : String) where
  -- After a decision, the row has the same artifact and the table has the same decision.
  record Decided (policy : String) (artifact : Artifact) (report : Report) (s s' : WorkflowStore)
      (row : Workflow) : Type 0 where
    pub bindings_kept : s'.bindings ≡ s.bindings
    pub artifacts_kept : s'.artifacts ≡ s.artifacts
    pub row_after :
        (row' : Workflow) × (select_workflow tenant id s' ≡ some row')
        × (row'.result_artifact_id ≡ row.result_artifact_id)
    pub decision :
        (v : Validation) × (select_validation tenant id s' ≡ some v) × (v.report ≡ report)
    pub about :
        (report.policy == policy
          && (report.artifact_id == artifact.id && report.sha256 == artifact.sha256))
        ≡ true

  decide-Decided :
      (row : Workflow) (policy : String) (artifact : Artifact) (v : Option Validation)
      (report : Report) (s s' : WorkflowStore)
      → select_workflow tenant id s ≡ some row
      → select_validation tenant id s ≡ v
      → decide x tenant id row policy artifact v s ≡ ok (report, s')
      → Decided policy artifact report s s' row
  unfolding decide
  decide-Decided row policy artifact (some v) report s s' found e h =
      let unchanged : s ≡ s' = ground arith in
      let same : v.report ≡ report = ground arith in
      subst (λ (y : WorkflowStore). Decided policy artifact report s y row) unchanged
        (record {
          bindings_kept = refl;
          artifacts_kept = refl;
          row_after = (row, found, refl);
          decision = (v, e, same);
          about =
              subst
                (λ (r : Report).
                  (r.policy == policy
                    && (r.artifact_id == artifact.id && r.sha256 == artifact.sha256))
                  ≡ true)
                same (ground arith);
        })
  decide-Decided row policy artifact none report s s' found e h =
      let made : Report = record {
        policy = policy;
        artifact_id = artifact.id;
        sha256 = artifact.sha256;
        accepted = x.accepts artifact.content_json policy;
      } in
      let state : WorkflowState = if made.accepted then succeeded else rejected in
      let same : made ≡ report = ground arith in
      let new : Validation = record { workflow_id = id; tenant = tenant; report = made } in
      let rows : s'.validations ≡ s.validations ++ new ∷ [] =
        unfold add_event update_workflow in ground arith in
      record {
        bindings_kept = unfold add_event update_workflow in ground arith;
        artifacts_kept = unfold add_event update_workflow in ground arith;
        row_after = (
          set_judged state row,
          judged-selects tenant id state row s s' found
              (unfold add_event update_workflow in ground arith),
          refl,
        );
        decision = (
          new,
          unfold select_validation in
              rw rows (
                find-append_new (λ r. r.tenant == tenant && r.workflow_id == id) s.validations new
                  (unfold select_validation in e) (rw (eq_refl, eq_refl) refl)),
          same,
        );
        about =
            subst
              (λ (r : Report).
                (r.policy == policy
                  && (r.artifact_id == artifact.id && r.sha256 == artifact.sha256))
                ≡ true)
              same (rw (eq_refl, eq_refl, eq_refl) refl);
      }

  decide_again :
      (row : Workflow) (policy : String) (artifact : Artifact) (v : Validation) (report : Report)
      (s : WorkflowStore)
      → v.report ≡ report
      → (report.policy == policy
          && (report.artifact_id == artifact.id && report.sha256 == artifact.sha256))
        ≡ true
      → decide x tenant id row policy artifact (some v) s ≡ ok (report, s)
  unfolding decide
  decide_again row policy artifact v report s same about =
      rw
        (
          subst
              (λ (r : Report).
                (r.policy == policy
                  && (r.artifact_id == artifact.id && r.sha256 == artifact.sha256))
                ≡ true)
              (sym same) about,
          same,
        )
        refl

  -- After a validation that returns, the same validation returns the same report and changes nothing.
  pub validate_again :
      (policy : Option String) (report : Report) (s s' : WorkflowStore)
      → validate x tenant id policy s ≡ ok (report, s')
      → validate x tenant id policy s' ≡ ok (report, s')
  unfolding validate
  validate_again policy report s s' h =
      let (chosen, chooses, h1) =
        bind-ok (validation_policy x (select_binding tenant id s) policy) _ h in
      let (row, looked, h2) = bind-ok (or_raise (select_workflow tenant id s) conflict) _ h1 in
      let (artifact, stored, h3) =
        bind-ok (or_raise (result_artifact tenant id row s) conflict) _ h2 in
      let found = or_raise-ok (select_workflow tenant id s) conflict looked in
      let after =
        decide-Decided row chosen artifact (select_validation tenant id s) report s s' found refl
          h3 in
      let (row', found', kept) = after.row_after in
      let (v, decided, same) = after.decision in
      let binding : select_binding tenant id s' ≡ select_binding tenant id s =
        unfold select_binding in rw after.bindings_kept refl in
      let artifacts = result_artifact-same tenant id row row' s s' kept after.artifacts_kept in
      let there = or_raise-ok (result_artifact tenant id row s) conflict stored in
      rw (binding, chooses, found', artifacts, there, decided)
        (decide_again row' chosen artifact v report s' same after.about)
