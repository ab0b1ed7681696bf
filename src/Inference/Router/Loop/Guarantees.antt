-- ===== src/Inference/Router/Loop/Guarantees.antt =====
-- What callers of `generate_task` of backend/inference/router.py rely on.
use ryuk.Prelude.{
  ℕ, suc, ◌+◌, ◌-◌, ◌<◌, Bool, true, false, Option, none, some, List, ◌∷◌, ◌≡◌, refl, ap, ◌⊎◌, inl,
  inr, length, contains, arith, Bool-cases, Has,
}
use mathlib.Core.Path.{subst}
use ryuk.Prelude.Int.{ℤ}
use ryuk.Prelude.Result.{Result, ok, err}
use ryuk.Inference.Contracts.{InferenceResult, ExecutionAttempt, is_failed}
use ryuk.Inference.Errors.{
  InferenceFailure, FailureKind, RetryClassification, never, same_deployment, other_deployment,
  retry_of,
}
use ryuk.Inference.Registry.{RegisteredDeployment, failing}
use ryuk.Inference.Runtime.{RuntimeStateStore}
use ryuk.Inference.Router.{Outcome, returns, raises, crashes}
use ryuk.Inference.Router.Attempt.{failed_attempt, succeeded_attempt, Executed, backoff_fails}
use ryuk.Inference.Router.Pass.{
  Turn, LoopState, TaskCall, Pass, goes_on, ends, add_attempt, record_tokens_in, answers, back_off,
  retry_with, after_report, tell, terminal_deadline, fail_over, succeed, budget_exceeded,
}
use ryuk.Inference.Router.Loop.{
  failure_record, abort, give_up, Finished, run_passes, first_state, enough_fuel,
}
use ryuk.Inference.Router.Loop.Passes.{
  IsAttempt, aborts, fails_over, succeeds, breaks, IsPass, gives_up, skips, is_late, check_fails,
  check_breaks, is_refused, tries, next_pass-IsPass, Runs, last_pass, one_more,
}
use ryuk.Inference.Router.Loop.Termination.{run_passes-ends}
use ryuk.Inference.Router.Loop.Invariant.{
  IsMade, IsCharged, IsSound, IsLastSuccess, IsClosed, add_attempt-IsSound, add_attempt-IsClosed,
  IsSound-IsClosed, reserve_in-IsCharged, record_tokens_in-IsCharged,
}
use ryuk.Workflows.Budget.{WorkflowBudget}

-- What the caller is told of the attempts: a result carries them, and the last one succeeded; a failure
-- carries them and the decision, or is one that a check of availability raised.
abbrev pub IsTold : TaskCall → (ℕ → Turn) → Outcome InferenceResult → LoopState → Type 0
IsTold call turns (returns r) last = (r.attempts ≡ last.attempts) × IsLastSuccess last.attempts
IsTold call turns (raises f) last =
    ((f.context.execution_attempts ≡ some last.attempts)
      × (f.context.routing_decision ≡ some call.decision))
    ⊎ ((n : ℕ) × ((turns n).availability ≡ answers (failing f)))
IsTold call turns (crashes e) last = Unit

-- One call: its turns, its order, and the budget that it began with.
module _ (call : TaskCall) (turns : ℕ → Turn) (order : List RegisteredDeployment)
    (first : Option WorkflowBudget) where
  IsKept : Pass → Type 0
  IsKept (goes_on after) = IsSound call order first after
  IsKept (ends outcome last) = IsClosed call order first last × IsTold call turns outcome last

  requeue-IsSound :
      (s : LoopState) (ds : List RegisteredDeployment) (f : Option InferenceFailure)
      → IsSound call order first s
      → ((d : RegisteredDeployment) → Has ds d → Has order d)
      → IsSound call order first (record s { queue = ds; last_failure = f })
  requeue-IsSound s ds f sound ordered = record {
    bounded = sound.bounded;
    numbered = sound.numbered;
    made = sound.made;
    all_failed = sound.all_failed;
    ordered = ordered;
    charged = sound.charged;
  }

  back_off-IsKept :
      (n : ℕ) (s : LoopState) → IsSound call order first s → IsKept (back_off call (turns n) s)
  unfolding IsKept back_off terminal_deadline tell
  back_off-IsKept n s sound =
      elim (Bool-cases (
        backoff_fails call.policy.backoff (length s.attempts)
          (call.deadline - (turns n).backed_off_at))) [
            | inl late ↦ rw late (IsSound-IsClosed call order first s sound, inl (refl, refl))
            | inr timely ↦ rw timely sound
          ]

  retry_with-IsKept :
      (retry : RetryClassification) (n : ℕ) (ds : List RegisteredDeployment) (f : InferenceFailure)
      (s : LoopState)
      → IsSound call order first s
      → ((d : RegisteredDeployment) → Has ds d → Has order d)
      → IsKept (retry_with retry call (turns n) ds f s)
  unfolding IsKept retry_with tell
  retry_with-IsKept same_deployment n ds f s sound ordered =
      back_off-IsKept n (record s { last_failure = some f })
        (requeue-IsSound s s.queue (some f) sound sound.ordered)
  retry_with-IsKept other_deployment n ds f s sound ordered =
      back_off-IsKept n (record s { last_failure = some f; queue = ds })
        (requeue-IsSound s ds (some f) sound ordered)
  retry_with-IsKept never n ds f s sound ordered =
      let after = requeue-IsSound s s.queue (some f) sound sound.ordered in
      (IsSound-IsClosed call order first _ after, inl (refl, refl))

  rebudget-IsClosed :
      (s : LoopState) (after : Option WorkflowBudget) (tokens : Option ℤ) (within : Bool)
      → record_tokens_in tokens s.budget ≡ ok (within, after)
      → IsClosed call order first s
      → IsClosed call order first (record s { budget = after })
  rebudget-IsClosed s after tokens within told closed = record {
    bounded = closed.bounded;
    numbered = closed.numbered;
    made = closed.made;
    successes = closed.successes;
    reserved = closed.reserved;
    recorded = closed.recorded;
    charged =
        record_tokens_in-IsCharged first s.budget after closed.reserved tokens within told
          closed.charged;
  }

  after_report-IsKept :
      (d : RegisteredDeployment) (executed : Executed) (s : LoopState)
      (report : Result (Bool × Option WorkflowBudget))
      → record_tokens_in executed.0.usage.output_tokens s.budget ≡ report
      → IsClosed call order first s
      → IsLastSuccess s.attempts
      → IsKept (after_report call d executed s report)
  unfolding IsKept after_report budget_exceeded tell
  after_report-IsKept d executed s (err e) told closed success = (closed, tt)
  after_report-IsKept d executed s (ok (true, after)) told closed success =
      (rebudget-IsClosed s after executed.0.usage.output_tokens true told closed, (refl, success))
  after_report-IsKept d executed s (ok (false, after)) told closed success =
      (rebudget-IsClosed s after executed.0.usage.output_tokens false told closed, inl (refl, refl))

  -- An attempt on the head of the queue is the next one to record.
  head-IsMade :
      (d : RegisteredDeployment) (ds : List RegisteredDeployment) (s : LoopState)
      (a : ExecutionAttempt)
      → IsSound call order first s
      → s.queue ≡ d ∷ ds
      → contains d.ref.deployment_id call.circuit_open_deployment_ids ≡ false
      → a.deployment_id ≡ d.ref.deployment_id
      → a.configured_deployment ≡ some d.ref
      → IsMade call order a
  head-IsMade d ds s a sound queue shut same_id same_ref =
      (d, sound.ordered d (rw queue (inl refl)), shut, same_id, same_ref)

  failure-IsSound :
      (n : ℕ) (d : RegisteredDeployment) (ds : List RegisteredDeployment) (s : LoopState)
      (after : Option WorkflowBudget) (kind : FailureKind)
      → IsSound call order first s
      → s.queue ≡ d ∷ ds
      → contains d.ref.deployment_id call.circuit_open_deployment_ids ≡ false
      → length s.attempts < call.policy.max_attempts
      → IsCharged first after (suc (length s.attempts))
      → IsSound call order first (failure_record (turns n) d (record s { budget = after }) kind)
  failure-IsSound n d ds s after kind sound queue shut below charged =
      let a = failed_attempt (turns n).attempt_id (length s.attempts + 1) d (turns n).timing kind in
      unfold failed_attempt is_failed in
      add_attempt-IsSound call order first after s a sound
        (record {
          below = below;
          sequence = refl;
          made = head-IsMade d ds s a sound queue shut refl refl;
        })
        refl charged

  attempt-IsKept :
      (n : ℕ) (d : RegisteredDeployment) (ds : List RegisteredDeployment) (s : LoopState)
      (after : Option WorkflowBudget) (p : Pass)
      → IsSound call order first s
      → s.queue ≡ d ∷ ds
      → contains d.ref.deployment_id call.circuit_open_deployment_ids ≡ false
      → length s.attempts < call.policy.max_attempts
      → IsCharged first after (suc (length s.attempts))
      → IsAttempt call (turns n) d ds (record s { budget = after }) p
      → IsKept p
  unfolding IsKept abort fail_over succeed tell
  attempt-IsKept n d ds s after _ sound queue shut below charged (aborts kind) =
      let failed_state = failure-IsSound n d ds s after kind sound queue shut below charged in
      (IsSound-IsClosed call order first _ failed_state, inl (refl, refl))
  attempt-IsKept n d ds s after _ sound queue shut below charged (fails_over f) =
      retry_with-IsKept (retry_of f.kind) n ds f
        (failure_record (turns n) d (record s { budget = after }) f.kind)
        (failure-IsSound n d ds s after f.kind sound queue shut below charged)
        (λ x h. sound.ordered x (rw queue (inr h)))
  attempt-IsKept n d ds s after _ sound queue shut below charged (succeeds executed) =
      let a = succeeded_attempt (turns n).attempt_id (length s.attempts + 1) d (turns n).timing in
      after_report-IsKept d executed (add_attempt a (record s { budget = after })) _ refl
        (unfold succeeded_attempt is_failed in
          add_attempt-IsClosed call order first after s a sound
            (record {
              below = below;
              sequence = refl;
              made = head-IsMade d ds s a sound queue shut refl refl;
            })
            refl charged)
        (unfold add_attempt succeeded_attempt is_failed in
          (s.attempts, a, refl, sound.all_failed, refl))
  attempt-IsKept n d ds s after _ sound queue shut below charged (breaks e) = (
    record {
      bounded = sound.bounded;
      numbered = sound.numbered;
      made = sound.made;
      successes = inl sound.all_failed;
      reserved = suc (length s.attempts);
      recorded = omega arith;
      charged = charged;
    },
    tt,
  )

  IsPass-IsKept :
      (n : ℕ) (s : LoopState) (p : Pass)
      → IsSound call order first s
      → IsPass call (turns n) s p
      → IsKept p
  unfolding IsKept give_up terminal_deadline budget_exceeded tell
  IsPass-IsKept n s _ sound gives_up = (IsSound-IsClosed call order first s sound, inl (refl, refl))
  IsPass-IsKept n s _ sound (skips d ds queue) =
      requeue-IsSound s ds s.last_failure sound (λ x h. sound.ordered x (rw queue (inr h)))
  IsPass-IsKept n s _ sound is_late = (IsSound-IsClosed call order first s sound, inl (refl, refl))
  IsPass-IsKept n s _ sound (check_fails f told) =
      (IsSound-IsClosed call order first s sound, inr (n, told))
  IsPass-IsKept n s _ sound (check_breaks e) = (IsSound-IsClosed call order first s sound, tt)
  IsPass-IsKept n s _ sound (is_refused reserved) =
      (IsSound-IsClosed call order first s sound, inl (refl, refl))
  IsPass-IsKept n s p sound (tries d ds after _ queue shut below granted tried) =
      attempt-IsKept n d ds s after p sound queue shut below
        (subst (λ (b : Option WorkflowBudget). IsCharged first b (suc (length s.attempts)))
          (ap (λ r. r.1) granted)
          (reserve_in-IsCharged first s.budget (length s.attempts) (turns n).reserved_at
            (ap (λ r. r.0) granted) sound.charged))
        tried

  Runs-IsClosed :
      (n : ℕ) (s : LoopState) (finished : Finished)
      → IsSound call order first s
      → Runs call turns n s finished
      → IsClosed call order first finished.last × IsTold call turns finished.outcome finished.last
  unfolding IsKept
  Runs-IsClosed n s _ sound (last_pass _ _ last outcome same) =
      subst IsKept same (IsPass-IsKept n s _ sound (next_pass-IsPass call (turns n) s.queue s refl))
  Runs-IsClosed n s finished sound (one_more _ _ after _ same later) =
      Runs-IsClosed (suc n) after finished
        (subst IsKept same
          (IsPass-IsKept n s _ sound (next_pass-IsPass call (turns n) s.queue s refl)))
        later

-- A budget before any reservation.
IsCharged-start : (budget : Option WorkflowBudget) → IsCharged budget budget 0
IsCharged-start none = tt
IsCharged-start (some b) = (omega arith, refl, omega arith)

first_state-IsSound :
    (call : TaskCall) (queue : List RegisteredDeployment) (budget : Option WorkflowBudget)
    (states : Option RuntimeStateStore)
    → IsSound call queue budget (first_state queue budget states)
first_state-IsSound call queue budget states = record {
  bounded = omega arith;
  numbered = tt;
  made = tt;
  all_failed = tt;
  ordered = λ d h. h;
  charged = IsCharged-start budget;
}

-- Whatever the clocks say and the deployments answer, the loop over an order of deployments comes to an
-- end after no more attempts than the policy allows and the budget has left. They are numbered from one,
-- each was made on a deployment of the order whose circuit is not open, and at most the last succeeded.
-- A result carries the attempts, the last of which succeeded; a failure carries them and the routing
-- decision, unless a check of availability raised it.
pub run_passes-attempts :
    (call : TaskCall) (turns : ℕ → Turn) (queue : List RegisteredDeployment)
    (budget : Option WorkflowBudget) (states : Option RuntimeStateStore)
    → let finished =
        run_passes (enough_fuel call queue) call turns 0 (first_state queue budget states) in
      Runs call turns 0 (first_state queue budget states) finished
      × IsClosed call queue budget finished.last
      × IsTold call turns finished.outcome finished.last
run_passes-attempts call turns queue budget states =
    let runs = run_passes-ends call turns queue budget states in
    let (closed, told) =
      Runs-IsClosed call turns queue budget 0 (first_state queue budget states) _
        (first_state-IsSound call queue budget states) runs in
    (runs, closed, told)
