-- ===== src/Inference/Router/Loop/Termination.antt =====
-- The loop of backend/inference/router.py ends: each pass drops a deployment or makes an attempt.
use ryuk.Prelude.{
  ℕ, zero, suc, ◌+◌, ◌-◌, ◌<◌, ◌≤◌, Bool, true, false, Option, some, List, [], ◌∷◌, ◌≡◌, refl, inl,
  inr, length, length-append, arith, Bool-cases,
}
use ryuk.Prelude.Result.{Result, ok, err}
use ryuk.Inference.Errors.{
  InferenceFailure, retry_of, RetryClassification, never, same_deployment, other_deployment,
}
use ryuk.Inference.Registry.{RegisteredDeployment}
use ryuk.Inference.Runtime.{RuntimeStateStore}
use ryuk.Inference.Router.Attempt.{backoff_fails, Executed}
use ryuk.Inference.Router.Pass.{
  Turn, LoopState, Pass, goes_on, ends, TaskCall, terminal_deadline, add_attempt, budget_exceeded,
  retry_with, after_report, fail_over, back_off, succeed,
}
use ryuk.Inference.Router.Loop.{
  failure_record, abort, give_up, next_pass, proceed, enough_fuel, first_state, Finished,
  run_passes,
}
use ryuk.Workflows.Budget.{WorkflowBudget}
use ryuk.Inference.Router.Loop.Passes.{
  IsAttempt, aborts, fails_over, succeeds, breaks, IsPass, gives_up, skips, is_late, check_fails,
  check_breaks, is_refused, tries, next_pass-IsPass, Runs, last_pass, one_more,
}

-- What is left to do: deployments to drop, and attempts to make.
abbrev pub work_left : TaskCall → LoopState → ℕ
work_left call s = length s.queue + (call.policy.max_attempts - length s.attempts)

IsShorter : TaskCall → LoopState → Pass → Type 0
IsShorter call s (goes_on after) = work_left call after < work_left call s
IsShorter call s (ends outcome last) = Unit

back_off-IsShorter :
    (call : TaskCall) (turn : Turn) (s after : LoopState)
    → work_left call after < work_left call s
    → IsShorter call s (back_off call turn after)
unfolding back_off terminal_deadline IsShorter
back_off-IsShorter call turn s after h =
    elim (Bool-cases (
      backoff_fails call.policy.backoff (length after.attempts)
        (call.deadline - turn.backed_off_at))) [ inl late ↦ rw late tt | inr timely ↦ rw timely h ]

retry_with-IsShorter :
    (retry : RetryClassification) (call : TaskCall) (turn : Turn) (ds : List RegisteredDeployment)
    (f : InferenceFailure) (s after : LoopState)
    → work_left call after < work_left call s
    → length ds ≤ length after.queue
    → IsShorter call s (retry_with retry call turn ds f after)
unfolding retry_with IsShorter
retry_with-IsShorter same_deployment call turn ds f s after h le =
    back_off-IsShorter call turn s (record after { last_failure = some f }) h
retry_with-IsShorter other_deployment call turn ds f s after h le =
    back_off-IsShorter call turn s (record after { last_failure = some f; queue = ds })
      (omega arith)
retry_with-IsShorter never call turn ds f s after h le = tt

after_report-IsShorter :
    (call : TaskCall) (d : RegisteredDeployment) (executed : Executed) (s after : LoopState)
    (report : Result (Bool × Option WorkflowBudget))
    → IsShorter call s (after_report call d executed after report)
unfolding after_report IsShorter budget_exceeded
after_report-IsShorter call d executed s after (err e) = tt
after_report-IsShorter call d executed s after (ok (true, budget)) = tt
after_report-IsShorter call d executed s after (ok (false, budget)) = tt

attempt-IsShorter :
    (call : TaskCall) (turn : Turn) (d : RegisteredDeployment) (ds : List RegisteredDeployment)
    (s : LoopState) (after : Option WorkflowBudget) (p : Pass)
    → s.queue ≡ d ∷ ds
    → length s.attempts < call.policy.max_attempts
    → IsAttempt call turn d ds (record s { budget = after }) p
    → IsShorter call s p
unfolding IsShorter abort fail_over add_attempt succeed
attempt-IsShorter call turn d ds s after _ queue below (aborts kind) = tt
attempt-IsShorter call turn d ds s after _ queue below (fails_over f) =
    retry_with-IsShorter (retry_of f.kind) call turn ds f s
      (failure_record turn d (record s { budget = after }) f.kind)
      (omega (arith, below, length-append s.attempts (_ ∷ []))) (rw queue (omega arith))
attempt-IsShorter call turn d ds s after _ queue below (succeeds executed) =
    after_report-IsShorter call d executed s _ _
attempt-IsShorter call turn d ds s after _ queue below (breaks e) = tt

IsPass-IsShorter :
    (call : TaskCall) (turn : Turn) (s : LoopState) (p : Pass)
    → IsPass call turn s p
    → IsShorter call s p
unfolding IsShorter give_up terminal_deadline budget_exceeded
IsPass-IsShorter call turn s _ gives_up = tt
IsPass-IsShorter call turn s _ (skips d ds queue) = rw queue (omega arith)
IsPass-IsShorter call turn s _ is_late = tt
IsPass-IsShorter call turn s _ (check_fails f told) = tt
IsPass-IsShorter call turn s _ (check_breaks e) = tt
IsPass-IsShorter call turn s _ (is_refused reserved) = tt
IsPass-IsShorter call turn s p (tries d ds after _ queue closed below granted tried) =
    attempt-IsShorter call turn d ds s after p queue below tried

proceed-Runs :
    (call : TaskCall) (turns : ℕ → Turn) (n : ℕ) (s : LoopState) (p : Pass)
    (next : LoopState → Finished)
    → next_pass call (turns n) s.queue s ≡ p
    → IsShorter call s p
    → ((after : LoopState)
        → work_left call after < work_left call s
        → Runs call turns (suc n) after (next after))
    → Runs call turns n s (proceed p next)
unfolding proceed IsShorter
proceed-Runs call turns n s (goes_on after) next same shorter later =
    one_more n s after (next after) same (later after shorter)
proceed-Runs call turns n s (ends outcome last) next same shorter later =
    last_pass n s last outcome same

run_passes-Runs :
    (fuel : ℕ) (call : TaskCall) (turns : ℕ → Turn) (n : ℕ) (s : LoopState)
    → work_left call s < fuel
    → Runs call turns n s (run_passes fuel call turns n s)
unfolding run_passes
run_passes-Runs zero call turns n s enough = absurd (omega arith)
run_passes-Runs (suc fuel) call turns n s enough =
    let turn = turns n in
    proceed-Runs call turns n s (next_pass call turn s.queue s) _ refl
      (IsPass-IsShorter call turn s _ (next_pass-IsPass call turn s.queue s refl))
      (λ after shorter. run_passes-Runs fuel call turns (suc n) after (omega arith))

-- Whatever the clocks say and the deployments answer, the loop over an order of deployments ends: the
-- fuel of `generate_task` is enough for the passes of the call to come to their end.
pub run_passes-ends :
    (call : TaskCall) (turns : ℕ → Turn) (queue : List RegisteredDeployment)
    (budget : Option WorkflowBudget) (states : Option RuntimeStateStore)
    → let s = first_state queue budget states in
      Runs call turns 0 s (run_passes (enough_fuel call queue) call turns 0 s)
run_passes-ends call turns queue budget states =
    run_passes-Runs (enough_fuel call queue) call turns 0 (first_state queue budget states)
      (omega arith)
