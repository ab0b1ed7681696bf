-- ===== src/Inference/Router/Loop.antt =====
-- backend/inference/router.py: `generate_task`, the loop of attempts. The turns of the passes are a
-- function of the number of the pass.
pub mod Passes
pub mod Termination
pub mod Invariant
pub mod Guarantees
pub mod Calls
use ryuk.Prelude.{
  ℕ, zero, suc, String, ◌+◌, Bool, true, false, not, ◌&&◌, Option, none, some, List, [], ◌∷◌, ltb,
  if◌then◌else◌, length, contains,
}
use ryuk.Prelude.Result.{Error, no_fuel, type_error, cancelled_error}
use ryuk.Inference.Contracts.{InferenceTask, RoutingDecision, InferenceResult}
use ryuk.Inference.Errors.{
  InferenceFailure, FailureKind, make_failure, deadline_exceeded, cancelled,
}
use ryuk.Inference.Registry.{
  RegisteredDeployment, Answer, replied, failing, crashing, all_deployments,
}
use ryuk.Inference.Router.{
  InferenceRouter, AnyRegistry, Outcome, returns, raises, crashes, no_available_engine,
  ordered_deployments, engines, deployments,
}
use ryuk.Inference.Router.Attempt.{Executed, monotonic_deadline, failed_attempt, succeeded_attempt}
use ryuk.Inference.Router.Pass.{
  Turn, LoopState, Pass, goes_on, ends, TaskCall, tell, terminal_deadline, or_text, add_attempt,
  check_available, reserve_in, reserved_attempts, budget_exceeded, fail_over, succeed, await_task,
  Awaited, times_out, is_cancelled, answers,
}
use ryuk.Inference.Runtime.{RuntimeStateStore}
use ryuk.Workflows.Budget.{WorkflowBudget}

-- An attempt of this turn that failed.
abbrev pub failure_record : Turn → RegisteredDeployment → LoopState → FailureKind → LoopState
failure_record turn d s kind =
    add_attempt (failed_attempt turn.attempt_id (length s.attempts + 1) d turn.timing kind) s

-- The failure with the deployment and the attempt, where it has none.
unfoldable pub locate : Turn → RegisteredDeployment → InferenceFailure → InferenceFailure
unfolding or_text
locate turn d f = record f {
  deployment_id = or_text f.deployment_id d.ref.deployment_id;
  attempt_id = or_text f.attempt_id turn.attempt_id;
}

-- `except TimeoutError` and `except asyncio.CancelledError`.
unfoldable pub abort : TaskCall → Turn → RegisteredDeployment → FailureKind → LoopState → Pass
abort call turn d kind s =
    let after = failure_record turn d s kind in
    ends
      (raises (
        tell call after.attempts
          (make_failure kind (some d.ref.deployment_id) (some turn.attempt_id))))
      after

-- What the attempt does with the end of the awaited task; the deployments after `d` are `ds`.
unfoldable pub after_task :
    TaskCall
    → Turn
    → RegisteredDeployment
    → List RegisteredDeployment
    → LoopState
    → Awaited (Outcome Executed)
    → Pass
unfolding abort locate
after_task call turn d ds s times_out = abort call turn d deadline_exceeded s
after_task call turn d ds s is_cancelled = abort call turn d cancelled s
after_task call turn d ds s (answers (returns executed)) =
    succeed call d executed
      (add_attempt (succeeded_attempt turn.attempt_id (length s.attempts + 1) d turn.timing) s)
after_task call turn d ds s (answers (raises f)) =
    fail_over call turn ds (locate turn d f) (failure_record turn d s f.kind)
after_task call turn d ds s (answers (crashes e)) = ends (crashes e) s

-- The attempt, from its identifier on.
unfoldable pub attempt :
    TaskCall → Turn → RegisteredDeployment → List RegisteredDeployment → LoopState → Pass
unfolding after_task
attempt call turn d ds s = after_task call turn d ds s (await_task call turn d s)

unfoldable pub reserve_and_attempt :
    TaskCall → Turn → RegisteredDeployment → List RegisteredDeployment → LoopState → Pass
unfolding attempt
reserve_and_attempt call turn d ds s =
    let (granted, after) = reserve_in turn.reserved_at s.budget in
    if granted
    then attempt call turn d ds (record s { budget = after })
    else budget_exceeded call s (reserved_attempts after) none

-- What the body does with the end of the check whether the deployment is available.
unfoldable pub after_check :
    TaskCall
    → Turn
    → RegisteredDeployment
    → List RegisteredDeployment
    → LoopState
    → Awaited (Answer Bool)
    → Pass
unfolding reserve_and_attempt
after_check call turn d ds s times_out = terminal_deadline call s
after_check call turn d ds s is_cancelled = ends (crashes cancelled_error) s
after_check call turn d ds s (answers (replied true)) = reserve_and_attempt call turn d ds s
after_check call turn d ds s (answers (replied false)) = goes_on (record s { queue = ds })
after_check call turn d ds s (answers (failing f)) = ends (raises f) s
after_check call turn d ds s (answers (crashing e)) = ends (crashes e) s

-- The body of the loop, at the deployment `d`.
unfoldable pub pass :
    TaskCall → Turn → RegisteredDeployment → List RegisteredDeployment → LoopState → Pass
unfolding after_check
pass call turn d ds s =
    if contains d.ref.deployment_id call.circuit_open_deployment_ids
    then goes_on (record s { queue = ds })
    else after_check call turn d ds s (check_available call turn d s)

-- After the loop: `last_failure or NoAvailableEngineError()`.
unfoldable pub terminal_failure : Option InferenceFailure → InferenceFailure
terminal_failure none = no_available_engine
terminal_failure (some f) = f

unfoldable pub give_up : TaskCall → LoopState → Pass
unfolding terminal_failure
give_up call s = ends (raises (tell call s.attempts (terminal_failure s.last_failure))) s

-- The condition of the loop, and its body or what follows the loop.
unfoldable pub next_pass : TaskCall → Turn → List RegisteredDeployment → LoopState → Pass
unfolding pass give_up
next_pass call turn [] s = give_up call s
next_pass call turn (d ∷ ds) s =
    if ltb (length s.attempts) call.policy.max_attempts
    then pass call turn d ds s
    else give_up call s

-- How a call ended, with the locals at its end.
pub record Finished : Type 0 where
  pub outcome : Outcome InferenceResult
  pub last : LoopState

-- The next pass, or the end.
unfoldable pub proceed : Pass → (LoopState → Finished) → Finished
proceed (goes_on after) next = next after
proceed (ends outcome last) next = record { outcome = outcome; last = last }

-- The loop, on fuel, from the pass of this number on.
unfoldable pub run_passes : ℕ → TaskCall → (ℕ → Turn) → ℕ → LoopState → Finished
unfolding next_pass proceed
run_passes zero call turns n s = record { outcome = crashes no_fuel; last = s }
run_passes (suc fuel) call turns n s =
    proceed (next_pass call (turns n) s.queue s) (λ after. run_passes fuel call turns (suc n) after)

-- The rounds that a call can need: each one drops a deployment or makes an attempt, but the last.
abbrev pub enough_fuel : TaskCall → List RegisteredDeployment → ℕ
enough_fuel call queue = length queue + call.policy.max_attempts + 1

-- The clocks before the loop.
pub record Start : Type 0 where
  pub wall : ℕ
  pub monotonic : ℕ

abbrev pub first_state :
    List RegisteredDeployment → Option WorkflowBudget → Option RuntimeStateStore → LoopState
first_state queue budget states = record {
  queue = queue;
  attempts = [];
  last_failure = none;
  budget = budget;
  runtime_states = states;
}

abbrev pub call_of : InferenceRouter → InferenceTask → Start → RoutingDecision → TaskCall
call_of router task start decision = record {
  task = task;
  policy = router.policy;
  circuit_open_deployment_ids = router.circuit_open_deployment_ids;
  decision = decision;
  deadline = monotonic_deadline router.policy.default_deadline start.monotonic start.wall task;
}

-- `generate_task` after the deployments are in order.
unfoldable pub attempt_in_order :
    InferenceRouter
    → InferenceTask
    → Option WorkflowBudget
    → Start
    → (ℕ → Turn)
    → Outcome (List RegisteredDeployment × RoutingDecision)
    → Finished
unfolding run_passes
attempt_in_order router task budget start turns (raises f) = record {
  outcome = raises f;
  last = first_state [] budget router.runtime_states;
}
attempt_in_order router task budget start turns (crashes e) = record {
  outcome = crashes e;
  last = first_state [] budget router.runtime_states;
}
attempt_in_order router task budget start turns (returns (queue, decision)) =
    let call = call_of router task start decision in
    run_passes (enough_fuel call queue) call turns 0
      (first_state queue budget router.runtime_states)

-- `_ordered_deployments`, where the registry is one of deployments.
unfoldable pub order_in :
    InferenceRouter
    → InferenceTask
    → Option String
    → ℕ
    → AnyRegistry
    → Outcome (List RegisteredDeployment × RoutingDecision)
order_in router task preferred now (engines es) = crashes type_error
order_in router task preferred now (deployments registry) =
    ordered_deployments router.runtime_states now task preferred (all_deployments registry)

-- `generate_task`
unfoldable pub generate_task :
    InferenceRouter
    → InferenceTask
    → Option String
    → Option WorkflowBudget
    → Start
    → (ℕ → Turn)
    → Finished
unfolding attempt_in_order order_in
generate_task router task preferred budget start turns =
    attempt_in_order router task budget start turns
      (order_in router task preferred start.wall router.registry)
