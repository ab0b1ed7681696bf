-- ===== src/Inference/Router/Pass.antt =====
-- backend/inference/router.py: the parts of one pass of the loop of `generate_task`. The clocks and the
-- answers of the pass are its `Turn`; the budget and the runtime states are passed on.
use ryuk.Prelude.{
  ℕ, String, ◌-◌, Bool, true, false, Option, none, some, List, [], ◌∷◌, ◌++◌, leb, if◌then◌else◌,
  ◌==◌, length,
}
use ryuk.Prelude.Int.{ℤ}
use ryuk.Prelude.Result.{Result, ok, err, ◌>>=◌}
use ryuk.Inference.Contracts.{InferenceTask, ExecutionAttempt, RoutingDecision, InferenceResult}
use ryuk.Inference.Errors.{
  InferenceFailure, make_failure, no_context, retry_of, RetryClassification, never, same_deployment,
  other_deployment, deadline_exceeded, workflow_budget_exceeded,
}
use ryuk.Inference.Registry.{RegisteredDeployment, Answer, replied}
use ryuk.Inference.Runtime.{RuntimeStateStore, get, is_routable, record_attempt}
use ryuk.Inference.Router.{ExecutionPolicy, Outcome, returns, raises, crashes}
use ryuk.Inference.Router.Attempt.{
  Service, Executed, execute_task, remaining, backoff_fails, Timing, build_provenance,
}
use ryuk.Workflows.Budget.{WorkflowBudget, reserve_attempt, record_output_tokens}

-- How an awaited call ends: it is timed out or cancelled, or it comes to an answer.
pub data Awaited (T : Type 0) : Type 0 where
  times_out : Awaited T
  is_cancelled : Awaited T
  answers : T → Awaited T

-- One pass: the clocks that it reads, and what it is answered.
pub record Turn : Type 0 where
  pub wall : ℕ
  pub checked_at : ℕ
  pub availability : Awaited (Answer Bool)
  pub reserved_at : ℕ
  pub attempt_id : String
  pub executed_at : ℕ
  pub service : Awaited Service
  pub timing : Timing
  pub backed_off_at : ℕ

-- The locals of the loop, with the objects that it changes.
pub record LoopState : Type 0 where
  pub queue : List RegisteredDeployment
  pub attempts : List ExecutionAttempt
  pub last_failure : Option InferenceFailure
  pub budget : Option WorkflowBudget
  pub runtime_states : Option RuntimeStateStore

-- A pass goes on to the next one, or ends the call.
pub data Pass : Type 0 where
  goes_on : LoopState → Pass
  ends : Outcome InferenceResult → LoopState → Pass

-- What stays the same over the loop.
pub record TaskCall : Type 0 where
  pub task : InferenceTask
  pub policy : ExecutionPolicy
  pub circuit_open_deployment_ids : List String
  pub decision : RoutingDecision
  pub deadline : ℕ

-- `failure.context["execution_attempts"] = ...` and `failure.context["routing_decision"] = ...`
unfoldable pub tell : TaskCall → List ExecutionAttempt → InferenceFailure → InferenceFailure
tell call attempts f = record f {
  context = record f.context {
    execution_attempts = some attempts;
    routing_decision = some call.decision;
  };
}

-- `_terminal_deadline`
unfoldable pub terminal_deadline : TaskCall → LoopState → Pass
unfolding tell
terminal_deadline call s =
    ends (raises (tell call s.attempts (make_failure deadline_exceeded none none))) s

-- `a or b` for texts.
unfoldable pub or_text : Option String → String → Option String
or_text none default = some default
or_text (some value) default = if value == "" then some default else some value

unfoldable pub record_in : ExecutionAttempt → Option RuntimeStateStore → Option RuntimeStateStore
record_in attempt none = none
record_in attempt (some states) = some (record_attempt states attempt)

-- `attempts.append(...)` and `_record_attempt`
unfoldable pub add_attempt : ExecutionAttempt → LoopState → LoopState
unfolding record_in
add_attempt attempt s = record s {
  attempts = s.attempts ++ (attempt ∷ []);
  runtime_states = record_in attempt s.runtime_states;
}

-- Whether the deployment is available, or why this cannot be told in time.
unfoldable pub check_in :
    Option RuntimeStateStore
    → TaskCall
    → Turn
    → RegisteredDeployment
    → Option WorkflowBudget
    → Awaited (Answer Bool)
check_in (some states) call turn d budget =
    answers (replied (is_routable (get states d.ref.deployment_id) turn.wall))
check_in none call turn d budget =
    if leb (remaining call.deadline budget turn.checked_at) 0 then times_out else turn.availability

unfoldable pub check_available :
    TaskCall → Turn → RegisteredDeployment → LoopState → Awaited (Answer Bool)
unfolding check_in
check_available call turn d s = check_in s.runtime_states call turn d s.budget

-- `budget is None or budget.reserve_attempt()`
unfoldable pub reserve_in : ℕ → Option WorkflowBudget → Bool × Option WorkflowBudget
reserve_in now none = (true, none)
reserve_in now (some budget) =
    let (granted, after) = reserve_attempt budget now in (granted, some after)

unfoldable pub reserved_attempts : Option WorkflowBudget → Option ℕ
reserved_attempts none = none
reserved_attempts (some budget) = some budget.attempts

unfoldable pub recorded_tokens : Option WorkflowBudget → Option ℕ
recorded_tokens none = none
recorded_tokens (some budget) = some budget.output_tokens

unfoldable pub budget_exceeded : TaskCall → LoopState → Option ℕ → Option ℕ → Pass
unfolding tell
budget_exceeded call s reserved tokens =
    ends
      (raises (
        tell call s.attempts (record (make_failure workflow_budget_exceeded none none) {
          context = record no_context { budget_attempts = reserved; budget_output_tokens = tokens };
        })))
      s

-- `_backoff`, and then the next pass.
unfoldable pub back_off : TaskCall → Turn → LoopState → Pass
unfolding terminal_deadline
back_off call turn s =
    if backoff_fails call.policy.backoff (length s.attempts) (call.deadline - turn.backed_off_at)
    then terminal_deadline call s
    else goes_on s

-- The branches on `failure.retry`.
unfoldable pub retry_with :
    RetryClassification
    → TaskCall
    → Turn
    → List RegisteredDeployment
    → InferenceFailure
    → LoopState
    → Pass
unfolding back_off tell
retry_with same_deployment call turn ds f s =
    back_off call turn (record s { last_failure = some f })
retry_with other_deployment call turn ds f s =
    back_off call turn (record s { last_failure = some f; queue = ds })
retry_with never call turn ds f s =
    ends (raises (tell call s.attempts f)) (record s { last_failure = some f })

-- The clause for `InferenceFailure`; the deployments after the present one are `ds`.
unfoldable pub fail_over :
    TaskCall → Turn → List RegisteredDeployment → InferenceFailure → LoopState → Pass
unfolding retry_with
fail_over call turn ds f s = retry_with (retry_of f.kind) call turn ds f s

-- `budget is None or budget.record_output_tokens(...)`
unfoldable pub record_tokens_in :
    Option ℤ → Option WorkflowBudget → Result (Bool × Option WorkflowBudget)
record_tokens_in tokens none = ok (true, none)
record_tokens_in tokens (some budget) =
    record_output_tokens budget tokens >>= λ told. ok (told.0, some told.1)

unfoldable pub after_report :
    TaskCall
    → RegisteredDeployment
    → Executed
    → LoopState
    → Result (Bool × Option WorkflowBudget)
    → Pass
unfolding recorded_tokens
after_report call d executed s (err e) = ends (crashes e) s
after_report call d (result, identity) s (ok (true, after)) =
    ends
      (returns (record {
        adapter_result = result;
        provenance = build_provenance d identity;
        attempts = s.attempts;
        routing_decision = call.decision;
      }))
      (record s { budget = after })
after_report call d executed s (ok (false, after)) =
    budget_exceeded call (record s { budget = after }) none (recorded_tokens after)

unfoldable pub succeed : TaskCall → RegisteredDeployment → Executed → LoopState → Pass
unfolding record_tokens_in after_report
succeed call d executed s =
    after_report call d executed s (record_tokens_in executed.0.usage.output_tokens s.budget)

-- `asyncio.wait_for(self._execute_task(...), timeout)`
unfoldable pub await_task :
    TaskCall → Turn → RegisteredDeployment → LoopState → Awaited (Outcome Executed)
await_task call turn d s =
    if leb (remaining call.deadline s.budget turn.executed_at) 0
    then times_out
    else elim turn.service [
      | times_out ↦ times_out
      | is_cancelled ↦ is_cancelled
      | answers service ↦ answers (execute_task d call.task service)
    ]
