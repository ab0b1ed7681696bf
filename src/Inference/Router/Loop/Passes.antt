-- ===== src/Inference/Router/Loop/Passes.antt =====
-- One pass of the loop of backend/inference/router.py as a relation, and the runs of the loop.
use ryuk.Prelude.{
  ℕ, suc, ◌+◌, ◌<◌, Bool, true, false, Option, none, some, List, [], ◌∷◌, ◌≡◌, refl, ap, inl, inr,
  ltb, leb, length, contains, arith, Bool-cases,
}
use ryuk.Prelude.Result.{Error, cancelled_error}
use ryuk.Inference.Contracts.{InferenceResult}
use ryuk.Inference.Errors.{InferenceFailure, FailureKind, deadline_exceeded, cancelled}
use ryuk.Inference.Registry.{RegisteredDeployment, Answer, replied, failing, crashing}
use ryuk.Inference.Runtime.{RuntimeStateStore}
use ryuk.Inference.Router.{Outcome, returns, raises, crashes}
use ryuk.Inference.Router.Attempt.{remaining, Executed, succeeded_attempt}
use ryuk.Inference.Router.Pass.{
  Turn, LoopState, Pass, goes_on, ends, TaskCall, terminal_deadline, add_attempt, check_in,
  check_available, reserve_in, reserved_attempts, budget_exceeded, fail_over, succeed, await_task,
  Awaited, times_out, is_cancelled, answers,
}
use ryuk.Inference.Router.Loop.{
  failure_record, locate, abort, after_task, attempt, reserve_and_attempt, after_check, pass,
  give_up, next_pass, Finished,
}
use ryuk.Workflows.Budget.{WorkflowBudget}

-- The ways in which an attempt ends.
pub data IsAttempt (call : TaskCall) (turn : Turn) (d : RegisteredDeployment)
    (ds : List RegisteredDeployment) (s : LoopState) : Pass → Type 0 where
  aborts : (kind : FailureKind) → IsAttempt call turn d ds s (abort call turn d kind s)
  fails_over :
      (f : InferenceFailure)
      → IsAttempt call turn d ds s (fail_over call turn ds f (failure_record turn d s f.kind))
  succeeds :
      (executed : Executed)
      → IsAttempt call turn d ds s (
          succeed call d executed (
            add_attempt
              (succeeded_attempt turn.attempt_id (length s.attempts + 1) d turn.timing)
              s))
  breaks : (e : Error) → IsAttempt call turn d ds s (ends (crashes e) s)

-- The ways in which a pass goes.
pub data IsPass (call : TaskCall) (turn : Turn) (s : LoopState) : Pass → Type 0 where
  gives_up : IsPass call turn s (give_up call s)
  skips :
      (d : RegisteredDeployment) (ds : List RegisteredDeployment)
      → s.queue ≡ d ∷ ds
      → IsPass call turn s (goes_on (record s { queue = ds }))
  is_late : IsPass call turn s (terminal_deadline call s)
  check_fails :
      (f : InferenceFailure)
      → turn.availability ≡ answers (failing f)
      → IsPass call turn s (ends (raises f) s)
  check_breaks : (e : Error) → IsPass call turn s (ends (crashes e) s)
  is_refused : (reserved : Option ℕ) → IsPass call turn s (budget_exceeded call s reserved none)
  tries :
      (d : RegisteredDeployment) (ds : List RegisteredDeployment) (after : Option WorkflowBudget)
      (p : Pass)
      → s.queue ≡ d ∷ ds
      → contains d.ref.deployment_id call.circuit_open_deployment_ids ≡ false
      → length s.attempts < call.policy.max_attempts
      → reserve_in turn.reserved_at s.budget ≡ (true, after)
      → IsAttempt call turn d ds (record s { budget = after }) p
      → IsPass call turn s p

after_task-IsAttempt :
    (call : TaskCall) (turn : Turn) (d : RegisteredDeployment) (ds : List RegisteredDeployment)
    (s : LoopState) (end : Awaited (Outcome Executed))
    → IsAttempt call turn d ds s (after_task call turn d ds s end)
unfolding after_task locate
after_task-IsAttempt call turn d ds s times_out = aborts deadline_exceeded
after_task-IsAttempt call turn d ds s is_cancelled = aborts cancelled
after_task-IsAttempt call turn d ds s (answers (returns executed)) = succeeds executed
after_task-IsAttempt call turn d ds s (answers (raises f)) = fails_over (locate turn d f)
after_task-IsAttempt call turn d ds s (answers (crashes e)) = breaks e

reserve_and_attempt-IsPass :
    (call : TaskCall) (turn : Turn) (d : RegisteredDeployment) (ds : List RegisteredDeployment)
    (s : LoopState)
    → s.queue ≡ d ∷ ds
    → contains d.ref.deployment_id call.circuit_open_deployment_ids ≡ false
    → length s.attempts < call.policy.max_attempts
    → IsPass call turn s (reserve_and_attempt call turn d ds s)
unfolding reserve_and_attempt attempt
reserve_and_attempt-IsPass call turn d ds s queue closed below =
    elim (Bool-cases (reserve_in turn.reserved_at s.budget).0) [
      | inl granted ↦
          let after = (reserve_in turn.reserved_at s.budget).1 in
          rw granted (
            tries d ds after _ queue closed below (ap (λ (b : Bool). (b, after)) granted) (
              after_task-IsAttempt call turn d ds (record s { budget = after })
                (await_task call turn d (record s { budget = after }))))
      | inr refused ↦
          rw refused (is_refused (reserved_attempts (reserve_in turn.reserved_at s.budget).1))
    ]

-- A failure of the check is that of the engine.
check_in-failing :
    (states : Option RuntimeStateStore) (call : TaskCall) (turn : Turn) (d : RegisteredDeployment)
    (budget : Option WorkflowBudget) (f : InferenceFailure)
    → check_in states call turn d budget ≡ answers (failing f)
    → turn.availability ≡ answers (failing f)
unfolding check_in
check_in-failing (some states) call turn d budget f h = absurd cc
check_in-failing none call turn d budget f h =
    elim (Bool-cases (leb (remaining call.deadline budget turn.checked_at) 0)) [
      | inl late ↦ absurd (let e = rw late at h in cc)
      | inr timely ↦ rw timely at h
    ]

after_check-IsPass :
    (call : TaskCall) (turn : Turn) (d : RegisteredDeployment) (ds : List RegisteredDeployment)
    (s : LoopState) (check : Awaited (Answer Bool))
    → ((f : InferenceFailure)
        → check ≡ answers (failing f)
        → turn.availability ≡ answers (failing f))
    → s.queue ≡ d ∷ ds
    → contains d.ref.deployment_id call.circuit_open_deployment_ids ≡ false
    → length s.attempts < call.policy.max_attempts
    → IsPass call turn s (after_check call turn d ds s check)
unfolding after_check
after_check-IsPass call turn d ds s times_out told queue closed below = is_late
after_check-IsPass call turn d ds s is_cancelled told queue closed below =
    check_breaks cancelled_error
after_check-IsPass call turn d ds s (answers (replied true)) told queue closed below =
    reserve_and_attempt-IsPass call turn d ds s queue closed below
after_check-IsPass call turn d ds s (answers (replied false)) told queue closed below =
    skips d ds queue
after_check-IsPass call turn d ds s (answers (failing f)) told queue closed below =
    check_fails f (told f refl)
after_check-IsPass call turn d ds s (answers (crashing e)) told queue closed below = check_breaks e

pass-IsPass :
    (call : TaskCall) (turn : Turn) (d : RegisteredDeployment) (ds : List RegisteredDeployment)
    (s : LoopState)
    → s.queue ≡ d ∷ ds
    → length s.attempts < call.policy.max_attempts
    → IsPass call turn s (pass call turn d ds s)
unfolding pass check_available
pass-IsPass call turn d ds s queue below =
    elim (Bool-cases (contains d.ref.deployment_id call.circuit_open_deployment_ids)) [
      | inl open_circuit ↦ rw open_circuit (skips d ds queue)
      | inr closed ↦ rw closed (
          after_check-IsPass call turn d ds s (check_available call turn d s)
            (check_in-failing s.runtime_states call turn d s.budget) queue closed below)
    ]

pub next_pass-IsPass :
    (call : TaskCall) (turn : Turn) (queue : List RegisteredDeployment) (s : LoopState)
    → s.queue ≡ queue
    → IsPass call turn s (next_pass call turn queue s)
unfolding next_pass
next_pass-IsPass call turn [] s same = gives_up
next_pass-IsPass call turn (d ∷ ds) s same =
    elim (Bool-cases (ltb (length s.attempts) call.policy.max_attempts)) [
      | inl below ↦ rw below (pass-IsPass call turn d ds s same (ground arith))
      | inr reached ↦ rw reached gives_up
    ]

-- The passes of a call, from the pass of this number on, to its end.
pub data Runs (call : TaskCall) (turns : ℕ → Turn) : ℕ → LoopState → Finished → Type 0 where
  last_pass :
      (n : ℕ) (s last : LoopState) (outcome : Outcome InferenceResult)
      → next_pass call (turns n) s.queue s ≡ ends outcome last
      → Runs call turns n s (record { outcome = outcome; last = last })
  one_more :
      (n : ℕ) (s after : LoopState) (finished : Finished)
      → next_pass call (turns n) s.queue s ≡ goes_on after
      → Runs call turns (suc n) after finished
      → Runs call turns n s finished
