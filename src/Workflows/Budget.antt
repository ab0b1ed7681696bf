-- ===== src/Workflows/Budget.antt =====
-- backend/workflows/budget.py: one budget for all the attempts of a workflow.
pub mod Limits
mod Examples
use ryuk.Prelude.{
  ℕ, ◌+◌, ◌-◌, Bool, true, false, ◌||◌, Option, none, some, leb, ltb, if◌then◌else◌, eqb,
}
use ryuk.Prelude.Int.{ℤ, pos, negsuc}
use ryuk.Prelude.Result.{Result, ok, err, value_error, ◌>>=◌}

-- The clock, the start and the deadline are milliseconds.
pub record WorkflowBudget : Type 0 where
  pub deadline_ms : ℕ
  pub max_attempts : ℕ
  pub max_output_tokens : Option ℕ
  pub started : ℕ
  pub attempts : ℕ
  pub output_tokens : ℕ

zero_limit : Option ℕ → Bool
zero_limit none = false
zero_limit (some n) = ltb n 1

-- `WorkflowBudget(...)` with `__post_init__`, at the clock's value `now`.
unfoldable pub make : ℕ → ℕ → Option ℕ → ℕ → Result WorkflowBudget
unfolding zero_limit
make deadline_ms max_attempts max_output_tokens now =
    if leb deadline_ms 0 || ltb max_attempts 1 || zero_limit max_output_tokens
    then err value_error
    else ok (record {
      deadline_ms = deadline_ms;
      max_attempts = max_attempts;
      max_output_tokens = max_output_tokens;
      started = now;
      attempts = 0;
      output_tokens = 0;
    })

-- `max(0.0, …)`; the clock is monotonic, so `started` is not after `now`.
unfoldable pub remaining_ms : WorkflowBudget → ℕ → ℕ
remaining_ms b now = b.deadline_ms - (now - b.started)

unfoldable pub reserve_attempt : WorkflowBudget → ℕ → Bool × WorkflowBudget
unfolding remaining_ms
reserve_attempt b now =
    if leb (remaining_ms b now) 0 || leb b.max_attempts b.attempts
    then (false, b)
    else (true, record b { attempts = b.attempts + 1 })

unfoldable pub over_tokens : Option ℕ → ℕ → Bool
over_tokens none total = false
over_tokens (some limit) total = ltb limit total

unfoldable pub record_output_tokens : WorkflowBudget → Option ℤ → Result (Bool × WorkflowBudget)
unfolding over_tokens
record_output_tokens b none = ok (true, b)
record_output_tokens b (some (negsuc n)) = err value_error
record_output_tokens b (some (pos count)) =
    if over_tokens b.max_output_tokens (b.output_tokens + count)
    then ok (false, b)
    else ok (true, record b { output_tokens = b.output_tokens + count })
