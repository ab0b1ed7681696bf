-- ===== src/Workflows/Budget/Examples.antt =====
-- backend/workflows/budget.py with two attempts and ten output tokens.
use ryuk.Prelude.{ℕ, ◌≤◌, ◌≡◌, refl, some, List, [], ◌∷◌}
use ryuk.Prelude.Int.{pos}
use ryuk.Prelude.Result.{ok}
use ryuk.Workflows.Budget.{WorkflowBudget, make}
use ryuk.Workflows.Budget.Limits.{Use, reserve, report, spend_all, granted, accepted, budget_limits}

abbrev small : WorkflowBudget
small = record {
  deadline_ms = 1000;
  max_attempts = 2;
  max_output_tokens = some 10;
  started = 0;
  attempts = 0;
  output_tokens = 0;
}

small_made : make 1000 2 (some 10) 0 ≡ ok small
unfolding make
small_made = refl

abbrev uses : List Use
uses = reserve 0 ∷ report (some (pos 8)) ∷ reserve 5 ∷ report (some (pos 8)) ∷ reserve 9 ∷ []

budget_limits_example :
    (granted small uses ≤ 2)
    × ((spend_all small uses).output_tokens ≡ accepted small uses)
    × ((limit : ℕ) → some 10 ≡ some limit → accepted small uses ≤ limit)
budget_limits_example = budget_limits 1000 2 (some 10) 0 small uses small_made
