-- ===== src/Workflows/Budget/Limits.antt =====
-- What backend/workflows/budget.py lets through.
use ryuk.Prelude.{
  ℕ, ◌+◌, ◌≤◌, ◌≡◌, refl, Bool, false, Option, none, some, List, [], ◌∷◌, arith, if◌then◌else◌, ◌∙◌,
}
use ryuk.Prelude.Int.{ℤ, pos, negsuc}
use ryuk.Prelude.Result.{Result, ok, err}
use ryuk.Workflows.Budget.{WorkflowBudget, make, reserve_attempt, record_output_tokens}

-- Calls that share a budget, each at a clock value.
pub data Use : Type 0 where
  reserve : ℕ → Use
  report : Option ℤ → Use

-- A rejected count raises and changes nothing.
kept : WorkflowBudget → Result (Bool × WorkflowBudget) → WorkflowBudget
kept b (ok (_, c)) = c
kept b (err e) = b

unfoldable pub spend : WorkflowBudget → Use → WorkflowBudget
unfolding kept
spend b (reserve now) = (reserve_attempt b now).1
spend b (report count) = kept b (record_output_tokens b count)

unfoldable pub spend_all : WorkflowBudget → List Use → WorkflowBudget
spend_all b [] = b
spend_all b (u ∷ us) = spend_all (spend b u) us

-- How many attempts the calls are granted.
unfoldable pub granted : WorkflowBudget → List Use → ℕ
granted b [] = 0
granted b (reserve now ∷ us) =
    let (is_granted, c) = reserve_attempt b now in
    let rest = granted c us in if is_granted then rest + 1 else rest
granted b (report count ∷ us) = granted (spend b (report count)) us

-- The count that a report gives; a missing one is of no tokens.
abbrev pub count_of : Option ℤ → ℕ
count_of (some (pos n)) = n
count_of _ = 0

-- What the caller is told of a report that does not raise.
abbrev pub is_accepted : Result (Bool × WorkflowBudget) → Bool
is_accepted (ok (answer, b)) = answer
is_accepted (err e) = false

-- How many output tokens the calls have reported that were accepted.
unfoldable pub accepted : WorkflowBudget → List Use → ℕ
accepted b [] = 0
accepted b (reserve now ∷ us) = accepted (spend b (reserve now)) us
accepted b (report count ∷ us) =
    let rest = accepted (spend b (report count)) us in
    if is_accepted (record_output_tokens b count) then rest + count_of count else rest

pub record IsSpent (first b : WorkflowBudget) : Type 0 where
  pub attempts : b.attempts ≤ first.max_attempts
  pub tokens : (limit : ℕ) → first.max_output_tokens ≡ some limit → b.output_tokens ≤ limit
  pub same_attempts : b.max_attempts ≡ first.max_attempts
  pub same_tokens : b.max_output_tokens ≡ first.max_output_tokens

report-tokens :
    (b : WorkflowBudget) (n limit : ℕ)
    → b.max_output_tokens ≡ some limit
    → b.output_tokens ≤ limit
    → (spend b (report (some (pos n)))).output_tokens ≤ limit
unfolding spend record_output_tokens
report-tokens b n limit e h = rw e (ground arith)

report-attempts :
    (b : WorkflowBudget) (count : Option ℤ)
    → ((spend b (report count)).attempts ≡ b.attempts)
      × ((spend b (report count)).max_attempts ≡ b.max_attempts)
      × ((spend b (report count)).max_output_tokens ≡ b.max_output_tokens)
unfolding spend record_output_tokens
report-attempts b none = (refl, refl, refl)
report-attempts b (some (negsuc n)) = (refl, refl, refl)
report-attempts b (some (pos n)) = ground arith

spend-IsSpent : (first b : WorkflowBudget) (u : Use) → IsSpent first b → IsSpent first (spend b u)
spend-IsSpent first b (reserve now) h = unfold spend reserve_attempt in ground (arith, h.tokens)
spend-IsSpent first b (report none) h = unfold spend record_output_tokens in h
spend-IsSpent first b (report (some (negsuc n))) h = unfold spend record_output_tokens in h
spend-IsSpent first b (report (some (pos n))) h =
    let same = report-attempts b (some (pos n)) in
    record {
      attempts = rw same.0 h.attempts;
      tokens = λ limit e. report-tokens b n limit (h.same_tokens ∙ e) (h.tokens limit e);
      same_attempts = same.1 ∙ h.same_attempts;
      same_tokens = same.2 ∙ h.same_tokens;
    }

spend_all-IsSpent :
    (first b : WorkflowBudget) (us : List Use) → IsSpent first b → IsSpent first (spend_all b us)
unfolding spend_all
spend_all-IsSpent first b [] h = h
spend_all-IsSpent first b (u ∷ us) h =
    spend_all-IsSpent first (spend b u) us (spend-IsSpent first b u h)

granted-attempts :
    (b : WorkflowBudget) (us : List Use) → granted b us + b.attempts ≡ (spend_all b us).attempts
unfolding granted spend_all spend reserve_attempt
granted-attempts b [] = omega arith
granted-attempts b (reserve now ∷ us) = ground (arith, granted-attempts (spend b (reserve now)) us)
granted-attempts b (report count ∷ us) =
    omega (arith, granted-attempts (spend b (report count)) us, (report-attempts b count).0)

accepted-tokens :
    (b : WorkflowBudget) (us : List Use)
    → accepted b us + b.output_tokens ≡ (spend_all b us).output_tokens
unfolding accepted spend_all spend reserve_attempt record_output_tokens
accepted-tokens b [] = omega arith
accepted-tokens b (reserve now ∷ us) = ground (arith, accepted-tokens (spend b (reserve now)) us)
accepted-tokens b (report none ∷ us) = ground (arith, accepted-tokens (spend b (report none)) us)
accepted-tokens b (report (some (negsuc n)) ∷ us) =
    ground (arith, accepted-tokens (spend b (report (some (negsuc n)))) us)
accepted-tokens b (report (some (pos n)) ∷ us) =
    ground (arith, accepted-tokens (spend b (report (some (pos n)))) us)

make-fields :
    (deadline max_attempts : ℕ) (max_tokens : Option ℕ) (now : ℕ) (b : WorkflowBudget)
    → make deadline max_attempts max_tokens now ≡ ok b
    → (b.max_attempts ≡ max_attempts)
      × (b.max_output_tokens ≡ max_tokens)
      × (b.attempts ≡ 0)
      × (b.output_tokens ≡ 0)
unfolding make
make-fields deadline max_attempts max_tokens now b e = ground arith

-- However the calls are ordered and timed, a budget that was made grants no more attempts than its
-- limit. Its output tokens are exactly those of the reports that it accepted, and they are no more than
-- its limit, if it has one.
pub budget_limits :
    (deadline max_attempts : ℕ) (max_tokens : Option ℕ) (now : ℕ) (b : WorkflowBudget)
    (us : List Use)
    → make deadline max_attempts max_tokens now ≡ ok b
    → (granted b us ≤ max_attempts)
      × ((spend_all b us).output_tokens ≡ accepted b us)
      × ((limit : ℕ) → max_tokens ≡ some limit → accepted b us ≤ limit)
budget_limits deadline max_attempts max_tokens now b us e =
    let (attempts, tokens, none_used, none_told) =
      make-fields deadline max_attempts max_tokens now b e in
    let spent : IsSpent b (spend_all b us) = spend_all-IsSpent b b us (record {
      attempts = omega arith;
      tokens = λ limit f. omega arith;
      same_attempts = refl;
      same_tokens = refl;
    }) in
    let told : (spend_all b us).output_tokens ≡ accepted b us =
      omega (arith, accepted-tokens b us, none_told) in
    (
      omega (arith, granted-attempts b us, spent.attempts),
      told,
      λ limit f. rw told at (spent.tokens limit (tokens ∙ f)),
    )
