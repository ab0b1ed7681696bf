-- ===== src/Workflows/Store/Graphs/Calls.antt =====
-- Calls on the durable budgets of backend/workflows/store.py, and what each returns.
use ryuk.Prelude.{
  ℕ, ◌+◌, ◌≤◌, String, ◌≡◌, refl, Bool, true, false, ◌&&◌, ◌||◌, Option, none, some, List, [], ◌∷◌,
  inl, inr, ◌⊎◌, leb, if◌then◌else◌, ◌==◌, arith, Bool-cases, Option-cases,
}
use ryuk.Prelude.Int.{ℤ, pos}
use ryuk.Prelude.Result.{Result, ok, err, conflict, or_raise, bind-ok}
use ryuk.Workflows.Budget.{over_tokens}
use ryuk.Workflows.Store.Graphs.{GraphBudget, GraphStore, get_graph_state, get_graph_budget}
use ryuk.Workflows.Store.Graphs.Budgets.{
  validate_graph_budget, bind_row, bind_graph_budget, one_attempt, more_tokens, update_budget,
  reserve_graph_attempt, record_tokens, record_graph_output_tokens,
}

-- A call on the budgets; where it raises, the store stays.
pub data BudgetCall : Type 0 where
  bind_at : String → String → ℕ → ℕ → Option ℕ → ℕ → BudgetCall
  reserve_at : String → String → ℕ → BudgetCall
  record_at : String → String → Option ℤ → BudgetCall

abbrev pub store_after : {A : Type 0} → Result (A × GraphStore) → GraphStore → GraphStore
store_after (ok (a, s')) s = s'
store_after (err e) s = s

abbrev pub is_granted : Result (Bool × GraphStore) → Bool
is_granted (ok (b, s)) = b
is_granted (err e) = false

unfoldable pub budget_step : GraphStore → BudgetCall → GraphStore
budget_step s (bind_at u h duration attempts tokens now) =
    store_after (bind_graph_budget u h duration attempts tokens now s) s
budget_step s (reserve_at u h now) = store_after (reserve_graph_attempt u h now s) s
budget_step s (record_at u h count) = store_after (record_graph_output_tokens u h count s) s

unfoldable pub budget_run : GraphStore → List BudgetCall → GraphStore
budget_run s [] = s
budget_run s (call ∷ calls) = budget_run (budget_step s call) calls

abbrev pub amount : Option ℤ → ℕ
amount (some (pos n)) = n
amount _ = 0

-- The attempts that a call grants to the graph, and the tokens that it records for it.
unfoldable pub attempts_of : String → String → GraphStore → BudgetCall → ℕ
attempts_of t g s (reserve_at u h now) =
    if (u == t && h == g) && is_granted (reserve_graph_attempt u h now s) then 1 else 0
attempts_of t g s _ = 0

unfoldable pub tokens_of : String → String → GraphStore → BudgetCall → ℕ
tokens_of t g s (record_at u h count) =
    if (u == t && h == g) && is_granted (record_graph_output_tokens u h count s)
    then amount count
    else 0
tokens_of t g s _ = 0

unfoldable pub all_attempts : String → String → GraphStore → List BudgetCall → ℕ
all_attempts t g s [] = 0
all_attempts t g s (call ∷ calls) =
    attempts_of t g s call + all_attempts t g (budget_step s call) calls

unfoldable pub all_tokens : String → String → GraphStore → List BudgetCall → ℕ
all_tokens t g s [] = 0
all_tokens t g s (call ∷ calls) = tokens_of t g s call + all_tokens t g (budget_step s call) calls

pub bind-row :
    (u h : String) (duration attempts : ℕ) (tokens : Option ℕ) (now : ℕ) (s : GraphStore)
    (r : GraphBudget × GraphStore)
    → bind_graph_budget u h duration attempts tokens now s ≡ ok r
    → bind_row u h (now + duration) attempts tokens (get_graph_budget u h s) s ≡ ok r
unfolding bind_graph_budget
bind-row u h duration attempts tokens now s r e =
    let (_, _, e1) = bind-ok (validate_graph_budget duration attempts tokens) _ e in
    let (found, _, e2) = bind-ok (get_graph_state u h s) _ e1 in
    let (_, _, e3) = bind-ok (or_raise found conflict) _ e2 in e3

-- A reservation raises or is refused and changes nothing, or is granted and counted.
pub reserve-cases :
    (u h : String) (now : ℕ) (s : GraphStore)
    → ((is_granted (reserve_graph_attempt u h now s) ≡ false)
        × (store_after (reserve_graph_attempt u h now s) s ≡ s))
      ⊎ ((b : GraphBudget) × (get_graph_budget u h s ≡ some b)
          × (b.attempts + 1 ≤ b.max_attempts)
          × (reserve_graph_attempt u h now s ≡ ok (true, update_budget u h one_attempt s)))
unfolding reserve_graph_attempt
reserve-cases u h now s = elim (Option-cases (get_graph_budget u h s)) [
  | inl missing ↦ inl (rw missing refl, rw missing refl)
  | inr (b, e) ↦ elim (Bool-cases (leb b.deadline_at now || leb b.max_attempts b.attempts)) [
    | inl spent ↦ inl (rw (e, spent) refl, rw (e, spent) refl)
    | inr spare ↦ inr (b, e, ground arith, rw (e, spare) refl)
  ]
]

-- A recording likewise.
pub record-cases :
    (u h : String) (count : ℕ) (s : GraphStore)
    → ((is_granted (record_tokens u h count s) ≡ false)
        × (store_after (record_tokens u h count s) s ≡ s))
      ⊎ ((b : GraphBudget) × (get_graph_budget u h s ≡ some b)
          × (over_tokens b.max_output_tokens (b.output_tokens + count) ≡ false)
          × (record_tokens u h count s ≡ ok (true, update_budget u h (more_tokens count) s)))
unfolding record_tokens
record-cases u h count s = elim (Option-cases (get_graph_budget u h s)) [
  | inl missing ↦ inl (rw missing refl, rw missing refl)
  | inr (b, e) ↦ elim (Bool-cases (over_tokens b.max_output_tokens (b.output_tokens + count))) [
    | inl spent ↦ inl (rw (e, spent) refl, rw (e, spent) refl)
    | inr spare ↦ inr (b, e, spare, rw (e, spare) refl)
  ]
]

pub tokens_within :
    (limit : Option ℕ) (total : ℕ)
    → over_tokens limit total ≡ false
    → (n : ℕ) → limit ≡ some n
    → total ≤ n
unfolding over_tokens
tokens_within none total h n e = absurd (cc)
tokens_within (some l) total h n e = ground arith
