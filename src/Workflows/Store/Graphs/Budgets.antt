-- ===== src/Workflows/Store/Graphs/Budgets.antt =====
-- The durable budgets of graphs in backend/workflows/store.py, and the adapter of
-- backend/workflows/graph_budget.py.
use ryuk.Prelude.{
  ℕ, ◌+◌, ◌-◌, String, Bool, true, false, not, ◌&&◌, ◌||◌, Option, none, some, [], ◌∷◌, ◌++◌, leb,
  ltb, eqb, if◌then◌else◌, ◌==◌,
}
use ryuk.Prelude.Int.{ℤ, pos, negsuc}
use ryuk.Prelude.Result.{
  Result, Check, ok, err, value_error, conflict, integrity_error, raise_if, or_raise, ◌>>=◌, ◌>>◌,
}
use ryuk.Workflows.Budget.{over_tokens}
use ryuk.Workflows.Store.Tables.{find, update_where}
use ryuk.Workflows.Store.External.{is_missing}
use ryuk.Workflows.Store.Graphs.{
  GraphBudget, GraphStore, get_graph_state, get_graph_budget, is_budget,
}

abbrev pub GraphTx : Type 0 → Type 0
GraphTx A = GraphStore → Result (A × GraphStore)

unfoldable pub no_tokens : Option ℕ → Bool
no_tokens none = false
no_tokens (some n) = ltb n 1

-- `_validate_graph_budget`
unfoldable pub validate_graph_budget : ℕ → ℕ → Option ℕ → Check
validate_graph_budget deadline max_attempts max_tokens =
    raise_if (leb deadline 0 || ltb max_attempts 1 || no_tokens max_tokens) value_error

abbrev pub same_limit : Option ℕ → Option ℕ → Bool
same_limit none none = true
same_limit (some m) (some n) = eqb m n
same_limit _ _ = false

unfoldable pub bind_row :
    String → String → ℕ → ℕ → Option ℕ → Option GraphBudget → GraphTx GraphBudget
bind_row tenant graph_id deadline max_attempts max_tokens (some b) s = do
  raise_if (not (eqb b.max_attempts max_attempts && same_limit b.max_output_tokens max_tokens))
      conflict
  ok (b, s)
bind_row tenant graph_id deadline max_attempts max_tokens none s = do
  -- the primary key
  raise_if (not (is_missing (find (λ b. b.graph_id == graph_id) s.budgets))) integrity_error
  let row : GraphBudget = record {
    graph_id = graph_id;
    tenant = tenant;
    deadline_at = deadline;
    max_attempts = max_attempts;
    max_output_tokens = max_tokens;
    attempts = 0;
    output_tokens = 0;
  }
  ok (row, record s { budgets = s.budgets ++ row ∷ [] })

-- `bind_graph_budget`; `duration` is `deadline_seconds`.
unfoldable pub bind_graph_budget : String → String → ℕ → ℕ → Option ℕ → ℕ → GraphTx GraphBudget
bind_graph_budget tenant graph_id duration max_attempts max_tokens now s = do
  validate_graph_budget duration max_attempts max_tokens
  found ← get_graph_state tenant graph_id s
  state ← or_raise found conflict
  bind_row tenant graph_id (now + duration) max_attempts max_tokens
      (get_graph_budget tenant graph_id s) s

abbrev pub one_attempt : GraphBudget → GraphBudget
one_attempt b = record b { attempts = b.attempts + 1 }

abbrev pub more_tokens : ℕ → GraphBudget → GraphBudget
more_tokens count b = record b { output_tokens = b.output_tokens + count }

unfoldable pub update_budget :
    String → String → (GraphBudget → GraphBudget) → GraphStore → GraphStore
update_budget tenant graph_id f s = record s {
  budgets = update_where (is_budget tenant graph_id) f s.budgets;
}

-- `reserve_graph_attempt`
unfoldable pub reserve_graph_attempt : String → String → ℕ → GraphTx Bool
reserve_graph_attempt tenant graph_id now s = do
  b ← or_raise (get_graph_budget tenant graph_id s) conflict
  if leb b.deadline_at now || leb b.max_attempts b.attempts
      then ok (false, s)
      else ok (true, update_budget tenant graph_id one_attempt s)

unfoldable pub record_tokens : String → String → ℕ → GraphTx Bool
record_tokens tenant graph_id count s = do
  b ← or_raise (get_graph_budget tenant graph_id s) conflict
  if over_tokens b.max_output_tokens (b.output_tokens + count)
      then ok (false, s)
      else ok (true, update_budget tenant graph_id (more_tokens count) s)

-- `record_graph_output_tokens`
unfoldable pub record_graph_output_tokens : String → String → Option ℤ → GraphTx Bool
record_graph_output_tokens tenant graph_id none s = ok (true, s)
record_graph_output_tokens tenant graph_id (some (negsuc n)) s = err value_error
record_graph_output_tokens tenant graph_id (some (pos count)) s =
    record_tokens tenant graph_id count s

-- `DurableGraphBudget(...)`
unfoldable pub open_budget : String → String → GraphStore → Check
open_budget tenant graph_id s = raise_if (is_missing (get_graph_budget tenant graph_id s)) conflict

-- `DurableGraphBudget.remaining_seconds`
unfoldable pub remaining_us : String → String → ℕ → GraphStore → Result ℕ
remaining_us tenant graph_id now s = do
  b ← or_raise (get_graph_budget tenant graph_id s) conflict
  ok (b.deadline_at - now)
