-- ===== src/Workflows/Store/Graphs/Examples.antt =====
-- A graph of one node in the tables of backend/workflows/store.py, and calls on its budget.
use ryuk.Workflows.Graph.{WorkflowGraph, check_graph}
use ryuk.Prelude.{contains}
use ryuk.Workflows.Store.Graphs.Transitions.{order_changes}
use ryuk.Workflows.Store.Graphs.Ordering.{order_changes-total}
use ryuk.Workflows.Graph.State.{running}
use ryuk.Prelude.{
  ℕ, String, ◌+◌, ◌*◌, ◌&&◌, ◌==◌, not, eqb, leb, if◌then◌else◌, ◌≡◌, refl, sym, none, some, List,
  [], ◌∷◌, filter, is_distinct, same_names,
}
use mathlib.Core.Path.{subst}
use ryuk.Prelude.Text.{is_identifier, is_sorted, same_codes, strip}
use ryuk.Prelude.Dict.{lookup}
use ryuk.Workflows.Budget.{over_tokens}
use ryuk.Prelude.Int.{pos}
use ryuk.Prelude.Result.{ok, err, conflict}
use ryuk.Workflows.Store.Graphs.Transitions.{
  is_node_state, add_graph_event, select_node, update_node,
}
use ryuk.Workflows.Store.Graphs.Nodes.{
  claim_graph_node, claim_node_row, budget_over, require_graph_lease,
}
use ryuk.Workflows.Store.Graphs.Leases.{claimed_lease}
use ryuk.Workflows.Graph.{
  build_graph, check_node, check_graph, check_dependencies, require_acyclic, peel, is_ready,
  dependencies_of, subtract,
}
use ryuk.Workflows.Graph.State.{
  ready, make_graph_state, check_graph_state, check_node_state, check_states, is_blocked,
  is_scheduled, is_skipped, is_succeeded, states_of,
}
use ryuk.Workflows.Store.Graphs.{
  GraphBudget, GraphStore, get_graph_budget, get_graph_state, read_graph, order_nodes, put_node,
}
use ryuk.Workflows.Store.Tables.{find, update_where}
use ryuk.Workflows.Store.Graphs.Budgets.{
  bind_graph_budget, validate_graph_budget, no_tokens, bind_row, record_graph_output_tokens,
  record_tokens, reserve_graph_attempt, update_budget,
}
use ryuk.Workflows.Store.Graphs.Calls.{
  BudgetCall, bind_at, reserve_at, record_at, budget_run, budget_step, all_attempts, all_tokens,
}
use ryuk.Workflows.Store.Graphs.Limits.{Spent, graph_budget_limits}

abbrev one_graph : GraphStore
one_graph = record {
  graphs =
      record {
        id = "g1";
        tenant = "t1";
        idempotency_key = "k1";
        request_hash = "h";
        graph = record {
          nodes = record { node_id = "a"; packet = "p"; depends_on = [] } ∷ [];
          schema_version = 1;
        };
        binding_json = none;
      }
      ∷ [];
  nodes =
      record {
        graph_id = "g1";
        node_id = "a";
        tenant = "t1";
        state = ready;
        fence = 0;
        owner = none;
        lease_until = none;
        result_artifact_id = none;
      }
      ∷ [];
  events = [];
  budgets = [];
  artifacts = [];
}

-- The second attempt is within the limit, the third is not; the last tokens are too many.
abbrev later_calls : List BudgetCall
later_calls =
    reserve_at "t1" "g1" 10
    ∷ record_at "t1" "g1" (some (pos 40))
    ∷ reserve_at "t1" "g1" 20
    ∷ reserve_at "t1" "g1" 30
    ∷ record_at "t1" "g1" (some (pos 20))
    ∷ []

abbrev budget_calls : List BudgetCall
budget_calls = bind_at "t1" "g1" 1000 2 (some 50) 0 ∷ later_calls

abbrev spent_budget : GraphBudget
spent_budget = record {
  graph_id = "g1";
  tenant = "t1";
  deadline_at = 1000;
  max_attempts = 2;
  max_output_tokens = some 50;
  attempts = 2;
  output_tokens = 40;
}

abbrev bound_graph : GraphStore
bound_graph = record one_graph {
  budgets = record spent_budget { attempts = 0; output_tokens = 0 } ∷ [];
}

binds_first : budget_step one_graph (bind_at "t1" "g1" 1000 2 (some 50) 0) ≡ bound_graph
unfolding budget_step bind_graph_budget validate_graph_budget no_tokens get_graph_state read_graph
    build_graph make_graph_state find get_graph_budget bind_row check_node is_identifier is_distinct
    is_sorted check_graph check_dependencies require_acyclic peel filter is_ready dependencies_of
    lookup subtract check_graph_state same_names order_nodes put_node same_codes strip
    check_node_state check_states is_blocked is_scheduled is_skipped is_succeeded states_of
binds_first = refl

later_budget : get_graph_budget "t1" "g1" (budget_run bound_graph later_calls) ≡ some spent_budget
unfolding budget_run get_graph_budget find budget_step record_graph_output_tokens record_tokens
    reserve_graph_attempt update_budget update_where over_tokens
later_budget = refl

budget_after : get_graph_budget "t1" "g1" (budget_run one_graph budget_calls) ≡ some spent_budget
unfolding budget_run
budget_after =
    subst (λ s. get_graph_budget "t1" "g1" (budget_run s later_calls) ≡ some spent_budget)
      (sym binds_first) later_budget

graph_budget_limits_example :
    Spent spent_budget
      (all_attempts "t1" "g1" one_graph budget_calls)
      (all_tokens "t1" "g1" one_graph budget_calls)
unfolding get_graph_budget find
graph_budget_limits_example =
    graph_budget_limits "t1" "g1" one_graph budget_calls spent_budget refl budget_after

abbrev claimed_graph : GraphStore
claimed_graph = record bound_graph {
  nodes =
      record {
        graph_id = "g1";
        node_id = "a";
        tenant = "t1";
        state = running;
        fence = 1;
        owner = some "o1";
        lease_until = some 60_000_500;
        result_artifact_id = none;
      }
      ∷ [];
  events = record { graph_id = "g1"; node_id = "a"; tenant = "t1"; state = running } ∷ [];
}

claims_node : claim_graph_node "t1" "g1" "a" "o1" 60 500 bound_graph ≡ ok (1, claimed_graph)
unfolding claim_graph_node is_identifier same_codes strip budget_over get_graph_budget find
    select_node claim_node_row is_node_state update_node update_where add_graph_event
claims_node = refl

claimed_lease_example :
    ((other : String) (fence' now' : ℕ)
      → require_graph_lease "t1" "g1" "a" other fence' now' claimed_graph ≡ (
          if "o1" == other && (eqb 1 fence' && not (leb (500 + 60 * 1_000_000) now'))
          then ok tt
          else err conflict))
    × ((other : String) (lease' now' : ℕ) (r : ℕ × GraphStore)
        → ¬ (claim_graph_node "t1" "g1" "a" other lease' now' claimed_graph ≡ ok r))
claimed_lease_example =
    claimed_lease "t1" "g1" "a" "o1" 60 500 1 bound_graph claimed_graph claims_node

abbrev one_node : WorkflowGraph
one_node = record {
  nodes = record { node_id = "a"; packet = "p"; depends_on = [] } ∷ [];
  schema_version = 1;
}

one_node_checks : check_graph one_node ≡ ok tt
unfolding check_graph is_distinct is_sorted check_dependencies require_acyclic peel filter is_ready
    dependencies_of lookup subtract
one_node_checks = refl

order_changes-total_example :
    (l : List String) × (order_changes 1 (one_node.nodes) ("a" ∷ []) ≡ ok l)
    × ((k : String) → contains k l ≡ contains k ("a" ∷ []))
order_changes-total_example = order_changes-total one_node ("a" ∷ []) one_node_checks (λ k h. h)
