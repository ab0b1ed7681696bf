-- ===== src/Workflows/Store/Graphs.antt =====
-- The tables of backend/workflows/store.py for workflow graphs, and the state of a graph that they
-- hold. A timestamp or a duration is a number of microseconds.
pub mod Budgets
pub mod Transitions
pub mod Nodes
pub mod Leases
pub mod Ordering
pub mod Calls
pub mod Limits
mod Examples
use Prim.Native.String.{compare}
use text.Mathlib.Text.{is_le}
use ryuk.Prelude.{
  ℕ, String, Bool, true, false, ◌&&◌, Option, none, some, List, [], ◌∷◌, map, filter, if◌then◌else◌,
  ◌==◌,
}
use ryuk.Prelude.Result.{Result, ok, err, ◌>>=◌}
use ryuk.Workflows.Graph.{WorkflowGraph, build_graph}
use ryuk.Workflows.Graph.State.{NodeState, GraphState, States, make_graph_state}
use ryuk.Workflows.Store.Tables.{Report, find}

-- A row of `workflow_graphs`; the graph is what its JSON text says.
pub record GraphRow : Type 0 where
  pub id : String
  pub tenant : String
  pub idempotency_key : String
  pub request_hash : String
  pub graph : WorkflowGraph
  pub binding_json : Option String

-- A row of `workflow_graph_nodes`.
pub record GraphNodeRow : Type 0 where
  pub graph_id : String
  pub node_id : String
  pub tenant : String
  pub state : NodeState
  pub fence : ℕ
  pub owner : Option String
  pub lease_until : Option ℕ
  pub result_artifact_id : Option String

-- A row of `workflow_graph_events`.
pub record GraphEvent : Type 0 where
  pub graph_id : String
  pub node_id : String
  pub tenant : String
  pub state : NodeState

-- A row of `workflow_graph_artifacts`; `validation` is NULL or the report that is recorded.
pub record GraphArtifact : Type 0 where
  pub id : String
  pub graph_id : String
  pub node_id : String
  pub tenant : String
  pub schema_version : ℕ
  pub sha256 : String
  pub size_bytes : ℕ
  pub content_json : String
  pub accepted : Bool
  pub validation : Option Report

-- A row of `workflow_graph_budgets`.
pub record GraphBudget : Type 0 where
  pub graph_id : String
  pub tenant : String
  pub deadline_at : ℕ
  pub max_attempts : ℕ
  pub max_output_tokens : Option ℕ
  pub attempts : ℕ
  pub output_tokens : ℕ

pub record GraphStore : Type 0 where
  pub graphs : List GraphRow
  pub nodes : List GraphNodeRow
  pub events : List GraphEvent
  pub budgets : List GraphBudget
  pub artifacts : List GraphArtifact

-- `ORDER BY node_id`: SQLite compares the bytes of UTF-8, whose order is that of the code points.
unfoldable pub put_node : GraphNodeRow → List GraphNodeRow → List GraphNodeRow
put_node r [] = r ∷ []
put_node r (q ∷ qs) =
    let rest = put_node r qs in if is_le (compare r.node_id q.node_id) then r ∷ q ∷ qs else q ∷ rest

unfoldable pub order_nodes : List GraphNodeRow → List GraphNodeRow
order_nodes [] = []
order_nodes (r ∷ rs) = put_node r (order_nodes rs)

-- `WHERE tenant=? AND graph_id=? ORDER BY node_id`
abbrev pub select_nodes : String → String → GraphStore → States
select_nodes tenant graph_id s =
    map (λ r. (r.node_id, r.state))
      (order_nodes (filter (λ r. r.tenant == tenant && r.graph_id == graph_id) s.nodes))

-- The row's graph and nodes, checked again by the constructors.
unfoldable pub read_graph :
    String → String → Option GraphRow → GraphStore → Result (Option GraphState)
read_graph tenant graph_id none s = ok none
read_graph tenant graph_id (some row) s = do
  graph ← build_graph row.graph.nodes row.graph.schema_version
  state ← make_graph_state graph (select_nodes tenant graph_id s)
  ok (some state)

-- `_get_graph_state`
unfoldable pub get_graph_state : String → String → GraphStore → Result (Option GraphState)
get_graph_state tenant graph_id s =
    read_graph tenant graph_id (find (λ r. r.tenant == tenant && r.id == graph_id) s.graphs) s

-- `WHERE tenant=? AND graph_id=?`
abbrev pub is_budget : String → String → GraphBudget → Bool
is_budget tenant graph_id b = b.tenant == tenant && b.graph_id == graph_id

-- `get_graph_budget`
unfoldable pub get_graph_budget : String → String → GraphStore → Option GraphBudget
get_graph_budget tenant graph_id s = find (is_budget tenant graph_id) s.budgets
