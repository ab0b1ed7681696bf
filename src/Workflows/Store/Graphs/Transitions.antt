-- ===== src/Workflows/Store/Graphs/Transitions.antt =====
-- The creation of a graph and the transitions of its nodes in backend/workflows/store.py.
use ryuk.Prelude.{
  ℕ, zero, suc, ◌+◌, String, Bool, true, false, not, ◌&&◌, Option, none, some, List, [], ◌∷◌, ◌++◌,
  filter, contains, any, is_empty, length, eqb, if◌then◌else◌, ◌==◌,
}
use ryuk.Prelude.Text.{is_identifier}
use ryuk.Prelude.Dict.{lookup}
use ryuk.Prelude.Result.{
  Result, Check, ok, err, value_error, key_error, conflict, integrity_error, no_fuel, raise_if,
  or_raise, ◌>>=◌, ◌>>◌,
}
use ryuk.Workflows.Graph.{GraphNode, WorkflowGraph, build_graph}
use ryuk.Workflows.Graph.State.{
  NodeState, blocked, ready, running, awaiting_validation, succeeded, failed, rejected, cancelled,
  uncertain, skipped, GraphState, States, initial_state, transition,
}
use ryuk.Workflows.Store.Tables.{find, update_where}
use ryuk.Workflows.Store.External.{is_missing}
use ryuk.Workflows.Store.Graphs.{GraphRow, GraphNodeRow, GraphStore, GraphBudget, get_graph_state}
use ryuk.Workflows.Store.Graphs.Budgets.{GraphTx, validate_graph_budget}

-- `state is other`
unfoldable pub is_node_state : NodeState → NodeState → Bool
is_node_state blocked blocked = true
is_node_state ready ready = true
is_node_state running running = true
is_node_state awaiting_validation awaiting_validation = true
is_node_state succeeded succeeded = true
is_node_state failed failed = true
is_node_state rejected rejected = true
is_node_state cancelled cancelled = true
is_node_state uncertain uncertain = true
is_node_state skipped skipped = true
is_node_state _ _ = false

-- `_graph_event`
unfoldable pub add_graph_event : String → String → String → NodeState → GraphStore → GraphStore
add_graph_event tenant graph_id node_id state s = record s {
  events =
      s.events
      ++ record { graph_id = graph_id; node_id = node_id; tenant = tenant; state = state } ∷ [];
}

-- The INSERT of one node, and its event.
unfoldable pub insert_node : String → String → String → NodeState → GraphStore → GraphStore
insert_node tenant graph_id node_id state s =
    let row : GraphNodeRow = record {
      graph_id = graph_id;
      node_id = node_id;
      tenant = tenant;
      state = state;
      fence = 0;
      owner = none;
      lease_until = none;
      result_artifact_id = none;
    } in
    add_graph_event tenant graph_id node_id state (record s { nodes = s.nodes ++ row ∷ [] })

unfoldable pub insert_nodes : String → String → States → GraphStore → GraphStore
insert_nodes tenant graph_id [] s = s
insert_nodes tenant graph_id ((node_id, state) ∷ rest) s =
    insert_nodes tenant graph_id rest (insert_node tenant graph_id node_id state s)

-- The limits of a budget: its duration, its attempts and its tokens.
pub record GraphLimits : Type 0 where
  pub duration : ℕ
  pub max_attempts : ℕ
  pub max_output_tokens : Option ℕ

unfoldable pub check_limits : Option GraphLimits → Check
check_limits none = ok tt
check_limits (some b) = validate_graph_budget b.duration b.max_attempts b.max_output_tokens

unfoldable pub insert_budget : String → String → Option GraphLimits → ℕ → GraphStore → GraphStore
insert_budget tenant graph_id none now s = s
insert_budget tenant graph_id (some b) now s =
    let row : GraphBudget = record {
      graph_id = graph_id;
      tenant = tenant;
      deadline_at = now + b.duration;
      max_attempts = b.max_attempts;
      max_output_tokens = b.max_output_tokens;
      attempts = 0;
      output_tokens = 0;
    } in
    record s { budgets = s.budgets ++ row ∷ [] }

-- `digest` is the hash of the canonical text of the request.
unfoldable pub create_graph_row :
    String
    → String
    → WorkflowGraph
    → GraphState
    → Option GraphLimits
    → Option String
    → String
    → String
    → ℕ
    → Option GraphRow
    → GraphTx String
create_graph_row tenant key graph initial budget binding digest id now (some row) s = do
  raise_if (not (row.request_hash == digest)) conflict
  ok (row.id, s)
create_graph_row tenant key graph initial budget binding digest id now none s = do
  -- the primary key
  raise_if (not (is_missing (find (λ r. r.id == id) s.graphs))) integrity_error
  let row : GraphRow = record {
    id = id;
    tenant = tenant;
    idempotency_key = key;
    request_hash = digest;
    graph = graph;
    binding_json = binding;
  }
  let added =
      insert_nodes tenant id initial.node_states (record s { graphs = s.graphs ++ row ∷ [] })
  ok (id, insert_budget tenant id budget now added)

-- `create_graph`; `digest_of` is the hash of the canonical text of its arguments, `id` what `uuid4`
-- returns.
unfoldable pub create_graph :
    (WorkflowGraph → Option GraphLimits → Option String → String)
    → String
    → String
    → WorkflowGraph
    → Option GraphLimits
    → Option String
    → String
    → ℕ
    → GraphTx String
create_graph digest_of tenant key graph budget binding id now s = do
  raise_if (not (is_identifier tenant)) value_error
  raise_if (not (is_identifier key)) value_error
  validated ← build_graph graph.nodes graph.schema_version
  check_limits budget
  initial ← initial_state validated
  create_graph_row tenant key validated initial budget binding (digest_of validated budget binding)
      id now (find (λ r. r.tenant == tenant && r.idempotency_key == key) s.graphs) s

-- `WHERE tenant=? AND graph_id=? AND node_id=?`
abbrev pub is_node : String → String → String → GraphNodeRow → Bool
is_node tenant graph_id node_id r =
    r.tenant == tenant && (r.graph_id == graph_id && r.node_id == node_id)

unfoldable pub select_node : String → String → String → GraphStore → Option GraphNodeRow
select_node tenant graph_id node_id s = find (is_node tenant graph_id node_id) s.nodes

unfoldable pub update_node :
    String → String → String → (GraphNodeRow → GraphNodeRow) → GraphStore → GraphStore
update_node tenant graph_id node_id f s = record s {
  nodes = update_where (is_node tenant graph_id node_id) f s.nodes;
}

-- `before[node] is not after[node]`
unfoldable pub is_changed : Option NodeState → NodeState → Bool
is_changed none state = true
is_changed (some was) state = not (is_node_state was state)

-- The names whose state a transition changed.
unfoldable pub changed_names : States → States → List String
changed_names before [] = []
changed_names before ((k, state) ∷ rest) =
    let others = changed_names before rest in
    if is_changed (lookup k before) state then k ∷ others else others

-- The pending nodes that wait for no pending node, in the graph's order.
unfoldable pub eligible_names : List GraphNode → List String → List String
eligible_names [] pending = []
eligible_names (n ∷ ns) pending =
    let others = eligible_names ns pending in
    if contains n.node_id pending && not (any (λ d. contains d pending) n.depends_on)
    then n.node_id ∷ others
    else others

-- The `while pending` loop, on fuel.
unfoldable pub order_changes : ℕ → List GraphNode → List String → Result (List String)
order_changes fuel nodes [] = ok []
order_changes zero nodes (p ∷ ps) = err no_fuel
order_changes (suc fuel) nodes (p ∷ ps) = do
  let eligible = eligible_names nodes (p ∷ ps)
  raise_if (is_empty eligible) value_error
  rest ← order_changes fuel nodes (filter (λ k. not (contains k eligible)) (p ∷ ps))
  ok (eligible ++ rest)

-- The node that was moved comes first.
unfoldable pub order_pending : List GraphNode → String → List String → Result (List String)
order_pending nodes node_id pending = do
  let others = filter (λ k. not (k == node_id)) pending
  rest ← order_changes (length others) nodes others
  ok (if contains node_id pending then node_id ∷ rest else rest)

-- The UPDATE of one changed node under the state that was read, and its event.
unfoldable pub apply_change :
    String → String → String → NodeState → NodeState → GraphStore → Result GraphStore
apply_change tenant graph_id node_id was state s = do
  let hit = λ (r : GraphNodeRow). is_node tenant graph_id node_id r && is_node_state r.state was
  raise_if (not (eqb (length (filter hit s.nodes)) 1)) conflict
  ok (
      add_graph_event tenant graph_id node_id state
        (record s { nodes = update_where hit (λ r. record r { state = state }) s.nodes }))

unfoldable pub apply_changes :
    String → String → States → States → List String → GraphStore → Result GraphStore
apply_changes tenant graph_id before after [] s = ok s
apply_changes tenant graph_id before after (k ∷ ks) s = do
  state ← or_raise (lookup k after) key_error
  was ← or_raise (lookup k before) key_error
  s' ← apply_change tenant graph_id k was state s
  apply_changes tenant graph_id before after ks s'

-- `except ValueError`
abbrev pub as_conflict {ℓ} : {A : Type ℓ} → Result A → Result A
as_conflict (err value_error) = err conflict
as_conflict r = r

-- `transition_graph_node` and `_transition_graph_node`
unfoldable pub transition_graph_node : String → String → String → NodeState → GraphTx GraphState
transition_graph_node tenant graph_id node_id target s = do
  found ← get_graph_state tenant graph_id s
  current ← or_raise found conflict
  updated ← as_conflict (transition current node_id target)
  let pending = changed_names current.node_states updated.node_states
  ordered ← order_pending updated.graph.nodes node_id pending
  s' ← apply_changes tenant graph_id current.node_states updated.node_states ordered s
  ok (updated, s')
