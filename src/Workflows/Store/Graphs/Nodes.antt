-- ===== src/Workflows/Store/Graphs/Nodes.antt =====
-- The execution of a graph's nodes in backend/workflows/store.py: leases, results, their validation,
-- cancellation and recovery.
use Prim.Native.String.{len}
use ryuk.Prelude.{
  ℕ, ◌+◌, String, Bool, true, false, not, ◌&&◌, ◌||◌, Option, none, some, List, [], ◌∷◌, ◌++◌, map,
  filter, length, leb, ltb, eqb, if◌then◌else◌, ◌==◌,
}
use ryuk.Prelude.Text.{is_identifier}
use ryuk.Prelude.Result.{
  Result, Check, ok, err, value_error, conflict, integrity_error, raise_if, or_raise, ◌>>=◌, ◌>>◌,
}
use ryuk.Workflows.Graph.State.{
  NodeState, ready, running, awaiting_validation, succeeded, failed, rejected, cancelled, uncertain,
  GraphState, States, state_of,
}
use ryuk.Workflows.Store.Tables.{Report, find, update_where}
use ryuk.Workflows.Store.External.{External, microseconds, is_text, is_missing, lease_over}
use ryuk.Workflows.Store.Graphs.{
  GraphNodeRow, GraphBudget, GraphArtifact, GraphStore, get_graph_state, get_graph_budget,
}
use ryuk.Workflows.Store.Graphs.Budgets.{GraphTx}
use ryuk.Workflows.Store.Graphs.Transitions.{
  is_node_state, add_graph_event, select_node, update_node, transition_graph_node,
}

unfoldable pub budget_over : Option GraphBudget → ℕ → Bool
budget_over none now = true
budget_over (some b) now = leb b.deadline_at now

-- The SET clause of the claim.
abbrev pub set_claimed : String → ℕ → ℕ → GraphNodeRow → GraphNodeRow
set_claimed owner fence until r = record r {
  state = running;
  fence = fence;
  owner = some owner;
  lease_until = some until;
}

-- The UPDATE's test of the state and the fence that were read is that of the row itself, since the
-- transaction holds the lock.
unfoldable pub claim_node_row : String → String → String → String → ℕ → ℕ → GraphNodeRow → GraphTx ℕ
claim_node_row tenant graph_id node_id owner lease now row s = do
  raise_if (not (is_node_state row.state ready)) conflict
  let fence = row.fence + 1
  let taken =
      update_node tenant graph_id node_id (set_claimed owner fence (now + microseconds lease)) s
  ok (fence, add_graph_event tenant graph_id node_id running taken)

-- `claim_graph_node`
unfoldable pub claim_graph_node : String → String → String → String → ℕ → ℕ → GraphTx ℕ
claim_graph_node tenant graph_id node_id owner lease now s = do
  raise_if (not (is_identifier owner)) value_error
  raise_if (ltb lease 1 || ltb 3600 lease) value_error
  raise_if (budget_over (get_graph_budget tenant graph_id s) now) conflict
  row ← or_raise (select_node tenant graph_id node_id s) conflict
  claim_node_row tenant graph_id node_id owner lease now row s

unfoldable pub check_graph_lease : Option GraphNodeRow → String → ℕ → ℕ → Check
check_graph_lease none owner fence now = err conflict
check_graph_lease (some row) owner fence now = do
  raise_if (not (is_node_state row.state running)) conflict
  raise_if (not (is_text row.owner owner)) conflict
  raise_if (not (eqb row.fence fence)) conflict
  over ← lease_over row.lease_until now
  raise_if over conflict

-- `_require_graph_lease`
unfoldable pub require_graph_lease : String → String → String → String → ℕ → ℕ → GraphStore → Check
require_graph_lease tenant graph_id node_id owner fence now s =
    check_graph_lease (select_node tenant graph_id node_id s) owner fence now

-- The SET clauses of completion, and of what ends a lease.
abbrev pub set_result : String → GraphNodeRow → GraphNodeRow
set_result artifact_id r = record r {
  owner = none;
  lease_until = none;
  result_artifact_id = some artifact_id;
}

abbrev pub set_fenced : GraphNodeRow → GraphNodeRow
set_fenced r = record r { fence = r.fence + 1; owner = none; lease_until = none }

-- The node's result artifact; a NULL joins nothing.
unfoldable pub joined_artifact : Option GraphNodeRow → GraphStore → Option GraphArtifact
joined_artifact none s = none
joined_artifact (some row) s = elim row.result_artifact_id [
  | none ↦ none
  | some artifact_id ↦ find (λ a. a.id == artifact_id) s.artifacts
]

module _ (x : External) where
  -- `complete_graph_node`; `encoded` is the canonical text of the result, `artifact_id` what `uuid4`
  -- returns.
  unfoldable pub complete_graph_node :
      String → String → String → String → ℕ → String → Bool → ℕ → String → GraphTx GraphArtifact
  complete_graph_node tenant graph_id node_id owner fence encoded success now artifact_id s = do
    require_graph_lease tenant graph_id node_id owner fence now s
    raise_if (not (is_missing (find (λ a. a.id == artifact_id) s.artifacts))) integrity_error
    let artifact : GraphArtifact = record {
      id = artifact_id;
      graph_id = graph_id;
      node_id = node_id;
      tenant = tenant;
      schema_version = 1;
      sha256 = x.sha256 encoded;
      size_bytes = len encoded;
      content_json = encoded;
      accepted = false;
      validation = none;
    }
    let added = record s { artifacts = s.artifacts ++ artifact ∷ [] }
    let target : NodeState = if success then awaiting_validation else failed
    (_, moved) ← transition_graph_node tenant graph_id node_id target added
    ok (artifact, update_node tenant graph_id node_id (set_result artifact_id) moved)

  -- A recorded report is returned, and must be under the same policy.
  unfoldable pub decide_node :
      String
      → String
      → String
      → String
      → GraphNodeRow
      → GraphArtifact
      → Option Report
      → GraphTx Report
  decide_node tenant graph_id node_id policy row artifact (some report) s = do
    raise_if (not (report.policy == policy)) conflict
    ok (report, s)
  decide_node tenant graph_id node_id policy row artifact none s = do
    raise_if (not (is_node_state row.state awaiting_validation)) conflict
    let report : Report = record {
      policy = policy;
      artifact_id = artifact.id;
      sha256 = artifact.sha256;
      accepted = x.accepts artifact.content_json policy;
    }
    let recorded = record s {
      artifacts =
          update_where (λ a. a.id == artifact.id)
            (λ a. record a { accepted = report.accepted; validation = some report }) s.artifacts;
    }
    let target : NodeState = if report.accepted then succeeded else rejected
    (_, moved) ← transition_graph_node tenant graph_id node_id target recorded
    ok (report, moved)

  -- `validate_graph_node`; `policy` is the canonical text of the policy's snapshot.
  unfoldable pub validate_graph_node : String → String → String → String → GraphTx Report
  validate_graph_node tenant graph_id node_id policy s = do
    row ← or_raise (select_node tenant graph_id node_id s) conflict
    artifact ← or_raise (joined_artifact (some row) s) conflict
    decide_node tenant graph_id node_id policy row artifact artifact.validation s

-- `state in {READY, RUNNING, AWAITING_VALIDATION}`
unfoldable pub is_open : NodeState → Bool
is_open ready = true
is_open running = true
is_open awaiting_validation = true
is_open _ = false

unfoldable pub cancel_node : String → String → String → GraphStore → Result GraphStore
cancel_node tenant graph_id node_id s = do
  (_, moved) ← transition_graph_node tenant graph_id node_id cancelled s
  ok (update_node tenant graph_id node_id set_fenced moved)

-- A node that was open; its state is read again.
unfoldable pub cancel_open : String → String → String → GraphStore → Result GraphStore
cancel_open tenant graph_id node_id s = do
  found ← get_graph_state tenant graph_id s
  state ← or_raise found conflict
  current ← state_of state node_id
  if is_open current then cancel_node tenant graph_id node_id s else ok s

-- The loop over the states that were read first.
unfoldable pub cancel_nodes : String → String → States → GraphStore → Result GraphStore
cancel_nodes tenant graph_id [] s = ok s
cancel_nodes tenant graph_id ((k, was) ∷ rest) s = do
  s' ← if is_open was then cancel_open tenant graph_id k s else ok s
  cancel_nodes tenant graph_id rest s'

-- `cancel_graph`
unfoldable pub cancel_graph : String → String → GraphTx GraphState
cancel_graph tenant graph_id s = do
  found ← get_graph_state tenant graph_id s
  state ← or_raise found conflict
  s' ← cancel_nodes tenant graph_id state.node_states s
  last ← get_graph_state tenant graph_id s'
  final ← or_raise last conflict
  ok (final, s')

-- `state='running' AND lease_until<=?`; a NULL passes no comparison.
unfoldable pub is_expired_node : ℕ → GraphNodeRow → Bool
is_expired_node now r =
    is_node_state r.state running && elim r.lease_until [ none ↦ false | some t ↦ leb t now ]

unfoldable pub recover_nodes : List GraphNodeRow → GraphStore → Result GraphStore
recover_nodes [] s = ok s
recover_nodes (r ∷ rs) s = do
  (_, moved) ← transition_graph_node r.tenant r.graph_id r.node_id uncertain s
  recover_nodes rs (update_node r.tenant r.graph_id r.node_id set_fenced moved)

-- `recover_graph_nodes_startup`, with the names of the nodes that it recovers.
unfoldable pub recover_graph_nodes_startup : ℕ → ℕ → GraphTx (List (String × String × String))
recover_graph_nodes_startup limit now s = do
  raise_if (ltb limit 1 || ltb 100_000 limit) value_error
  let rows = filter (is_expired_node now) s.nodes
  raise_if (ltb limit (length rows)) conflict
  s' ← recover_nodes rows s
  ok (map (λ r. (r.tenant, r.graph_id, r.node_id)) rows, s')
