-- ===== src/Workflows/Graph.antt =====
-- backend/workflows/graph.py: nodes, dependencies and the checks of a workflow graph.
pub mod Acyclic
pub mod State
use ryuk.Prelude.{
  ℕ, zero, suc, String, Bool, true, false, not, ◌&&◌, ◌||◌, Option, none, some, List, [], ◌∷◌, map,
  ltb, eqb, if◌then◌else◌, length, any, all, filter, contains, is_empty, is_distinct,
}
use ryuk.Prelude.Text.{is_identifier, is_sorted}
use ryuk.Prelude.Dict.{Dict, lookup}
use ryuk.Prelude.Result.{Result, Check, ok, err, value_error, no_fuel, raise_if, ◌>>=◌, ◌>>◌}

abbrev pub max_graph_nodes : ℕ
max_graph_nodes = 100

-- `packet` is the canonical JSON text of the node's TaskPacket.
pub record GraphNode : Type 0 where
  pub node_id : String
  pub packet : String
  pub depends_on : List String

pub record WorkflowGraph : Type 0 where
  pub nodes : List GraphNode
  pub schema_version : ℕ

abbrev pub node_ids : List GraphNode → List String
node_ids = map (λ n. n.node_id)

-- `GraphNode.__post_init__`
unfoldable pub check_node : GraphNode → Check
check_node n = do
  raise_if (not (is_identifier n.node_id)) value_error
  raise_if (not (all is_identifier n.depends_on)) value_error
  raise_if (not (is_distinct n.depends_on)) value_error
  raise_if (not (is_sorted n.depends_on)) value_error

-- `dependencies` of `_require_acyclic`, whose callers have checked that no identifier is repeated.
abbrev pub dependencies : List GraphNode → Dict (List String)
dependencies = map (λ n. (n.node_id, n.depends_on))

-- `dependencies[node_id]`; the loop asks for keys of the dict alone.
unfoldable pub dependencies_of : Dict (List String) → String → List String
dependencies_of ds k = elim (lookup k ds) [ none ↦ [] | some names ↦ names ]

-- `not dependencies[node_id] & remaining`
unfoldable pub is_ready : Dict (List String) → List String → String → Bool
is_ready ds remaining k = not (any (λ d. contains d remaining) (dependencies_of ds k))

-- `remaining -= ready`
unfoldable pub subtract : List String → List String → List String
subtract remaining ready = filter (λ k. not (contains k ready)) remaining

-- The `while remaining` loop, on fuel.
unfoldable pub peel : ℕ → Dict (List String) → List String → Check
peel fuel ds [] = ok tt
peel zero ds (x ∷ xs) = err no_fuel
peel (suc fuel) ds (x ∷ xs) =
    let ready = filter (is_ready ds (x ∷ xs)) (x ∷ xs) in
    let rest = peel fuel ds (subtract (x ∷ xs) ready) in
    if is_empty ready then err value_error else rest

-- `WorkflowGraph._require_acyclic`: a round for each node is enough.
unfoldable pub require_acyclic : List GraphNode → Check
require_acyclic nodes = peel (length nodes) (dependencies nodes) (node_ids nodes)

-- The loop over the nodes: no dependency on oneself, none on a node that is not there.
unfoldable pub check_dependencies : List String → List GraphNode → Check
check_dependencies known [] = ok tt
check_dependencies known (n ∷ ns) = do
  raise_if (contains n.node_id n.depends_on) value_error
  raise_if (not (all (λ d. contains d known) n.depends_on)) value_error
  check_dependencies known ns

-- `WorkflowGraph.__post_init__`
unfoldable pub check_graph : WorkflowGraph → Check
check_graph g = do
  raise_if (not (eqb g.schema_version 1)) value_error
  raise_if (ltb (length g.nodes) 1 || ltb max_graph_nodes (length g.nodes)) value_error
  raise_if (not (is_distinct (node_ids g.nodes))) value_error
  raise_if (not (is_sorted (node_ids g.nodes))) value_error
  check_dependencies (node_ids g.nodes) g.nodes
  require_acyclic g.nodes

check_nodes : List GraphNode → Check
check_nodes [] = ok tt
check_nodes (n ∷ ns) = do check_node n; check_nodes ns

-- `WorkflowGraph.from_dict` after the JSON has been read: the constructors of the nodes, then that
-- of the graph. What is read is the canonical text that the store has written, so that the comparison
-- with the canonical text at the end is left out.
unfoldable pub build_graph : List GraphNode → ℕ → Result WorkflowGraph
unfolding check_nodes
build_graph nodes version = do
  check_nodes nodes
  let g : WorkflowGraph = record { nodes = nodes; schema_version = version }
  check_graph g
  ok g
