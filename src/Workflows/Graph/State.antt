-- ===== src/Workflows/Graph/State.antt =====
-- backend/workflows/graph.py: the states of a graph's nodes and their transitions.
pub mod Coherent
pub mod Update
pub mod Refresh
pub mod Select
pub mod Transition
pub mod Lifecycle
pub mod Progress
pub mod Initial
mod Examples
use ryuk.Prelude.{
  ℕ, zero, suc, String, Bool, true, false, not, ◌&&◌, ◌||◌, Option, none, some, List, [], ◌∷◌, map,
  if◌then◌else◌, length, any, all, is_empty, same_names,
}
use ryuk.Prelude.Dict.{Dict, lookup, insert, keys}
use ryuk.Prelude.Result.{
  Result, Check, ok, err, value_error, key_error, no_fuel, raise_if, or_raise, ◌>>=◌, ◌>>◌,
}
use ryuk.Workflows.Graph.{GraphNode, WorkflowGraph, node_ids}

pub data NodeState : Type 0 where
  blocked ready running awaiting_validation succeeded failed rejected cancelled uncertain skipped :
      NodeState

-- `state in TERMINAL_NODE_STATES`
unfoldable pub is_terminal : NodeState → Bool
is_terminal succeeded = true
is_terminal failed = true
is_terminal rejected = true
is_terminal cancelled = true
is_terminal skipped = true
is_terminal _ = false

unfoldable pub is_succeeded : NodeState → Bool
is_succeeded succeeded = true
is_succeeded _ = false

-- `state in UNSUCCESSFUL_NODE_STATES`
unfoldable pub is_unsuccessful : NodeState → Bool
unfolding is_terminal is_succeeded
is_unsuccessful s = is_terminal s && not (is_succeeded s)

unfoldable pub is_blocked : NodeState → Bool
is_blocked blocked = true
is_blocked _ = false

unfoldable pub is_skipped : NodeState → Bool
is_skipped skipped = true
is_skipped _ = false

-- The states that `GraphState.__post_init__` lists as scheduled.
unfoldable pub is_scheduled : NodeState → Bool
is_scheduled blocked = false
is_scheduled skipped = false
is_scheduled _ = true

-- `target in _ALLOWED_TRANSITIONS.get(current, frozenset())`
unfoldable pub is_allowed : NodeState → NodeState → Bool
is_allowed ready running = true
is_allowed ready cancelled = true
is_allowed running awaiting_validation = true
is_allowed running failed = true
is_allowed running cancelled = true
is_allowed running uncertain = true
is_allowed awaiting_validation succeeded = true
is_allowed awaiting_validation rejected = true
is_allowed awaiting_validation cancelled = true
is_allowed uncertain awaiting_validation = true
is_allowed uncertain failed = true
is_allowed uncertain cancelled = true
is_allowed _ _ = false

-- `node_states` has distinct keys once it is checked, so it stands for `dict(self.node_states)` too.
pub record GraphState : Type 0 where
  pub graph : WorkflowGraph
  pub node_states : Dict NodeState

abbrev pub States : Type 0
States = Dict NodeState

-- `tuple(states[value] for value in names)`
unfoldable pub states_of : States → List String → Result (List NodeState)
states_of st [] = ok []
states_of st (k ∷ ks) = do
  s ← or_raise (lookup k st) key_error
  rest ← states_of st ks
  ok (s ∷ rest)

-- The three checks on a node's state and the states of its dependencies.
unfoldable pub check_node_state : NodeState → List NodeState → Check
check_node_state s deps = do
  raise_if (is_blocked s && (is_empty deps || all is_succeeded deps || any is_unsuccessful deps))
      value_error
  raise_if (is_scheduled s && any (λ d. not (is_succeeded d)) deps) value_error
  raise_if (is_skipped s && not (any is_unsuccessful deps)) value_error

unfoldable pub check_states : States → List GraphNode → Check
check_states st [] = ok tt
check_states st (n ∷ ns) = do
  s ← or_raise (lookup n.node_id st) key_error
  deps ← states_of st n.depends_on
  check_node_state s deps
  check_states st ns

-- `GraphState.__post_init__`
unfoldable pub check_graph_state : GraphState → Check
check_graph_state g = do
  raise_if (not (same_names (keys g.node_states) (node_ids g.graph.nodes))) value_error
  check_states g.node_states g.graph.nodes

unfoldable pub make_graph_state : WorkflowGraph → States → Result GraphState
make_graph_state g st = do
  let s : GraphState = record { graph = g; node_states = st }
  check_graph_state s
  ok s

abbrev pub initial_node : GraphNode → String × NodeState
initial_node n = (n.node_id, if is_empty n.depends_on then ready else blocked)

-- `WorkflowGraph.initial_state`
unfoldable pub initial_state : WorkflowGraph → Result GraphState
initial_state g = make_graph_state g (map initial_node g.nodes)

unfoldable pub state_of : GraphState → String → Result NodeState
state_of g k = or_raise (lookup k g.node_states) value_error

unfoldable pub ready_names : States → List String
ready_names [] = []
ready_names ((k, ready) ∷ st) = k ∷ ready_names st
ready_names ((k, s) ∷ st) = ready_names st

unfoldable pub ready_nodes : GraphState → List String
ready_nodes g = ready_names g.node_states

-- `GraphState.terminal`
unfoldable pub is_finished : GraphState → Bool
is_finished g = all (λ e. is_terminal e.1) g.node_states

-- One node of the `for` loop in `_refresh_waiting_nodes`: whether it changed, and the states after.
unfoldable pub settle_blocked : States → GraphNode → List NodeState → Bool × States
settle_blocked st n deps =
    if any is_unsuccessful deps
    then (true, insert n.node_id skipped st)
    else if all is_succeeded deps
    then (true, insert n.node_id ready st)
    else (false, st)

unfoldable pub settle_in : States → GraphNode → NodeState → Result (Bool × States)
settle_in st n blocked = do deps ← states_of st n.depends_on; ok (settle_blocked st n deps)
settle_in st n _ = ok (false, st)

unfoldable pub settle : States → GraphNode → Result (Bool × States)
settle st n = do s ← or_raise (lookup n.node_id st) key_error; settle_in st n s

unfoldable pub refresh_pass : List GraphNode → Bool → States → Result (Bool × States)
refresh_pass [] changed st = ok (changed, st)
refresh_pass (n ∷ ns) changed st = do (c, st') ← settle st n; refresh_pass ns (changed || c) st'

-- `_refresh_waiting_nodes`: the `while changed` loop, on fuel.
unfoldable pub refresh : ℕ → List GraphNode → States → Result States
refresh zero nodes st = err no_fuel
refresh (suc fuel) nodes st = do
  (changed, st') ← refresh_pass nodes false st
  let rest = refresh fuel nodes st'
  if changed then rest else ok st'

-- `tuple((node.node_id, states[node.node_id]) for node in self.graph.nodes)`
unfoldable pub select_states : States → List GraphNode → Result States
select_states st [] = ok []
select_states st (n ∷ ns) = do
  s ← or_raise (lookup n.node_id st) key_error
  rest ← select_states st ns
  ok ((n.node_id, s) ∷ rest)

unfoldable pub refresh_after : NodeState → List GraphNode → States → Result States
refresh_after target nodes st =
    if is_terminal target then refresh (suc (length nodes)) nodes st else ok st

-- `GraphState.transition`
unfoldable pub transition : GraphState → String → NodeState → Result GraphState
transition g k target = do
  current ← state_of g k
  raise_if (not (is_allowed current target)) value_error
  st ← refresh_after target g.graph.nodes (insert k target g.node_states)
  chosen ← select_states st g.graph.nodes
  make_graph_state g.graph chosen
