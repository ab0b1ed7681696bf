-- ===== src/Workflows/Graph/State/Examples.antt =====
-- backend/workflows/graph.py on a graph of four nodes: `d` needs `b` and `c`, and those need `a`.
use ryuk.Prelude.{
  ℕ, String, ◌≡◌, refl, ◌≤◌, true, false, List, [], ◌∷◌, ◌⊎◌, ◌↔◌, is_empty, if◌then◌else◌, Has,
  is_distinct, filter, same_names, ◌==◌,
}
use ryuk.Prelude.Text.{is_identifier, is_sorted}
use ryuk.Prelude.Dict.{lookup, insert}
use ryuk.Prelude.Result.{ok, err, value_error}
use ryuk.Workflows.Graph.{
  GraphNode, WorkflowGraph, check_graph, build_graph, require_acyclic, dependencies, node_ids,
  check_node, check_dependencies, peel, is_ready, dependencies_of, subtract,
}
use ryuk.Workflows.Graph.Acyclic.{
  IsRanked, Chain, require_acyclic-iff-IsRanked, require_acyclic-ends, no_cycle,
}
use ryuk.Workflows.Graph.State.{
  NodeState, blocked, ready, running, awaiting_validation, succeeded, rejected, cancelled, skipped,
  is_allowed, is_terminal, is_finished, GraphState, check_graph_state, initial_state, state_of,
  transition, ready_nodes, ready_names, refresh_after, refresh, refresh_pass, settle, settle_in,
  settle_blocked, is_unsuccessful, is_succeeded, states_of, select_states, make_graph_state,
  check_states, check_node_state, is_blocked, is_scheduled, is_skipped,
}
use ryuk.Workflows.Graph.State.Lifecycle.{
  start, step, transition_valid, transition_others, runs_bounded, runs_terminal,
}
use ryuk.Workflows.Graph.State.Progress.{is_active, unfinished_has_active}
use ryuk.Workflows.Graph.State.Initial.{initial_state_valid}

abbrev node : String → List String → GraphNode
node k deps = record { node_id = k; packet = "{}"; depends_on = deps }

abbrev diamond_nodes : List GraphNode
diamond_nodes =
    node "a" [] ∷ node "b" ("a" ∷ []) ∷ node "c" ("a" ∷ []) ∷ node "d" ("b" ∷ "c" ∷ []) ∷ []

abbrev diamond : WorkflowGraph
diamond = record { nodes = diamond_nodes; schema_version = 1 }

diamond_checked : check_graph diamond ≡ ok tt
unfolding check_graph is_distinct is_sorted check_dependencies require_acyclic peel filter is_ready
    dependencies_of lookup subtract
diamond_checked = refl

diamond_built : build_graph diamond_nodes 1 ≡ ok diamond
unfolding check_graph is_distinct is_sorted check_dependencies require_acyclic peel filter is_ready
    dependencies_of lookup subtract build_graph check_node is_identifier
diamond_built = refl

-- A cycle is refused.
cycle_refused : require_acyclic (node "a" ("b" ∷ []) ∷ node "b" ("a" ∷ []) ∷ []) ≡ err value_error
unfolding require_acyclic peel filter is_ready dependencies_of lookup subtract
cycle_refused = refl

abbrev with_states : NodeState → NodeState → NodeState → NodeState → GraphState
with_states a b c d = record {
  graph = diamond;
  node_states = ("a", a) ∷ ("b", b) ∷ ("c", c) ∷ ("d", d) ∷ [];
}

abbrev first : GraphState
first = with_states ready blocked blocked blocked

initial_is_first : initial_state diamond ≡ ok first
unfolding transition state_of is_allowed refresh_after is_terminal refresh refresh_pass settle
    settle_in settle_blocked is_unsuccessful is_succeeded states_of select_states make_graph_state
    check_graph_state same_names check_states check_node_state is_blocked is_scheduled is_skipped
    lookup insert initial_state
initial_is_first = refl

first_checked : check_graph_state first ≡ ok tt
unfolding transition state_of is_allowed refresh_after is_terminal refresh refresh_pass settle
    settle_in settle_blocked is_unsuccessful is_succeeded states_of select_states make_graph_state
    check_graph_state same_names check_states check_node_state is_blocked is_scheduled is_skipped
    lookup insert
first_checked = refl

abbrev judged : GraphState
judged = with_states awaiting_validation blocked blocked blocked

judged_checked : check_graph_state judged ≡ ok tt
unfolding transition state_of is_allowed refresh_after is_terminal refresh refresh_pass settle
    settle_in settle_blocked is_unsuccessful is_succeeded states_of select_states make_graph_state
    check_graph_state same_names check_states check_node_state is_blocked is_scheduled is_skipped
    lookup insert
judged_checked = refl

-- A rejected result skips all that depends on it, also through others.
rejected_skips : transition judged "a" rejected ≡ ok (with_states rejected skipped skipped skipped)
unfolding transition state_of is_allowed refresh_after is_terminal refresh refresh_pass settle
    settle_in settle_blocked is_unsuccessful is_succeeded states_of select_states make_graph_state
    check_graph_state same_names check_states check_node_state is_blocked is_scheduled is_skipped
    lookup insert
rejected_skips = refl

-- An accepted result releases what waits for it alone.
accepted_releases : transition judged "a" succeeded ≡ ok (with_states succeeded ready ready blocked)
unfolding transition state_of is_allowed refresh_after is_terminal refresh refresh_pass settle
    settle_in settle_blocked is_unsuccessful is_succeeded states_of select_states make_graph_state
    check_graph_state same_names check_states check_node_state is_blocked is_scheduled is_skipped
    lookup insert
accepted_releases = refl

blocked_cannot_run : transition first "b" running ≡ err value_error
unfolding transition state_of is_allowed refresh_after is_terminal refresh refresh_pass settle
    settle_in settle_blocked is_unsuccessful is_succeeded states_of select_states make_graph_state
    check_graph_state same_names check_states check_node_state is_blocked is_scheduled is_skipped
    lookup insert
blocked_cannot_run = refl

first_ready : ready_nodes first ≡ "a" ∷ []
unfolding ready_nodes ready_names
first_ready = refl

a_was_ready : state_of first "a" ≡ ok ready
unfolding state_of lookup
a_was_ready = refl

b_was_blocked : state_of judged "b" ≡ ok blocked
unfolding state_of lookup
b_was_blocked = refl

abbrev going_on : GraphState
going_on = with_states succeeded ready ready blocked

abbrev cut_short : GraphState
cut_short = with_states succeeded cancelled ready skipped

going_on_checked : check_graph_state going_on ≡ ok tt
unfolding transition state_of is_allowed refresh_after is_terminal refresh refresh_pass settle
    settle_in settle_blocked is_unsuccessful is_succeeded states_of select_states make_graph_state
    check_graph_state same_names check_states check_node_state is_blocked is_scheduled is_skipped
    lookup insert
going_on_checked = refl

b_cancelled : transition going_on "b" cancelled ≡ ok cut_short
unfolding transition state_of is_allowed refresh_after is_terminal refresh refresh_pass settle
    settle_in settle_blocked is_unsuccessful is_succeeded states_of select_states make_graph_state
    check_graph_state same_names check_states check_node_state is_blocked is_scheduled is_skipped
    lookup insert
b_cancelled = refl

a_has_succeeded : state_of going_on "a" ≡ ok succeeded
unfolding state_of lookup
a_has_succeeded = refl

ready_can_run : is_allowed ready running ≡ true
unfolding is_allowed
ready_can_run = refl

succeeded_is_terminal : is_terminal succeeded ≡ true
unfolding is_terminal
succeeded_is_terminal = refl

first_unfinished : is_finished first ≡ false
unfolding is_finished is_terminal
first_unfinished = refl

require_acyclic-iff-IsRanked_example :
    (require_acyclic diamond_nodes ≡ ok tt)
    ↔ ((rank : String → ℕ) × IsRanked (dependencies diamond_nodes) (node_ids diamond_nodes) rank)
require_acyclic-iff-IsRanked_example = require_acyclic-iff-IsRanked diamond_nodes

diamond_acyclic : require_acyclic diamond_nodes ≡ ok tt
unfolding require_acyclic peel filter is_ready dependencies_of lookup subtract
diamond_acyclic = refl

no_cycle_example : ¬ (Chain diamond_nodes "d" "d")
no_cycle_example = no_cycle diamond_nodes "d" diamond_acyclic

require_acyclic-ends_example :
    (require_acyclic diamond_nodes ≡ ok tt) ⊎ (require_acyclic diamond_nodes ≡ err value_error)
require_acyclic-ends_example = require_acyclic-ends diamond_nodes

transition_valid_example :
    (g' : GraphState) × (transition first "a" running ≡ ok g')
    × (check_graph_state g' ≡ ok tt)
    × (g'.graph ≡ diamond)
    × (state_of g' "a" ≡ ok running)
transition_valid_example =
    transition_valid first "a" ready running diamond_checked first_checked a_was_ready ready_can_run

a_is_not_b : ("a" == "b") ≡ false
a_is_not_b = refl

transition_others_example :
    (state_of (with_states rejected skipped skipped skipped) "b" ≡ ok blocked)
    ⊎ ((blocked ≡ blocked)
        × ((state_of (with_states rejected skipped skipped skipped) "b" ≡ ok ready)
            ⊎ (state_of (with_states rejected skipped skipped skipped) "b" ≡ ok skipped)))
transition_others_example =
    transition_others judged (with_states rejected skipped skipped skipped) "a" "b" rejected blocked
      diamond_checked judged_checked rejected_skips a_is_not_b b_was_blocked

runs_bounded_example : 1 ≤ 20
runs_bounded_example =
    runs_bounded judged (with_states rejected skipped skipped skipped) 1 diamond_checked
      judged_checked (step "a" rejected rejected_skips start)

runs_terminal_example : state_of cut_short "a" ≡ ok succeeded
runs_terminal_example =
    runs_terminal going_on cut_short 1 "a" succeeded diamond_checked going_on_checked
      (step "b" cancelled b_cancelled start) a_has_succeeded succeeded_is_terminal

unfinished_has_active_example :
    (k : String) × (s : NodeState) × (state_of first k ≡ ok s) × (is_active s ≡ true)
unfinished_has_active_example =
    unfinished_has_active first diamond_checked first_checked first_unfinished

initial_state_valid_example :
    (s : GraphState) × (initial_state diamond ≡ ok s)
    × (check_graph_state s ≡ ok tt)
    × (s.graph ≡ diamond)
    × ((m : GraphNode)
        → Has diamond_nodes m
        → state_of s m.node_id ≡ ok (if is_empty m.depends_on then ready else blocked))
initial_state_valid_example = initial_state_valid diamond diamond_checked
