-- ===== src/Workflows/Graph/State/Initial.antt =====
-- `WorkflowGraph.initial_state` of backend/workflows/graph.py.
use ryuk.Prelude.{
  String, ◌≡◌, refl, ap, ◌∙◌, Bool, true, false, not, some, List, [], ◌∷◌, arith, is_empty, Has,
  inl, inr, eq_iff, Bool-cases, map, any, all, contains, is_distinct, if◌then◌else◌,
}
use ryuk.Prelude.Dict.{lookup, keys}
use ryuk.Prelude.Result.{ok}
use ryuk.Workflows.Graph.{GraphNode, WorkflowGraph, node_ids, check_graph, check_dependencies}
use ryuk.Workflows.Graph.State.{
  NodeState, blocked, ready, is_terminal, is_succeeded, is_unsuccessful, states_of, GraphState,
  check_graph_state, make_graph_state, state_of, initial_node, initial_state,
}
use ryuk.Workflows.Graph.State.Coherent.{Settled}
use ryuk.Workflows.Graph.State.Refresh.{contains-Has}
use ryuk.Workflows.Graph.State.Update.{not_terminal}
use ryuk.Workflows.Graph.State.Transition.{
  IsValid, check_graph-distinct, IsValid-check_graph_state, Has-All,
}
use ryuk.Workflows.Graph.State.Progress.{find_node}

keys-initial : (nodes : List GraphNode) → keys (map initial_node nodes) ≡ node_ids nodes
keys-initial [] = refl
keys-initial (n ∷ ns) = ap (◌∷◌ n.node_id) (keys-initial ns)

lookup-initial :
    (nodes : List GraphNode) (m : GraphNode)
    → is_distinct (node_ids nodes) ≡ true
    → Has nodes m
    → lookup m.node_id (map initial_node nodes)
      ≡ some (if is_empty m.depends_on then ready else blocked)
unfolding lookup is_distinct
lookup-initial [] m d h = absurd h
lookup-initial (n ∷ ns) m d (inl e) = ground (
  arith,
  ap (λ (x : GraphNode). x.node_id) e,
  ap (λ (x : GraphNode). x.depends_on) e,
  eq_iff n.node_id m.node_id,
)
lookup-initial (n ∷ ns) m d (inr h) =
    ground (arith, eq_iff n.node_id m.node_id, lookup-initial ns m, contains-Has m ns h)

abbrev live : NodeState → Bool
live s = not (is_terminal s)

initial_live : (b : Bool) → live (if b then ready else blocked) ≡ true
unfolding is_terminal
initial_live true = refl
initial_live false = refl

-- Dependencies that are not over neither release a node nor drop it.
live_deps :
    (ds : List NodeState)
    → all live ds ≡ true
    → (any is_unsuccessful ds ≡ false) × (is_empty ds ≡ false → all is_succeeded ds ≡ false)
live_deps [] h = (refl, λ e. absurd (cc))
live_deps (d ∷ ds) h = ground (arith, not_terminal d, live_deps ds)

empty_met : (ds : List NodeState) → is_empty ds ≡ true → all is_succeeded ds ≡ true
empty_met [] h = refl
empty_met (d ∷ ds) h = absurd (cc)

check_dependencies-known :
    (known : List String) (nodes : List GraphNode) (m : GraphNode)
    → check_dependencies known nodes ≡ ok tt
    → Has nodes m
    → all (λ d. contains d known) m.depends_on ≡ true
unfolding check_dependencies
check_dependencies-known known [] m h here = absurd here
check_dependencies-known known (n ∷ ns) m h (inl e) = rw (← e) (ground arith)
check_dependencies-known known (n ∷ ns) m h (inr here) =
    check_dependencies-known known ns m (ground arith) here

check_graph-dependencies :
    (g : WorkflowGraph)
    → check_graph g ≡ ok tt
    → check_dependencies (node_ids g.nodes) g.nodes ≡ ok tt
unfolding check_graph
check_graph-dependencies g h = ground arith

module _ (nodes : List GraphNode) (distinct : is_distinct (node_ids nodes) ≡ true) where
  states_of-initial :
      (ks : List String)
      → all (λ d. contains d (node_ids nodes)) ks ≡ true
      → (ds : List NodeState) × (states_of (map initial_node nodes) ks ≡ ok ds)
        × (is_empty ds ≡ is_empty ks)
        × (all live ds ≡ true)
  unfolding states_of
  states_of-initial [] h = ([], refl, refl, refl)
  states_of-initial (k ∷ ks) h =
      let (m, here, named) = find_node nodes k (ground arith) in
      let (ds, e, _, alive) = states_of-initial ks (ground arith) in
      let s : NodeState = if is_empty m.depends_on then ready else blocked in
      let found : lookup k (map initial_node nodes) ≡ some s =
        rw named at (lookup-initial nodes m distinct here) in
      (s ∷ ds, rw (found, e), refl, rw (initial_live (is_empty m.depends_on), alive))

  initial-Settled :
      (m : GraphNode)
      → Has nodes m
      → all (λ d. contains d (node_ids nodes)) m.depends_on ≡ true
      → Settled (map initial_node nodes) m
  initial-Settled m here known =
      let (ds, e, sizes, alive) = states_of-initial m.depends_on known in
      let (unlost, unmet) = live_deps ds alive in
      elim (Bool-cases (is_empty m.depends_on)) [
        | inl free ↦ record {
          fits = record {
            state = ready;
            deps = ds;
            has_state = lookup-initial nodes m distinct here ∙ rw free;
            has_deps = e;
            sound = empty_met ds (sizes ∙ free);
          };
          waits = tt;
        }
        | inr waits ↦ record {
          fits = record {
            state = blocked;
            deps = ds;
            has_state = lookup-initial nodes m distinct here ∙ rw waits;
            has_deps = e;
            sound = sizes ∙ waits;
          };
          waits = (unmet (sizes ∙ waits), unlost);
        }
      ]

-- A graph that passes its checks has an initial state that passes the checks of a state. In it a
-- node is ready if it has no dependencies, and blocked if it has some.
pub initial_state_valid :
    (g : WorkflowGraph)
    → check_graph g ≡ ok tt
    → (s : GraphState) × (initial_state g ≡ ok s)
      × (check_graph_state s ≡ ok tt)
      × (s.graph ≡ g)
      × ((m : GraphNode)
          → Has g.nodes m
          → state_of s m.node_id ≡ ok (if is_empty m.depends_on then ready else blocked))
unfolding initial_state make_graph_state state_of
initial_state_valid g h =
    let s : GraphState = record { graph = g; node_states = map initial_node g.nodes } in
    let distinct = check_graph-distinct g h in
    let valid : IsValid s = record {
      distinct = distinct;
      keys_fit = keys-initial g.nodes;
      settled = Has-All (Settled s.node_states) g.nodes (λ m here.
          initial-Settled g.nodes distinct m here (
            check_dependencies-known (node_ids g.nodes) g.nodes m (check_graph-dependencies g h)
              here));
    } in
    let checked = IsValid-check_graph_state s valid in
    (s, rw checked, checked, refl, λ m here. rw (lookup-initial g.nodes m distinct here))
