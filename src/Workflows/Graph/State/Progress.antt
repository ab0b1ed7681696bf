-- ===== src/Workflows/Graph/State/Progress.antt =====
-- A graph state of backend/workflows/graph.py starts valid and cannot come to a standstill.
use ryuk.Prelude.{
  ℕ, zero, suc, ◌<◌, String, ◌≡◌, refl, sym, ap, ◌∙◌, Bool, true, false, not, ◌&&◌, some, List, [],
  ◌∷◌, arith, Has, inl, inr, eq_iff, eq_refl, text-cases, Bool-cases, some_inj, any, all, contains,
  is_distinct,
}
use ryuk.Prelude.Dict.{lookup, keys}
use ryuk.Prelude.Result.{ok, ok_inj}
use ryuk.Workflows.Graph.{
  GraphNode, WorkflowGraph, node_ids, check_graph, dependencies, dependencies_of, require_acyclic,
}
use ryuk.Workflows.Graph.Acyclic.{
  Edge, IsRanked, require_acyclic-iff-IsRanked, require_acyclic-ends,
}
use ryuk.Workflows.Graph.State.{
  NodeState, blocked, succeeded, is_terminal, is_succeeded, is_unsuccessful, is_blocked, States,
  states_of, GraphState, check_graph_state, state_of, is_finished,
}
use ryuk.Workflows.Graph.State.Coherent.{Settled, Waits}
use ryuk.Workflows.Graph.State.Refresh.{contains-Has}
use ryuk.Workflows.Graph.State.Update.{states_of-cons}
use ryuk.Workflows.Graph.State.Transition.{IsValid, check_graph_state-IsValid, All-Has}

-- The states in which a node can be moved on.
unfoldable pub is_active : NodeState → Bool
unfolding is_terminal is_blocked
is_active s = not (is_terminal s) && not (is_blocked s)

neither_terminal :
    (s : NodeState) → is_succeeded s ≡ false → is_unsuccessful s ≡ false → is_terminal s ≡ false
unfolding is_succeeded is_unsuccessful is_terminal
neither_terminal succeeded h k = absurd (cc)
neither_terminal s h k = ground arith

alive :
    (d : NodeState) (rest ds : List NodeState)
    → d ∷ rest ≡ ds
    → any is_unsuccessful ds ≡ false
    → is_unsuccessful d ≡ false
alive d rest ds e h =
    let u : any is_unsuccessful (d ∷ rest) ≡ false = ap (any is_unsuccessful) e ∙ h in ground arith

rest_alive :
    (d : NodeState) (rest ds : List NodeState)
    → d ∷ rest ≡ ds
    → any is_unsuccessful ds ≡ false
    → any is_unsuccessful rest ≡ false
rest_alive d rest ds e h =
    let u : any is_unsuccessful (d ∷ rest) ≡ false = ap (any is_unsuccessful) e ∙ h in ground arith

waiting_deps :
    (s t : NodeState) (deps : List NodeState)
    → is_blocked s ≡ true
    → s ≡ t
    → Waits t deps
    → (all is_succeeded deps ≡ false) × (any is_unsuccessful deps ≡ false)
unfolding is_blocked
waiting_deps s blocked deps w e h = h
waiting_deps s t deps w e h = absurd (ground arith)

-- A node that waits has a dependency that is not over.
open_dependency :
    (st : States) (ks : List String) (ds : List NodeState)
    → states_of st ks ≡ ok ds
    → all is_succeeded ds ≡ false
    → any is_unsuccessful ds ≡ false
    → (d : String) × (s : NodeState) × (contains d ks ≡ true)
      × (lookup d st ≡ some s)
      × (is_terminal s ≡ false)
unfolding states_of
open_dependency st [] ds h a u = absurd (ground (arith, ap (all is_succeeded) (ok_inj h)))
open_dependency st (k ∷ ks) ds h a u =
    let (d, rest, e, f, made) = states_of-cons st k ks ds h in
    elim (Bool-cases (is_succeeded d)) [
      | inl over ↦
          let (j, s, here, found, live) =
            open_dependency st ks rest f (rw (← made, over) at a) (rest_alive d rest ds made u) in
          (j, s, ground arith, found, live)
      | inr unmet ↦ (k, d, rw eq_refl, e, neither_terminal d unmet (alive d rest ds made u))
    ]

has_keys :
    (st : States) (d : String) (s : NodeState) → lookup d st ≡ some s → contains d (keys st) ≡ true
unfolding lookup
has_keys [] d s e = absurd (cc)
has_keys ((k, t) ∷ st) d s e = ground (arith, has_keys st d s)

pub find_node :
    (nodes : List GraphNode) (d : String)
    → contains d (node_ids nodes) ≡ true
    → (n : GraphNode) × Has nodes n × (n.node_id ≡ d)
find_node [] d h = absurd (cc)
find_node (n ∷ ns) d h = elim (text-cases n.node_id d) [
  | inl same ↦ (n, inl refl, same)
  | inr differ ↦ let (m, here, e) = find_node ns d (rw differ at h) in (m, inr here, e)
]

pub dependencies_of-node :
    (nodes : List GraphNode) (m : GraphNode)
    → is_distinct (node_ids nodes) ≡ true
    → Has nodes m
    → dependencies_of (dependencies nodes) m.node_id ≡ m.depends_on
unfolding dependencies_of lookup is_distinct
dependencies_of-node [] m d h = absurd h
dependencies_of-node (n ∷ ns) m d (inl e) = ground (
  arith,
  ap (λ (x : GraphNode). x.node_id) e,
  ap (λ (x : GraphNode). x.depends_on) e,
  eq_iff n.node_id m.node_id,
)
dependencies_of-node (n ∷ ns) m d (inr h) =
    ground (arith, eq_iff n.node_id m.node_id, dependencies_of-node ns m, contains-Has m ns h)

module _ (g : GraphState) (v : IsValid g) (rank : String → ℕ)
    (r : IsRanked (dependencies g.graph.nodes) (node_ids g.graph.nodes) rank) where
  active_below :
      (bound : ℕ) (m : GraphNode) (s : NodeState)
      → Has g.graph.nodes m
      → rank m.node_id < bound
      → lookup m.node_id g.node_states ≡ some s
      → is_terminal s ≡ false
      → (k : String) × (t : NodeState) × (lookup k g.node_states ≡ some t) × (is_active t ≡ true)
  active_below zero m s h b e live = absurd (omega arith)
  active_below (suc bound) m s h b e live = elim (Bool-cases (is_blocked s)) [
    | inr free ↦ (m.node_id, s, e, unfold is_active in rw (live, free))
    | inl waits ↦
        let settled = All-Has (Settled g.node_states) g.graph.nodes m v.settled h in
        let f = settled.fits in
        let (unmet, alive) =
          waiting_deps s f.state f.deps waits (some_inj (sym e ∙ f.has_state)) settled.waits in
        let (d, t, dep, found, on) =
          open_dependency g.node_states m.depends_on f.deps f.has_deps unmet alive in
        let known : contains d (node_ids g.graph.nodes) ≡ true =
          rw v.keys_fit at (has_keys g.node_states d t found) in
        let (n, here, named) = find_node g.graph.nodes d known in
        let edge : Edge (dependencies g.graph.nodes) (node_ids g.graph.nodes) m.node_id d = record {
          from_there = contains-Has m g.graph.nodes h;
          depends = rw (dependencies_of-node g.graph.nodes m v.distinct h) dep;
          to_there = known;
        } in
        active_below bound n t here (rw named (omega (arith, r.falls m.node_id d edge)))
          (rw named found) on
  ]

unfinished_entry :
    (st : States)
    → all (λ e. is_terminal e.1) st ≡ false
    → is_distinct (keys st) ≡ true
    → (k : String) × (s : NodeState) × (lookup k st ≡ some s) × (is_terminal s ≡ false)
unfolding lookup is_distinct
unfinished_entry [] h d = absurd (cc)
unfinished_entry ((k, s) ∷ st) h d = elim (Bool-cases (is_terminal s)) [
  | inr live ↦ (k, s, rw eq_refl, live)
  | inl over ↦
      let (j, t, e, live) = unfinished_entry st (rw over at h) (ground arith) in
      (j, t, ground (arith, eq_iff k j, has_keys st j t e), live)
]

pub check_graph-acyclic :
    (g : WorkflowGraph) → check_graph g ≡ ok tt → require_acyclic g.nodes ≡ ok tt
unfolding check_graph
check_graph-acyclic g h = elim (require_acyclic-ends g.nodes) [
  | inl accepts ↦ accepts
  | inr raises ↦ absurd (ground arith)
]

-- A valid graph state that is not finished has a node that can be moved on: one that is ready,
-- running, awaiting its validation, or uncertain. Blocked nodes alone never hold a graph up.
pub unfinished_has_active :
    (g : GraphState)
    → check_graph g.graph ≡ ok tt
    → check_graph_state g ≡ ok tt
    → is_finished g ≡ false
    → (k : String) × (s : NodeState) × (state_of g k ≡ ok s) × (is_active s ≡ true)
unfolding is_finished state_of
unfinished_has_active g hg hs unfinished =
    let v = check_graph_state-IsValid g hg hs in
    let (rank, r) =
      (require_acyclic-iff-IsRanked g.graph.nodes).0 (check_graph-acyclic g.graph hg) in
    let (k, s, e, live) = unfinished_entry g.node_states unfinished (rw v.keys_fit v.distinct) in
    let (m, here, named) =
      find_node g.graph.nodes k (rw v.keys_fit at (has_keys g.node_states k s e)) in
    let (j, t, found, active) =
      active_below g v rank r (suc (rank m.node_id)) m s here (omega arith) (rw named e) live in
    (j, t, rw found, active)
