-- ===== src/Workflows/Graph/State/Coherent.antt =====
-- What `GraphState.__post_init__` of backend/workflows/graph.py asks of a node, as propositions.
use ryuk.Prelude.{◌≡◌, refl, true, false, not, some, List, [], ◌∷◌, arith, any, all, is_empty, All}
use ryuk.Prelude.Dict.{lookup}
use ryuk.Prelude.Result.{ok, key_error, or_raise, bind-ok, or_raise-ok}
use ryuk.Workflows.Graph.{GraphNode}
use ryuk.Workflows.Graph.State.{
  NodeState, blocked, skipped, is_succeeded, is_unsuccessful, is_blocked, is_scheduled, is_skipped,
  States, states_of, check_node_state, check_states,
}

-- What holds of a node at all times, also while the waiting nodes are being refreshed.
abbrev pub Sound : NodeState → List NodeState → Type 0
Sound blocked deps = is_empty deps ≡ false
Sound skipped deps = any is_unsuccessful deps ≡ true
Sound _ deps = all is_succeeded deps ≡ true

-- A waiting node has to wait.
abbrev pub Waits : NodeState → List NodeState → Type 0
Waits blocked deps = (all is_succeeded deps ≡ false) × (any is_unsuccessful deps ≡ false)
Waits _ deps = Unit

any-not-all :
    (deps : List NodeState) → any (λ d. not (is_succeeded d)) deps ≡ not (all is_succeeded deps)
any-not-all [] = refl
any-not-all (d ∷ ds) = ground (arith, any-not-all ds)

pub check_node_state-Sound :
    (s : NodeState) (deps : List NodeState)
    → check_node_state s deps ≡ ok tt
    → Sound s deps × Waits s deps
unfolding check_node_state is_blocked is_scheduled is_skipped
check_node_state-Sound blocked deps h = ground arith
check_node_state-Sound skipped deps h = ground arith
check_node_state-Sound _ deps h = (ground (arith, any-not-all deps), tt)

pub Sound-check_node_state :
    (s : NodeState) (deps : List NodeState)
    → Sound s deps
    → Waits s deps
    → check_node_state s deps ≡ ok tt
unfolding check_node_state is_blocked is_scheduled is_skipped
Sound-check_node_state blocked deps h w = ground arith
Sound-check_node_state skipped deps h w = ground arith
Sound-check_node_state _ deps h w = ground (arith, any-not-all deps)

-- The node and its dependencies have states, and those fit.
pub record Fits (st : States) (n : GraphNode) : Type 0 where
  pub state : NodeState
  pub deps : List NodeState
  pub has_state : lookup n.node_id st ≡ some state
  pub has_deps : states_of st n.depends_on ≡ ok deps
  pub sound : Sound state deps

-- Beside that, the node waits only where it has to.
pub record Settled (st : States) (n : GraphNode) : Type 0 where
  pub fits : Fits st n
  pub waits : Waits fits.state fits.deps

check_states-cons :
    (st : States) (n : GraphNode) (ns : List GraphNode)
    → check_states st (n ∷ ns) ≡ ok tt
    → Settled st n × (check_states st ns ≡ ok tt)
unfolding check_states
check_states-cons st n ns h =
    let (s, e, after) = bind-ok (or_raise (lookup n.node_id st) key_error) _ h in
    let (deps, f, checks) = bind-ok (states_of st n.depends_on) _ after in
    let (_, checked, rest) = bind-ok (check_node_state s deps) _ checks in
    let (sound, waits) = check_node_state-Sound s deps checked in
    (
      record {
        fits = record {
          state = s;
          deps = deps;
          has_state = or_raise-ok (lookup n.node_id st) key_error e;
          has_deps = f;
          sound = sound;
        };
        waits = waits;
      },
      rest,
    )

pub check_states-Settled :
    (st : States) (nodes : List GraphNode) → check_states st nodes ≡ ok tt → All (Settled st) nodes
check_states-Settled st [] h = tt
check_states-Settled st (n ∷ ns) h =
    let (settled, rest) = check_states-cons st n ns h in (settled, check_states-Settled st ns rest)

pub Settled-check_states :
    (st : States) (nodes : List GraphNode) → All (Settled st) nodes → check_states st nodes ≡ ok tt
unfolding check_states
Settled-check_states st [] h = refl
Settled-check_states st (n ∷ ns) h =
    let f = h.0.fits in
    rw (f.has_state, f.has_deps, Sound-check_node_state f.state f.deps f.sound h.0.waits)
      (Settled-check_states st ns h.1)
