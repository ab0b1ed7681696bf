-- ===== src/Workflows/Graph/State/Lifecycle.antt =====
-- The life of a workflow graph under `transition` of backend/workflows/graph.py.
use ryuk.Prelude.{
  ℕ, zero, suc, ◌+◌, ◌*◌, ◌≤◌, ◌<◌, String, ◌≡◌, refl, sym, ap, ◌∙◌, true, false, not, Option, none,
  some, arith, length, inl, inr, ◌⊎◌, ◌==◌, eq_refl, text-cases, some_inj,
}
use mathlib.Core.Path.{subst}
use ryuk.Prelude.Dict.{lookup, insert, lookup-insert}
use ryuk.Prelude.Result.{ok, value_error, bind-ok, or_raise-ok, ok_inj, raise_if, raise_if-ok}
use ryuk.Workflows.Graph.{check_graph}
use ryuk.Workflows.Graph.State.{
  NodeState, blocked, ready, running, awaiting_validation, uncertain, skipped, is_terminal,
  is_blocked, is_allowed, GraphState, check_graph_state, state_of, transition,
}
use ryuk.Workflows.Graph.State.Refresh.{
  Kept, Released, still, released, dropped, weight, effort, effort-le, effort-insert,
}
use ryuk.Workflows.Graph.State.Transition.{
  IsValid, check_graph_state-IsValid, IsValid-check_graph_state, transition-IsValid, has_current,
  allowed_from_live,
}

-- What a successful transition of `k` to `target` has done.
pub record Moved (g : GraphState) (k : String) (target : NodeState) (g' : GraphState) : Type 0 where
  pub same_graph : g'.graph ≡ g.graph
  pub valid : IsValid g'
  pub from : NodeState
  pub was : lookup k g.node_states ≡ some from
  pub allowed : is_allowed from target ≡ true
  pub kept : Kept g.graph.nodes (insert k target g.node_states) g'.node_states

pub transition-Moved :
    (g g' : GraphState) (k : String) (target : NodeState)
    → IsValid g
    → transition g k target ≡ ok g'
    → Moved g k target g'
unfolding transition
transition-Moved g g' k target v h =
    let (current, was, checked) = bind-ok (state_of g k) _ h in
    let (_, test, _) = bind-ok (raise_if (not (is_allowed current target)) value_error) _ checked in
    let allowed : is_allowed current target ≡ true =
      ground (arith, raise_if-ok (not (is_allowed current target)) value_error test) in
    let (st, e, valid, kept) = transition-IsValid g v k current target was allowed in
    let same : record { graph = g.graph; node_states = st } ≡ g' = ok_inj (sym e ∙ h) in
    subst (Moved g k target) same (record {
      same_graph = refl;
      valid = valid;
      from = current;
      was = has_current g v k current target was allowed;
      allowed = allowed;
      kept = kept;
    })

target_waits_not : (s t : NodeState) → is_allowed s t ≡ true → is_blocked t ≡ false
unfolding is_allowed is_blocked
target_waits_not s blocked h = absurd (ground arith)
target_waits_not s t h = refl

state_of-lookup :
    (g : GraphState) (k : String) (s : NodeState)
    → lookup k g.node_states ≡ some s
    → state_of g k ≡ ok s
unfolding state_of
state_of-lookup g k s e = rw e

lookup-state_of :
    (g : GraphState) (k : String) (s : NodeState)
    → state_of g k ≡ ok s
    → lookup k g.node_states ≡ some s
unfolding state_of
lookup-state_of g k s e = or_raise-ok (lookup k g.node_states) value_error e

terminal_waits_not : (s : NodeState) → is_terminal s ≡ true → is_blocked s ≡ false
unfolding is_terminal is_blocked
terminal_waits_not blocked h = absurd (cc)
terminal_waits_not s h = refl

blocked-cases : (s : NodeState) → (s ≡ blocked) ⊎ (is_blocked s ≡ false)
unfolding is_blocked
blocked-cases blocked = inl refl
blocked-cases s = inr refl

weight_falls : (s t : NodeState) → is_allowed s t ≡ true → weight t < weight s
unfolding is_allowed weight
weight_falls ready t h = ground arith
weight_falls running t h = ground arith
weight_falls awaiting_validation t h = ground arith
weight_falls uncertain t h = ground arith
weight_falls s t h = absurd (cc)

Released-states :
    (g : GraphState) (j : String) (s : NodeState)
    → s ≡ blocked
    → (o : Option NodeState) → lookup j g.node_states ≡ o
    → Released o
    → ((state_of g j ≡ ok s)
        ⊎ ((s ≡ blocked) × ((state_of g j ≡ ok ready) ⊎ (state_of g j ≡ ok skipped))))
Released-states g j s w none e r = elim r [ ]
Released-states g j s w (some o) e still = inl (state_of-lookup g j s (rw w e))
Released-states g j s w (some o) e released = inr (w, inl (state_of-lookup g j ready e))
Released-states g j s w (some o) e dropped = inr (w, inr (state_of-lookup g j skipped e))

module _ {g g' : GraphState} {k : String} {target : NodeState} (m : Moved g k target g') where
  moved_to : lookup k g'.node_states ≡ some target
  moved_to =
      m.kept.frame k target (target_waits_not m.from target m.allowed) (rw (lookup-insert, eq_refl))

  -- Another node that does not wait keeps its state.
  others_stay :
      (j : String) (s : NodeState)
      → (k == j) ≡ false
      → is_blocked s ≡ false
      → lookup j g.node_states ≡ some s
      → lookup j g'.node_states ≡ some s
  others_stay j s differ free e = m.kept.frame j s free (rw (lookup-insert, differ) e)

  waiting-Released :
      (j : String)
      → (k == j) ≡ false
      → lookup j g.node_states ≡ some blocked
      → Released (lookup j g'.node_states)
  waiting-Released j differ e = m.kept.released j (rw (lookup-insert, differ) e)

  terminal_is_kept :
      (j : String) (s : NodeState)
      → is_terminal s ≡ true
      → lookup j g.node_states ≡ some s
      → lookup j g'.node_states ≡ some s
  terminal_is_kept j s ends e = elim (text-cases k j) [
    | inl same ↦ absurd (
        ground (
          arith,
          allowed_from_live m.from target m.allowed,
          ap is_terminal (some_inj (sym m.was ∙ ap (λ x. lookup x g.node_states) same ∙ e)),
        ))
    | inr differ ↦ others_stay j s differ (terminal_waits_not s ends) e
  ]

  effort_falls : effort g'.node_states < effort g.node_states
  effort_falls = omega (
    arith,
    m.kept.effort_le,
    effort-insert k target m.from g.node_states m.was,
    weight_falls m.from target m.allowed,
  )

-- A transition that is allowed from a valid state succeeds: the new state passes the constructor's
-- checks, belongs to the same graph, and has the node in the target state.
pub transition_valid :
    (g : GraphState) (k : String) (current target : NodeState)
    → check_graph g.graph ≡ ok tt
    → check_graph_state g ≡ ok tt
    → state_of g k ≡ ok current
    → is_allowed current target ≡ true
    → (g' : GraphState) × (transition g k target ≡ ok g')
      × (check_graph_state g' ≡ ok tt)
      × (g'.graph ≡ g.graph)
      × (state_of g' k ≡ ok target)
transition_valid g k current target hg hs was allowed =
    let v = check_graph_state-IsValid g hg hs in
    let (st, e, valid, kept) = transition-IsValid g v k current target was allowed in
    let g' : GraphState = record { graph = g.graph; node_states = st } in
    let m = transition-Moved g g' k target v e in
    (g', e, IsValid-check_graph_state g' valid, refl, state_of-lookup g' k target (moved_to m))

-- A transition of one node leaves every other node that is not blocked in its state; a blocked one
-- stays blocked, becomes ready, or is skipped.
pub transition_others :
    (g g' : GraphState) (k j : String) (target s : NodeState)
    → check_graph g.graph ≡ ok tt
    → check_graph_state g ≡ ok tt
    → transition g k target ≡ ok g'
    → (k == j) ≡ false
    → state_of g j ≡ ok s
    → ((state_of g' j ≡ ok s)
        ⊎ ((s ≡ blocked) × ((state_of g' j ≡ ok ready) ⊎ (state_of g' j ≡ ok skipped))))
transition_others g g' k j target s hg hs h differ was =
    let m = transition-Moved g g' k target (check_graph_state-IsValid g hg hs) h in
    let e = lookup-state_of g j s was in
    elim (blocked-cases s) [
      | inl waits ↦
          Released-states g' j s waits (lookup j g'.node_states) refl
            (waiting-Released m j differ (rw waits at e))
      | inr free ↦ inl (state_of-lookup g' j s (others_stay m j s differ free e))
    ]

-- Successful transitions, one after another.
pub data Runs : GraphState → ℕ → GraphState → Type 0 where
  start : {g : GraphState} → Runs g zero g
  step :
      {g g1 g2 : GraphState} {n : ℕ} (k : String) (target : NodeState)
      → transition g k target ≡ ok g1
      → Runs g1 n g2
      → Runs g (suc n) g2

Runs-effort :
    {g g' : GraphState} {n : ℕ}
    → IsValid g
    → Runs g n g'
    → n + effort g'.node_states ≤ effort g.node_states
Runs-effort v start = omega arith
Runs-effort v (step {g = a} {g1 = b} k target h r) =
    let m = transition-Moved a b k target v h in
    omega (arith, effort_falls m, Runs-effort m.valid r)

-- From a valid state at most five transitions for each node can succeed, in whatever order.
pub runs_bounded :
    (g g' : GraphState) (n : ℕ)
    → check_graph g.graph ≡ ok tt
    → check_graph_state g ≡ ok tt
    → Runs g n g'
    → n ≤ 5 * length g.node_states
runs_bounded g g' n hg hs r =
    omega (arith, Runs-effort (check_graph_state-IsValid g hg hs) r, effort-le g.node_states)

Runs-terminal :
    {g g' : GraphState} {n : ℕ} (j : String) (s : NodeState)
    → is_terminal s ≡ true
    → IsValid g
    → Runs g n g'
    → lookup j g.node_states ≡ some s
    → lookup j g'.node_states ≡ some s
Runs-terminal j s ends v start e = e
Runs-terminal j s ends v (step {g = a} {g1 = b} k target h r) e =
    let m = transition-Moved a b k target v h in
    Runs-terminal j s ends m.valid r (terminal_is_kept m j s ends e)

-- A node in a terminal state stays in it, whatever transitions of the graph succeed after.
pub runs_terminal :
    (g g' : GraphState) (n : ℕ) (j : String) (s : NodeState)
    → check_graph g.graph ≡ ok tt
    → check_graph_state g ≡ ok tt
    → Runs g n g'
    → state_of g j ≡ ok s
    → is_terminal s ≡ true
    → state_of g' j ≡ ok s
runs_terminal g g' n j s hg hs r was ends =
    state_of-lookup g' j s
      (Runs-terminal j s ends (check_graph_state-IsValid g hg hs) r (lookup-state_of g j s was))
