-- ===== src/Workflows/Graph/State/Transition.antt =====
-- `transition` of backend/workflows/graph.py: it keeps a graph's state valid.
use ryuk.Prelude.{
  suc, ◌<◌, String, ◌≡◌, refl, sym, ap, ◌∙◌, true, false, not, some, List, [], ◌∷◌, arith, all, All,
  Has, length, inl, inr, text-cases, Bool-cases, some_inj, is_distinct, same_names,
}
use mathlib.Core.Path.{subst}
use ryuk.Prelude.Dict.{lookup, insert, keys, keys-insert}
use ryuk.Prelude.Result.{ok, value_error, bind-ok, or_raise-ok, raise_if, raise_if-ok}
use ryuk.Workflows.Graph.{GraphNode, WorkflowGraph, node_ids, check_graph}
use ryuk.Workflows.Graph.State.{
  NodeState, blocked, ready, running, awaiting_validation, uncertain, skipped, is_terminal,
  is_succeeded, is_allowed, States, refresh_after, GraphState, check_graph_state, make_graph_state,
  state_of, transition,
}
use ryuk.Workflows.Graph.State.Coherent.{
  Sound, Waits, Fits, Settled, check_states-Settled, Settled-check_states,
}
use ryuk.Workflows.Graph.State.Update.{
  Fits-insert_other, Fits-insert_self, Settled-insert_other, Settled-insert_self,
}
use ryuk.Workflows.Graph.State.Refresh.{
  count_blocked, count_blocked-le, Kept, Kept-refl, refresh-Settled,
}
use ryuk.Workflows.Graph.State.Select.{same_names-eq, same_names_refl, select_states_self}

-- What `GraphState.__post_init__` of a valid graph establishes.
pub record IsValid (g : GraphState) : Type 0 where
  pub distinct : is_distinct (node_ids g.graph.nodes) ≡ true
  pub keys_fit : keys g.node_states ≡ node_ids g.graph.nodes
  pub settled : All (Settled g.node_states) g.graph.nodes

-- All the elements of a list that has `P` everywhere have `P`.
pub All-Has : {A : Type 0} (P : A → Type 0) (xs : List A) (a : A) → All P xs → Has xs a → P a
All-Has P [] a h k = absurd k
All-Has P (x ∷ xs) a h (inl e) = subst P e h.0
All-Has P (x ∷ xs) a h (inr k) = All-Has P xs a h.1 k

pub Has-All : {A : Type 0} (P : A → Type 0) (xs : List A) → ((a : A) → Has xs a → P a) → All P xs
Has-All P [] h = tt
Has-All P (x ∷ xs) h = (h x (inl refl), Has-All P xs (λ a k. h a (inr k)))

pub All-self : {A : Type 0} (xs : List A) → All (Has xs) xs
All-self xs = Has-All (Has xs) xs (λ a h. h)

pub check_graph-distinct :
    (g : WorkflowGraph) → check_graph g ≡ ok tt → is_distinct (node_ids g.nodes) ≡ true
unfolding check_graph
check_graph-distinct g h = elim (Bool-cases (is_distinct (node_ids g.nodes))) [
  | inl d ↦ d
  | inr d ↦ absurd (ground arith)
]

pub check_graph_state-IsValid :
    (g : GraphState) → check_graph g.graph ≡ ok tt → check_graph_state g ≡ ok tt → IsValid g
unfolding check_graph_state
check_graph_state-IsValid g h k =
    let (_, e, checked) =
      bind-ok
        (raise_if (not (same_names (keys g.node_states) (node_ids g.graph.nodes))) value_error) _
        k in
    let same : same_names (keys g.node_states) (node_ids g.graph.nodes) ≡ true = ground (
      arith,
      raise_if-ok (not (same_names (keys g.node_states) (node_ids g.graph.nodes))) value_error e,
    ) in
    record {
      distinct = check_graph-distinct g.graph h;
      keys_fit = same_names-eq (keys g.node_states) (node_ids g.graph.nodes) same;
      settled = check_states-Settled g.node_states g.graph.nodes checked;
    }

pub IsValid-check_graph_state : (g : GraphState) → IsValid g → check_graph_state g ≡ ok tt
unfolding check_graph_state
IsValid-check_graph_state g v =
    rw (v.keys_fit, same_names_refl (node_ids g.graph.nodes))
      (Settled-check_states g.node_states g.graph.nodes v.settled)

-- A move that is allowed begins at a state that is not terminal and was scheduled, and so does not
-- change what is asked of the dependencies.
pub allowed_from_live : (s t : NodeState) → is_allowed s t ≡ true → is_terminal s ≡ false
unfolding is_allowed is_terminal
allowed_from_live ready t h = refl
allowed_from_live running t h = refl
allowed_from_live awaiting_validation t h = refl
allowed_from_live uncertain t h = refl
allowed_from_live blocked t h = refl
allowed_from_live s t h = absurd (cc)

met_of_allowed :
    (s t : NodeState) (deps : List NodeState)
    → is_allowed s t ≡ true
    → Sound s deps
    → all is_succeeded deps ≡ true
unfolding is_allowed
met_of_allowed blocked t deps h d = absurd (cc)
met_of_allowed skipped t deps h d = absurd (cc)
met_of_allowed s t deps h d = d

target_of_allowed :
    (s t : NodeState) (deps : List NodeState)
    → is_allowed s t ≡ true
    → all is_succeeded deps ≡ true
    → Sound t deps × Waits t deps
unfolding is_allowed
target_of_allowed s blocked deps h d = absurd (ground arith)
target_of_allowed s skipped deps h d = absurd (ground arith)
target_of_allowed s t deps h d = (d, tt)

length-keys : (st : States) → length (keys st) ≡ length st
length-keys [] = refl
length-keys (e ∷ st) = ap suc (length-keys st)

length-node_ids : (nodes : List GraphNode) → length (node_ids nodes) ≡ length nodes
length-node_ids [] = refl
length-node_ids (n ∷ ns) = ap suc (length-node_ids ns)

module _ (g : GraphState) (v : IsValid g) (k : String) (current target : NodeState)
    (was : state_of g k ≡ ok current) (allowed : is_allowed current target ≡ true) where
  pub has_current : lookup k g.node_states ≡ some current
  unfolding state_of
  has_current = or_raise-ok (lookup k g.node_states) value_error was

  pub live : is_terminal current ≡ false
  live = allowed_from_live current target allowed

  -- The states right after the node's own change.
  abbrev moved : States
  moved = insert k target g.node_states

  state-Fits : (m : GraphNode) (f : Fits g.node_states m) → k ≡ m.node_id → f.state ≡ current
  state-Fits m f same =
      some_inj (sym f.has_state ∙ ap (λ x. lookup x g.node_states) (sym same) ∙ has_current)

  deps_met :
      (m : GraphNode) (f : Fits g.node_states m) → k ≡ m.node_id → all is_succeeded f.deps ≡ true
  deps_met m f same =
      met_of_allowed current target f.deps allowed (rw (← state-Fits m f same) f.sound)

  moved-Fits : (m : GraphNode) → Has g.graph.nodes m → Fits moved m
  moved-Fits m h =
      let f = (All-Has (Settled g.node_states) g.graph.nodes m v.settled h).fits in
      elim (text-cases k m.node_id) [
        | inl same ↦
            Fits-insert_self g.node_states k target current has_current live m f.deps same
              f.has_deps (target_of_allowed current target f.deps allowed (deps_met m f same)).0
        | inr differ ↦ Fits-insert_other g.node_states k target current has_current live m differ f
      ]

  moved-Settled :
      is_terminal target ≡ false → (m : GraphNode) → Has g.graph.nodes m → Settled moved m
  moved-Settled o m h =
      let s = All-Has (Settled g.node_states) g.graph.nodes m v.settled h in
      let f = s.fits in
      elim (text-cases k m.node_id) [
        | inl same ↦
            let (sound, waits) =
              target_of_allowed current target f.deps allowed (deps_met m f same) in
            Settled-insert_self g.node_states k target current has_current live o m f.deps same
              f.has_deps sound waits
        | inr differ ↦
            Settled-insert_other g.node_states k target current has_current live o m differ s
      ]

  moved-keys : keys moved ≡ node_ids g.graph.nodes
  moved-keys = keys-insert k target current g.node_states has_current ∙ v.keys_fit

  enough_rounds : count_blocked moved < suc (length g.graph.nodes)
  enough_rounds = omega (
    arith,
    count_blocked-le moved,
    ap length moved-keys,
    length-keys moved,
    length-node_ids g.graph.nodes,
  )

  -- The refresh, where there is one, ends with every node settled.
  refreshed :
      (st : States) × (refresh_after target g.graph.nodes moved ≡ ok st)
      × Kept g.graph.nodes moved st
      × All (Settled st) g.graph.nodes
  unfolding refresh_after
  refreshed = elim (Bool-cases (is_terminal target)) [
    | inl ends ↦
        let (st, e, kept, settled) =
          refresh-Settled g.graph.nodes v.distinct (suc (length g.graph.nodes)) moved enough_rounds
            (All-self g.graph.nodes) moved-Fits in
        (st, rw ends e, kept, settled)
    | inr goes_on ↦ (
      moved,
      rw goes_on,
      Kept-refl g.graph.nodes v.distinct moved moved-Fits,
      Has-All (Settled moved) g.graph.nodes (moved-Settled goes_on),
    )
  ]

  -- An allowed transition of a valid state never raises, and the state after it is valid again.
  pub transition-IsValid :
      (st : States) × (transition g k target ≡ ok (record { graph = g.graph; node_states = st }))
      × IsValid (record { graph = g.graph; node_states = st })
      × Kept g.graph.nodes moved st
  unfolding transition make_graph_state
  transition-IsValid =
      let (st, e, kept, settled) = refreshed in
      let keys_fit : keys st ≡ node_ids g.graph.nodes = kept.keys_same ∙ moved-keys in
      let valid : IsValid (record { graph = g.graph; node_states = st }) = record {
        distinct = v.distinct;
        keys_fit = keys_fit;
        settled = settled;
      } in
      (
        st,
        rw (
          was,
          allowed,
          e,
          select_states_self g.graph.nodes st keys_fit v.distinct,
          IsValid-check_graph_state (record { graph = g.graph; node_states = st }) valid,
        ),
        valid,
        kept,
      )
