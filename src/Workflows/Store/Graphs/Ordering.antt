-- ===== src/Workflows/Store/Graphs/Ordering.antt =====
-- The order in which backend/workflows/store.py writes the changes of a transition.
use ryuk.Prelude.{
  ℕ, zero, suc, ◌≤◌, String, ◌≡◌, refl, sym, ap, true, false, not, ◌||◌, inl, inr, List, [], ◌∷◌,
  ◌++◌, filter, contains, any, is_empty, is_distinct, length, Has, ◌==◌, arith, eq_iff, eq_refl,
  Bool-cases, leb, contains-filter, length-filter-lt, contains_of_any,
}
use mathlib.Core.Path.{subst}
use ryuk.Prelude.Result.{ok}
use ryuk.Workflows.Graph.{GraphNode, WorkflowGraph, check_graph, dependencies, node_ids}
use ryuk.Workflows.Graph.Acyclic.{Edge, IsRanked, require_acyclic-iff-IsRanked}
use ryuk.Workflows.Graph.State.Progress.{dependencies_of-node, check_graph-acyclic, find_node}
use ryuk.Workflows.Graph.State.Refresh.{contains-Has}
use ryuk.Workflows.Graph.State.Transition.{check_graph-distinct}
use ryuk.Workflows.Store.Graphs.Transitions.{eligible_names, order_changes}

eligible-Has :
    (nodes : List GraphNode) (pending : List String) (n : GraphNode)
    → Has nodes n
    → contains n.node_id pending ≡ true
    → any (λ d. contains d pending) n.depends_on ≡ false
    → contains n.node_id (eligible_names nodes pending) ≡ true
unfolding eligible_names
eligible-Has [] pending n h there none_pends = absurd h
eligible-Has (m ∷ ms) pending n (inl e) there none_pends = rw (e, there, none_pends, eq_refl) refl
eligible-Has (m ∷ ms) pending n (inr h) there none_pends =
    ground (arith, eligible-Has ms pending n h there none_pends)

eligible-pending :
    (nodes : List GraphNode) (pending : List String) (k : String)
    → contains k (eligible_names nodes pending) ≡ true
    → contains k pending ≡ true
unfolding eligible_names
eligible-pending [] pending k h = absurd (cc)
eligible-pending (m ∷ ms) pending k h =
    ground (arith, eligible-pending ms pending k, ap (λ x. contains x pending), eq_iff m.node_id k)

contains-append :
    (k : String) (xs ys : List String) → contains k (xs ++ ys) ≡ (contains k xs || contains k ys)
contains-append k [] ys = refl
contains-append k (x ∷ xs) ys = ground (arith, contains-append k xs ys)

some_eligible :
    (k : String) (names : List String) → contains k names ≡ true → is_empty names ≡ false
some_eligible k [] h = absurd (cc)
some_eligible k (x ∷ xs) h = refl

-- A pending name of the least rank.
lowest :
    (rank : String → ℕ) (x : String) (xs : List String)
    → (k : String) × (contains k (x ∷ xs) ≡ true)
      × ((j : String) → contains j (x ∷ xs) ≡ true → rank k ≤ rank j)
lowest rank x [] = (
  x,
  rw eq_refl refl,
  λ j h. subst (λ y. rank x ≤ rank y) ((eq_iff x j).0 (ground arith)) (omega arith),
)
lowest rank x (y ∷ ys) =
    let (k, there, least) = lowest rank y ys in
    elim (Bool-cases (leb (rank x) (rank k))) [
      | inl low ↦ (
        x,
        rw eq_refl refl,
        λ j h. elim (Bool-cases (x == j)) [
          | inl same ↦ subst (λ z. rank x ≤ rank z) ((eq_iff x j).0 same) (omega arith)
          | inr other ↦ ground (arith, least j)
        ],
      )
      | inr high ↦ (
        k,
        ground arith,
        λ j h. elim (Bool-cases (x == j)) [
          | inl same ↦ subst (λ z. rank k ≤ rank z) ((eq_iff x j).0 same) (ground arith)
          | inr other ↦ ground (arith, least j)
        ],
      )
    ]

module _ (nodes : List GraphNode) (distinct : is_distinct (node_ids nodes) ≡ true)
    (rank : String → ℕ) (r : IsRanked (dependencies nodes) (node_ids nodes) rank) where
  -- The pending name of the least rank waits for no pending name.
  lowest-eligible :
      (p : String) (ps : List String)
      → ((k : String) → contains k (p ∷ ps) ≡ true → contains k (node_ids nodes) ≡ true)
      → (k : String) × (contains k (p ∷ ps) ≡ true)
        × (contains k (eligible_names nodes (p ∷ ps)) ≡ true)
  lowest-eligible p ps known =
      let (k, there, least) = lowest rank p ps in
      let (n, here, named) = find_node nodes k (known k there) in
      let pends : contains n.node_id (p ∷ ps) ≡ true =
        subst (λ z. contains z (p ∷ ps) ≡ true) (sym named) there in
      elim (Bool-cases (any (λ d. contains d (p ∷ ps)) n.depends_on)) [
        | inr free ↦ (n.node_id, pends, eligible-Has nodes (p ∷ ps) n here pends free)
        | inl waits ↦
            let (d, dep, pending) = contains_of_any (λ d. contains d (p ∷ ps)) n.depends_on waits in
            let edge : Edge (dependencies nodes) (node_ids nodes) n.node_id d = record {
              from_there = contains-Has n nodes here;
              depends = rw (dependencies_of-node nodes n distinct here) dep;
              to_there = known d pending;
            } in
            absurd (omega (arith, r.falls n.node_id d edge, least d pending, ap rank named))
      ]

  orders :
      (fuel : ℕ) (pending : List String)
      → length pending ≤ fuel
      → ((k : String) → contains k pending ≡ true → contains k (node_ids nodes) ≡ true)
      → (l : List String) × (order_changes fuel nodes pending ≡ ok l)
        × ((k : String) → contains k l ≡ contains k pending)
  unfolding order_changes
  orders fuel [] fits known = ([], refl, λ k. refl)
  orders zero (p ∷ ps) fits known = absurd (omega arith)
  orders (suc fuel) (p ∷ ps) fits known =
      let eligible = eligible_names nodes (p ∷ ps) in
      let left = filter (λ k. not (contains k eligible)) (p ∷ ps) in
      let (k, there, chosen) = lowest-eligible p ps known in
      let shorter =
        length-filter-lt k (λ j. not (contains j eligible)) (p ∷ ps) there (rw chosen refl) in
      let (rest, ordered, same) = orders fuel left (omega (arith, shorter, fits)) (λ j h.
        known j (ground (arith, contains-filter j (λ j. not (contains j eligible)) (p ∷ ps)))) in
      (
        eligible ++ rest,
        rw (some_eligible k eligible chosen, ordered) refl,
        λ j. ground (
          arith,
          contains-append j eligible rest,
          same j,
          contains-filter j (λ j. not (contains j eligible)) (p ∷ ps),
          eligible-pending nodes (p ∷ ps) j,
        ),
      )

-- In a graph that passes its checks the changes of any of its nodes can be ordered: the loop ends within one
-- round for each pending name, never raises, and orders exactly the pending names.
pub order_changes-total :
    (g : WorkflowGraph) (pending : List String)
    → check_graph g ≡ ok tt
    → ((k : String) → contains k pending ≡ true → contains k (node_ids g.nodes) ≡ true)
    → (l : List String) × (order_changes (length pending) g.nodes pending ≡ ok l)
      × ((k : String) → contains k l ≡ contains k pending)
order_changes-total g pending h known =
    let (rank, r) = (require_acyclic-iff-IsRanked g.nodes).0 (check_graph-acyclic g h) in
    orders g.nodes (check_graph-distinct g h) rank r (length pending) pending (omega arith) known
