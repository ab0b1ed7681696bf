-- ===== src/Workflows/Store/Graphs/Leases.antt =====
-- The lease of a graph's node in backend/workflows/store.py.
use ryuk.Prelude.{
  ℕ, ◌+◌, ◌*◌, String, ◌≡◌, refl, sym, ap, ◌∙◌, true, not, ◌&&◌, ◌||◌, some, leb, ltb, eqb,
  if◌then◌else◌, ◌==◌, arith, some_inj,
}
use mathlib.Core.Path.{subst}
use ryuk.Prelude.Text.{is_identifier}
use ryuk.Prelude.Result.{
  ok, err, value_error, conflict, raise_if, or_raise, bind-ok, or_raise-ok, raise_if-ok, ok_inj,
}
use ryuk.Workflows.Graph.State.{ready, running}
use ryuk.Workflows.Store.Rows.{find-update_self}
use ryuk.Workflows.Store.External.{lease_over}
use ryuk.Workflows.Store.Graphs.{GraphNodeRow, GraphStore, get_graph_budget}
use ryuk.Workflows.Store.Graphs.Transitions.{
  is_node_state, add_graph_event, is_node, select_node, update_node,
}
use ryuk.Workflows.Store.Graphs.Nodes.{
  budget_over, set_claimed, claim_node_row, claim_graph_node, check_graph_lease,
  require_graph_lease,
}

running-not_ready : ¬ (is_node_state running ready ≡ true)
unfolding is_node_state
running-not_ready h = absurd (cc)

module _ (t g k : String) where
  claim_node_row-selects :
      (owner : String) (lease now fence : ℕ) (row : GraphNodeRow) (s s' : GraphStore)
      → select_node t g k s ≡ some row
      → claim_node_row t g k owner lease now row s ≡ ok (fence, s')
      → select_node t g k s' ≡ some (set_claimed owner fence (now + lease * 1_000_000) row)
  unfolding claim_node_row select_node update_node add_graph_event
  claim_node_row-selects owner lease now fence row s s' found h =
      let (_, at_ready, made) =
        bind-ok (raise_if (not (is_node_state row.state ready)) conflict) _ h in
      let raised : row.fence + 1 ≡ fence = ap (λ (y : ℕ × GraphStore). y.0) (ok_inj made) in
      let rows = ap (λ (y : ℕ × GraphStore). y.1.nodes) (ok_inj made) in
      rw (← rows, ← raised)
        (find-update_self (is_node t g k)
          (set_claimed owner (row.fence + 1) (now + lease * 1_000_000)) (λ a. refl) s.nodes row
          found)

  claim_graph_node-selects :
      (owner : String) (lease now fence : ℕ) (s s' : GraphStore)
      → claim_graph_node t g k owner lease now s ≡ ok (fence, s')
      → (row : GraphNodeRow) × (select_node t g k s'
          ≡ some (set_claimed owner fence (now + lease * 1_000_000) row))
  unfolding claim_graph_node
  claim_graph_node-selects owner lease now fence s s' h =
      let (_, _, h1) = bind-ok (raise_if (not (is_identifier owner)) value_error) _ h in
      let (_, _, h2) = bind-ok (raise_if (ltb lease 1 || ltb 3600 lease) value_error) _ h1 in
      let (_, _, h3) =
        bind-ok (raise_if (budget_over (get_graph_budget t g s) now) conflict) _ h2 in
      let (row, looked, h4) = bind-ok (or_raise (select_node t g k s) conflict) _ h3 in
      (
        row,
        claim_node_row-selects owner lease now fence row s s'
            (or_raise-ok (select_node t g k s) conflict looked) h4,
      )

  -- A claim that returns found the node ready.
  claim_graph_node-ready :
      (owner : String) (lease now : ℕ) (s : GraphStore) (r : ℕ × GraphStore)
      → claim_graph_node t g k owner lease now s ≡ ok r
      → (row : GraphNodeRow) × (select_node t g k s ≡ some row)
        × (is_node_state row.state ready ≡ true)
  unfolding claim_graph_node claim_node_row
  claim_graph_node-ready owner lease now s r h =
      let (_, _, h1) = bind-ok (raise_if (not (is_identifier owner)) value_error) _ h in
      let (_, _, h2) = bind-ok (raise_if (ltb lease 1 || ltb 3600 lease) value_error) _ h1 in
      let (_, _, h3) =
        bind-ok (raise_if (budget_over (get_graph_budget t g s) now) conflict) _ h2 in
      let (row, looked, h4) = bind-ok (or_raise (select_node t g k s) conflict) _ h3 in
      let (_, at_ready, _) =
        bind-ok (raise_if (not (is_node_state row.state ready)) conflict) _ h4 in
      (
        row,
        or_raise-ok (select_node t g k s) conflict looked,
        ground (arith, raise_if-ok (not (is_node_state row.state ready)) conflict at_ready),
      )

  claimed-check_graph_lease :
      (owner other : String) (until fence fence' now : ℕ) (row : GraphNodeRow)
      → check_graph_lease (some (set_claimed owner fence until row)) other fence' now ≡ (
          if owner == other && (eqb fence fence' && not (leb until now))
          then ok tt
          else err conflict)
  unfolding check_graph_lease lease_over is_node_state
  claimed-check_graph_lease owner other until fence fence' now row = ground arith

  -- After a claim of a node that returns, exactly its owner holds the node's lease, at exactly the fence of the
  -- claim and until exactly the end of the lease; every other check of a lease raises, and so does every claim.
  pub claimed_lease :
      (owner : String) (lease now fence : ℕ) (s s' : GraphStore)
      → claim_graph_node t g k owner lease now s ≡ ok (fence, s')
      → ((other : String) (fence' now' : ℕ)
          → require_graph_lease t g k other fence' now' s' ≡ (
              if owner == other && (eqb fence fence' && not (leb (now + lease * 1_000_000) now'))
              then ok tt
              else err conflict))
        × ((other : String) (lease' now' : ℕ) (r : ℕ × GraphStore)
            → ¬ (claim_graph_node t g k other lease' now' s' ≡ ok r))
  unfolding require_graph_lease
  claimed_lease owner lease now fence s s' h =
      let (row, found) = claim_graph_node-selects owner lease now fence s s' h in
      (
        (λ other fence' now'. rw found (
            claimed-check_graph_lease owner other (now + lease * 1_000_000) fence fence' now' row)),
        λ other lease' now' r again.
            let (row', found', at_ready) = claim_graph_node-ready other lease' now' s' r again in
            let same = some_inj (sym found ∙ found') in
            running-not_ready (
              subst (λ (y : GraphNodeRow). is_node_state y.state ready ≡ true) (sym same) at_ready),
      )
