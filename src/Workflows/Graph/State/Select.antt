-- ===== src/Workflows/Graph/State/Select.antt =====
-- The tuple of states that `transition` of backend/workflows/graph.py builds from its dict.
use ryuk.Prelude.{
  String, ◌≡◌, refl, ◌∙◌, true, false, some, List, [], ◌∷◌, arith, inl, inr, ◌==◌, eq_iff, eq_refl,
  text-cases, same_names, is_distinct, contains,
}
use ryuk.Prelude.Dict.{lookup, keys}
use ryuk.Prelude.Result.{ok}
use ryuk.Workflows.Graph.{GraphNode, node_ids}
use ryuk.Workflows.Graph.State.{States, select_states}

pub same_names-eq : (xs ys : List String) → same_names xs ys ≡ true → xs ≡ ys
unfolding same_names
same_names-eq [] [] h = refl
same_names-eq [] (y ∷ ys) h = absurd (cc)
same_names-eq (x ∷ xs) [] h = absurd (cc)
same_names-eq (x ∷ xs) (y ∷ ys) h = ground (arith, eq_iff x y, same_names-eq xs ys)

pub same_names_refl : (xs : List String) → same_names xs xs ≡ true
unfolding same_names
same_names_refl [] = refl
same_names_refl (x ∷ xs) = rw (eq_refl, same_names_refl xs)

contains_ne :
    (k j : String) (ks : List String)
    → contains k ks ≡ false
    → contains j ks ≡ true
    → (k == j) ≡ false
contains_ne k j [] h e = absurd (ground arith)
contains_ne k j (x ∷ xs) h e = elim (text-cases k j) [
  | inl same ↦ absurd (ground (arith, same))
  | inr differ ↦ differ
]

-- `part` is what is left of `whole` behind other names.
module _ (whole : States) where
  select_part :
      (nodes : List GraphNode) (part : States)
      → keys part ≡ node_ids nodes
      → is_distinct (node_ids nodes) ≡ true
      → ((k : String) → contains k (node_ids nodes) ≡ true → lookup k whole ≡ lookup k part)
      → select_states whole nodes ≡ ok part
  unfolding select_states lookup is_distinct
  select_part [] [] e d h = refl
  select_part [] (p ∷ ps) e d h = absurd (cc)
  select_part (n ∷ ns) [] e d h = absurd (cc)
  select_part (n ∷ ns) ((k, s) ∷ ps) e d h =
      let head : k ≡ n.node_id = cc in
      let tail : keys ps ≡ node_ids ns = cc in
      let alone : contains n.node_id (node_ids ns) ≡ false = ground arith in
      let found : lookup n.node_id whole ≡ some s = h n.node_id (rw eq_refl) ∙ rw (head, eq_refl) in
      let rest : select_states whole ns ≡ ok ps =
        select_part ns ps tail (ground arith)
          (λ j c. h j (ground arith) ∙ rw (head, contains_ne n.node_id j (node_ids ns) alone c)) in
      rw (found, rest, head)

-- States that are in the nodes' order are selected as they are.
pub select_states_self :
    (nodes : List GraphNode) (st : States)
    → keys st ≡ node_ids nodes
    → is_distinct (node_ids nodes) ≡ true
    → select_states st nodes ≡ ok st
select_states_self nodes st e d = select_part st nodes st e d (λ k h. refl)
