-- ===== src/Inference/Router/Ordering.antt =====
-- How backend/inference/router.py puts the eligible deployments in order.
use ryuk.Prelude.{
  ℕ, suc, String, Option, some, List, [], ◌∷◌, ◌≡◌, refl, ap, map, inl, inr, Bool-cases, ◌==◌, All,
  eq_iff, eq_refl,
}
use mathlib.Core.Path.{subst}
use mathlib.Core.List.{Perm}
use ryuk.Prelude.Dict.{Dict, lookup, insert, lookup-insert}
use ryuk.Prelude.Result.{ok}
use ryuk.Inference.Contracts.{InferenceTask, RoutingDecision, RoutingScore}
use ryuk.Inference.Policy.{score}
use ryuk.Inference.Policy.Ranking.{rank_candidates-All}
use ryuk.Inference.Registry.{RegisteredDeployment}
use ryuk.Inference.Runtime.{RuntimeStateStore}
use ryuk.Inference.Router.{policy_candidates, deployments_by_id, pick_all, order_eligible}

abbrev pub ids_of : List RegisteredDeployment → List String
ids_of = map (λ d. d.ref.deployment_id)

-- The key has a deployment of that name.
abbrev IsKeyedById : Dict RegisteredDeployment → String → Type 0
IsKeyedById by_id i =
    (d : RegisteredDeployment) × (lookup i by_id ≡ some d) × (d.ref.deployment_id ≡ i)

deployments_by_id-keeps :
    (ds : List RegisteredDeployment) (by_id : Dict RegisteredDeployment) (i : String)
    → IsKeyedById by_id i
    → IsKeyedById (deployments_by_id ds by_id) i
unfolding deployments_by_id
deployments_by_id-keeps [] by_id i h = h
deployments_by_id-keeps (x ∷ xs) by_id i (d, found, same_id) =
    elim (Bool-cases (x.ref.deployment_id == i)) [
      | inl same ↦ deployments_by_id-keeps xs (insert x.ref.deployment_id x by_id) i (
        x,
        rw (lookup-insert x.ref.deployment_id i x by_id, same) refl,
        (eq_iff x.ref.deployment_id i).0 same,
      )
      | inr differ ↦
          deployments_by_id-keeps xs (insert x.ref.deployment_id x by_id) i
            (d, rw (lookup-insert x.ref.deployment_id i x by_id, differ) found, same_id)
    ]

deployments_by_id-IsKeyed :
    (ds : List RegisteredDeployment) (by_id : Dict RegisteredDeployment)
    → All (IsKeyedById (deployments_by_id ds by_id)) (ids_of ds)
unfolding deployments_by_id
deployments_by_id-IsKeyed [] by_id = tt
deployments_by_id-IsKeyed (x ∷ xs) by_id = (
  deployments_by_id-keeps xs (insert x.ref.deployment_id x by_id) x.ref.deployment_id
      (x, rw (lookup-insert x.ref.deployment_id x.ref.deployment_id x by_id, eq_refl) refl, refl),
  deployments_by_id-IsKeyed xs (insert x.ref.deployment_id x by_id),
)

-- The names of the scores are those of the deployments.
ids_of_scores :
    (states : Option RuntimeStateStore) (now n : ℕ) (task : InferenceTask)
    (preferred : Option String) (ds : List RegisteredDeployment)
    → map
        (λ (s : RoutingScore). s.deployment_id)
        (map (score task preferred) (policy_candidates states now n ds))
      ≡ ids_of ds
unfolding policy_candidates score
ids_of_scores states now n task preferred [] = refl
ids_of_scores states now n task preferred (d ∷ ds) =
    ap (◌∷◌ d.ref.deployment_id) (ids_of_scores states now (suc n) task preferred ds)

pick_all-ends :
    (by_id : Dict RegisteredDeployment) (is : List String)
    → All (IsKeyedById by_id) is
    → (queue : List RegisteredDeployment) × (pick_all by_id is ≡ ok queue) × (ids_of queue ≡ is)
unfolding pick_all
pick_all-ends by_id [] h = ([], refl, refl)
pick_all-ends by_id (i ∷ is) ((d, found, same), h) =
    let (queue, picks, ids) = pick_all-ends by_id is h in (d ∷ queue, rw (found, picks) refl, cc)

keyed_scores :
    (by_id : Dict RegisteredDeployment) (scores : List RoutingScore) (ids : List String)
    → map (λ (s : RoutingScore). s.deployment_id) scores ≡ ids
    → All (IsKeyedById by_id) ids
    → All (λ (s : RoutingScore). IsKeyedById by_id s.deployment_id) scores
keyed_scores by_id [] ids same h = tt
keyed_scores by_id (s ∷ ss) [] same h = absurd cc
keyed_scores by_id (s ∷ ss) (i ∷ is) same (here, h) =
    let head : i ≡ s.deployment_id = cc in
    let rests : map (λ (x : RoutingScore). x.deployment_id) ss ≡ is = cc in
    (subst (IsKeyedById by_id) head here, keyed_scores by_id ss is rests h)

-- The order of eligible deployments.
abbrev pub IsOrder :
    List RegisteredDeployment → List RegisteredDeployment → RoutingDecision → Type 0
IsOrder eligible queue decision =
    (ids_of queue ≡ decision.ordered_deployment_ids)
    × Perm decision.ordered_deployment_ids (ids_of eligible)

pub order_eligible-ends :
    (states : Option RuntimeStateStore) (now : ℕ) (task : InferenceTask) (preferred : Option String)
    (eligible : List RegisteredDeployment)
    → (queue : List RegisteredDeployment) × (decision : RoutingDecision) × (order_eligible states
          now task preferred eligible
        ≡ ok (queue, decision))
      × IsOrder eligible queue decision
unfolding order_eligible
order_eligible-ends states now task preferred eligible =
    let by_id = deployments_by_id eligible [] in
    let candidates = policy_candidates states now 0 eligible in
    let names = ids_of_scores states now 0 task preferred eligible in
    let (decision, ranks, keyed, same, perm) =
      rank_candidates-All (IsKeyedById by_id) task preferred candidates (
        keyed_scores by_id (map (score task preferred) candidates) (ids_of eligible) names
          (deployments_by_id-IsKeyed eligible [])) in
    let (queue, picks, ids) = pick_all-ends by_id decision.ordered_deployment_ids keyed in
    (
      queue,
      decision,
      rw (ranks, picks) refl,
      (ids, subst (Perm decision.ordered_deployment_ids) names perm),
    )
