-- ===== src/Inference/Router/Order.antt =====
-- Which deployments `_ordered_deployments` of backend/inference/router.py puts in order.
use ryuk.Prelude.{
  ℕ, String, Bool, true, not, Option, none, some, List, [], ◌∷◌, ◌++◌, ◌≡◌, ap, sym, ◌⊎◌, inl, inr,
  filter, Bool-cases, Has, is_empty, ◌==◌, some_inj,
}
use mathlib.Core.Path.{subst}
use ryuk.Prelude.Dict.{Dict, lookup, insert, lookup-insert}
use ryuk.Prelude.Result.{Result, ok, err, bind-ok, ok_inj, or_raise, or_raise-ok, key_error}
use ryuk.Inference.Contracts.{InferenceTask, RoutingDecision}
use ryuk.Inference.Policy.{rank_candidates}
use ryuk.Inference.Registry.{RegisteredDeployment}
use ryuk.Inference.Runtime.{RuntimeStateStore}
use ryuk.Inference.Router.{
  returns, prefer, is_on, is_eligible, policy_candidates, deployments_by_id, pick_all,
  order_eligible, as_outcome, order_all, ordered_deployments,
}

Has-filter :
    (p : RegisteredDeployment → Bool) (ds : List RegisteredDeployment) (d : RegisteredDeployment)
    → Has (filter p ds) d
    → Has ds d × (p d ≡ true)
unfolding filter
Has-filter p [] d h = absurd h
Has-filter p (x ∷ xs) d h = elim (Bool-cases (p x)) [
  | inl passes ↦ elim (rw passes at h) [
    | inl here ↦ (inl here, rw (sym here) passes)
    | inr later ↦ let (found, ok_d) = Has-filter p xs d later in (inr found, ok_d)
  ]
  | inr fails ↦ let (found, ok_d) = Has-filter p xs d (rw fails at h) in (inr found, ok_d)
]

Has-append :
    (xs ys : List RegisteredDeployment) (d : RegisteredDeployment)
    → Has (xs ++ ys) d
    → Has xs d ⊎ Has ys d
Has-append [] ys d h = inr h
Has-append (x ∷ xs) ys d (inl here) = inl (inl here)
Has-append (x ∷ xs) ys d (inr later) = elim (Has-append xs ys d later) [
  | inl left ↦ inl (inr left)
  | inr right ↦ inr right
]

-- A deployment in the dictionary was put there.
deployments_by_id-Has :
    (xs : List RegisteredDeployment) (by_id : Dict RegisteredDeployment) (i : String)
    (d : RegisteredDeployment)
    → lookup i (deployments_by_id xs by_id) ≡ some d
    → Has xs d ⊎ (lookup i by_id ≡ some d)
unfolding deployments_by_id
deployments_by_id-Has [] by_id i d h = inr h
deployments_by_id-Has (x ∷ xs) by_id i d h =
    elim (deployments_by_id-Has xs (insert x.ref.deployment_id x by_id) i d h) [
      | inl later ↦ inl (inr later)
      | inr found ↦ elim (Bool-cases (x.ref.deployment_id == i)) [
        | inl same ↦
            inl (inl (some_inj (rw (lookup-insert x.ref.deployment_id i x by_id, same) at found)))
        | inr differ ↦ inr (rw (lookup-insert x.ref.deployment_id i x by_id, differ) at found)
      ]
    ]

pick_all-Has :
    (xs : List RegisteredDeployment) (is : List String) (queue : List RegisteredDeployment)
    (d : RegisteredDeployment)
    → pick_all (deployments_by_id xs []) is ≡ ok queue
    → Has queue d
    → Has xs d
unfolding pick_all
pick_all-Has xs [] queue d h has =
    absurd (subst (λ (q : List RegisteredDeployment). Has q d) (sym (ok_inj h)) has)
pick_all-Has xs (i ∷ is) queue d h has =
    let (x, found, next) = bind-ok (or_raise (lookup i (deployments_by_id xs [])) key_error) _ h in
    let (later, picked, ended) = bind-ok (pick_all (deployments_by_id xs []) is) _ next in
    elim (subst (λ (q : List RegisteredDeployment). Has q d) (sym (ok_inj ended)) has) [
      | inl here ↦ elim (deployments_by_id-Has xs [] i x (or_raise-ok _ _ found)) [
        | inl registered ↦ subst (Has xs) here registered
        | inr nowhere ↦ absurd (let e : none ≡ some x = unfold lookup in nowhere in cc)
      ]
      | inr there ↦ pick_all-Has xs is later d picked there
    ]

order_eligible-Has :
    (states : Option RuntimeStateStore) (now : ℕ) (task : InferenceTask) (preferred : Option String)
    (eligible queue : List RegisteredDeployment) (decision : RoutingDecision)
    (d : RegisteredDeployment)
    → order_eligible states now task preferred eligible ≡ ok (queue, decision)
    → Has queue d
    → Has eligible d
unfolding order_eligible
order_eligible-Has states now task preferred eligible queue decision d h has =
    let (ranked, ranks, next) =
      bind-ok (rank_candidates task (policy_candidates states now 0 eligible) preferred) _ h in
    let (picked, picks, ended) =
      bind-ok (pick_all (deployments_by_id eligible []) ranked.ordered_deployment_ids) _ next in
    let same : picked ≡ queue = ap (λ r. r.0) (ok_inj ended) in
    pick_all-Has eligible ranked.ordered_deployment_ids picked d picks
      (subst (λ (q : List RegisteredDeployment). Has q d) (sym same) has)

as_outcome-returns :
    {T : Type 0} (r : Result T) (value : T) → as_outcome r ≡ returns value → r ≡ ok value
unfolding as_outcome
as_outcome-returns (ok x) value h = cc
as_outcome-returns (err e) value h = absurd cc

order_all-Has :
    (states : Option RuntimeStateStore) (now : ℕ) (task : InferenceTask) (preferred : Option String)
    (ds queue : List RegisteredDeployment) (decision : RoutingDecision) (d : RegisteredDeployment)
    → order_all states now task preferred ds ≡ returns (queue, decision)
    → Has queue d
    → Has ds d × (is_eligible now task d ≡ true)
unfolding order_all
order_all-Has states now task preferred ds queue decision d h has =
    elim (Bool-cases (is_empty (filter (is_eligible now task) ds))) [
      | inl nothing ↦ absurd (let e = rw nothing at h in cc)
      | inr something ↦
          let ordered = as_outcome-returns _ _ (rw something at h) in
          Has-filter (is_eligible now task) ds d
            (order_eligible-Has states now task preferred _ queue decision d ordered has)
    ]

pub Has-prefer :
    (name : String) (ds : List RegisteredDeployment) (d : RegisteredDeployment)
    → Has (prefer name ds) d
    → Has ds d
unfolding prefer
Has-prefer name ds d h = elim (Has-append (filter (is_on name) ds) _ d h) [
  | inl preferred ↦ (Has-filter (is_on name) ds d preferred).0
  | inr other ↦ (Has-filter (λ x. not (is_on name x)) ds d other).0
]

-- Every deployment in the order of a task is registered and eligible for the task.
pub ordered_deployments-Has :
    (states : Option RuntimeStateStore) (now : ℕ) (task : InferenceTask) (preferred : Option String)
    (ds queue : List RegisteredDeployment) (decision : RoutingDecision) (d : RegisteredDeployment)
    → ordered_deployments states now task preferred ds ≡ returns (queue, decision)
    → Has queue d
    → Has ds d × (is_eligible now task d ≡ true)
unfolding ordered_deployments
ordered_deployments-Has states now task none ds queue decision d h has =
    order_all-Has states now task none ds queue decision d h has
ordered_deployments-Has states now task (some name) ds queue decision d h has =
    elim (Bool-cases (is_empty (filter (is_on name) ds))) [
      | inl nothing ↦ absurd (let e = rw nothing at h in cc)
      | inr something ↦
          let (found, eligible) =
            order_all-Has states now task (some name) (prefer name ds) queue decision d
              (rw something at h) has in
          (Has-prefer name ds d found, eligible)
    ]
