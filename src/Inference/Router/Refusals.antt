-- ===== src/Inference/Router/Refusals.antt =====
-- Which tasks `_ordered_deployments` of backend/inference/router.py refuses, and what it orders for
-- the others.
use ryuk.Prelude.{
  ℕ, sym, ◌∙◌, Has, false, String, true, false, Option, none, some, List, [], ◌∷◌, ◌≡◌, refl, ◌⊎◌,
  inl, inr, filter, Bool-cases, is_empty, All,
}
use ryuk.Inference.Contracts.{InferenceTask, RoutingDecision}
use mathlib.Core.List.Perm
use ryuk.Inference.Errors.{
  capability_mismatch, unknown_engine_preference, PublicRejection, make_failure,
}
use ryuk.Prelude.Text.{same_lower}
use ryuk.Inference.Router.Preference.{prefer-Perm, Perm-is_empty, prefer-All}
use ryuk.Inference.Router.Rejections.{
  IsReported, IsFounded, public_rejections-IsReported, public_rejections-IsFounded,
}
use ryuk.Inference.Router.Order.{Has-prefer}
use ryuk.Inference.Registry.{RegisteredDeployment}
use ryuk.Inference.Runtime.{RuntimeStateStore}
use ryuk.Inference.Router.{
  Outcome, returns, raises, crashes, prefer, is_on, is_eligible, as_outcome, order_all,
  ordered_deployments,
}
use ryuk.Inference.Router.Ordering.{IsOrder, order_eligible-ends}

-- All the rejections of the deployments are reported, and no others.
abbrev pub IsRejection :
    ℕ → InferenceTask → List RegisteredDeployment → Option (List PublicRejection) → Type 0
IsRejection now task ds none = ⊥
IsRejection now task ds (some reports) =
    All (IsReported now task reports) ds × All (IsFounded now task ds) reports

-- A deployment runs on the preferred engine, if one is preferred.
abbrev pub IsKnown : Option String → List RegisteredDeployment → Type 0
IsKnown none ds = Unit
IsKnown (some name) ds =
    (d : RegisteredDeployment) × Has ds d × (same_lower d.engine.name name ≡ true)

-- An engine is preferred, and no deployment runs on it.
abbrev pub IsUnknown : Option String → List RegisteredDeployment → Type 0
IsUnknown none ds = ⊥
IsUnknown (some name) ds =
    All (λ (d : RegisteredDeployment). same_lower d.engine.name name ≡ false) ds

-- How the order of a task's deployments comes out.
abbrev pub IsOrderingFor :
    ℕ
    → InferenceTask
    → List RegisteredDeployment
    → Option String
    → Outcome (List RegisteredDeployment × RoutingDecision)
    → Type 0
IsOrderingFor now task ds preferred (returns (queue, decision)) =
    IsKnown preferred ds
    × (is_empty (filter (is_eligible now task) ds) ≡ false)
    × IsOrder (filter (is_eligible now task) ds) queue decision
IsOrderingFor now task ds preferred (raises f) =
    (IsUnknown preferred ds × (f.kind ≡ unknown_engine_preference))
    ⊎ (IsKnown preferred ds
        × (is_empty (filter (is_eligible now task) ds) ≡ true)
        × (f.kind ≡ capability_mismatch)
        × IsRejection now task ds f.context.rejections)
IsOrderingFor now task ds preferred (crashes e) = ⊥

order_all-IsOrdering :
    (states : Option RuntimeStateStore) (now : ℕ) (task : InferenceTask) (preferred : Option String)
    (ds : List RegisteredDeployment)
    → IsOrderingFor now task ds none (order_all states now task preferred ds)
unfolding order_all as_outcome
order_all-IsOrdering states now task preferred ds =
    elim (Bool-cases (is_empty (filter (is_eligible now task) ds))) [
      | inl nothing ↦ rw nothing (
          inr (
            tt,
            nothing,
            refl,
            (public_rejections-IsReported now task ds, public_rejections-IsFounded now task ds),
          ))
      | inr something ↦
          let (queue, decision, ends, order) =
            order_eligible-ends states now task preferred (filter (is_eligible now task) ds) in
          rw (something, ends) (tt, something, order)
    ]

prefer-IsFounded :
    (now : ℕ) (task : InferenceTask) (name : String) (ds : List RegisteredDeployment)
    (reports : List PublicRejection)
    → All (IsFounded now task (prefer name ds)) reports
    → All (IsFounded now task ds) reports
prefer-IsFounded now task name ds [] h = tt
prefer-IsFounded now task name ds (x ∷ xs) ((d, registered, r, found, same), h) =
    ((d, Has-prefer name ds d registered, r, found, same), prefer-IsFounded now task name ds xs h)

prefer-IsRejection :
    (now : ℕ) (task : InferenceTask) (name : String) (ds : List RegisteredDeployment)
    (o : Option (List PublicRejection))
    → IsRejection now task (prefer name ds) o
    → IsRejection now task ds o
prefer-IsRejection now task name ds none h = h
prefer-IsRejection now task name ds (some reports) (all, founded) = (
  prefer-All (IsReported now task reports) name ds all,
  prefer-IsFounded now task name ds reports founded,
)

-- The order of preference neither drops a deployment nor adds one.
prefer-IsOrderingFor :
    (now : ℕ) (task : InferenceTask) (name : String) (ds : List RegisteredDeployment)
    (outcome : Outcome (List RegisteredDeployment × RoutingDecision))
    → IsKnown (some name) ds
    → IsOrderingFor now task (prefer name ds) none outcome
    → IsOrderingFor now task ds (some name) outcome
prefer-IsOrderingFor now task name ds (returns (queue, decision)) known
      (nothing, something, (same, perm)) =
    let parts = prefer-Perm (is_eligible now task) name ds in
    (
      known,
      sym (
            Perm-is_empty (filter (is_eligible now task) (prefer name ds))
              (filter (is_eligible now task) ds) parts)
          ∙ something,
      (same, Perm.trans perm (Perm.map (λ d. d.ref.deployment_id) parts)),
    )
prefer-IsOrderingFor now task name ds (raises f) known (inl (no_preference, kind)) =
    absurd no_preference
prefer-IsOrderingFor now task name ds (raises f) known (inr (nothing, all, kind, rejected)) =
    let parts = prefer-Perm (is_eligible now task) name ds in
    inr (
      known,
      sym (
            Perm-is_empty (filter (is_eligible now task) (prefer name ds))
              (filter (is_eligible now task) ds) parts)
          ∙ all,
      kind,
      prefer-IsRejection now task name ds f.context.rejections rejected,
    )
prefer-IsOrderingFor now task name ds (crashes e) known h = h

nothing-IsUnknown :
    (name : String) (ds : List RegisteredDeployment)
    → is_empty (filter (is_on name) ds) ≡ true
    → IsUnknown (some name) ds
unfolding filter is_on
nothing-IsUnknown name [] h = tt
nothing-IsUnknown name (d ∷ ds) h = elim (Bool-cases (same_lower d.engine.name name)) [
  | inl on ↦ absurd (let e = rw on at h in cc)
  | inr off ↦ (off, nothing-IsUnknown name ds (rw off at h))
]

something-IsKnown :
    (name : String) (ds : List RegisteredDeployment)
    → is_empty (filter (is_on name) ds) ≡ false
    → IsKnown (some name) ds
unfolding filter is_on
something-IsKnown name [] h = absurd cc
something-IsKnown name (d ∷ ds) h = elim (Bool-cases (same_lower d.engine.name name)) [
  | inl on ↦ (d, inl refl, on)
  | inr off ↦
      let (x, registered, on) = something-IsKnown name ds (rw off at h) in (x, inr registered, on)
]

-- The order of a task's deployments fails in two ways alone. A preference for an engine that no
-- deployment runs on is refused as unknown; otherwise a task that no deployment is eligible for is
-- refused as a capability mismatch, with all the rejections of every deployment and no others. Otherwise
-- all eligible deployments are put in order, each as often as it is registered, on the preferred engine
-- or not.
pub ordered_deployments-ends :
    (states : Option RuntimeStateStore) (now : ℕ) (task : InferenceTask) (preferred : Option String)
    (ds : List RegisteredDeployment)
    → IsOrderingFor now task ds preferred (ordered_deployments states now task preferred ds)
unfolding ordered_deployments make_failure
ordered_deployments-ends states now task none ds = order_all-IsOrdering states now task none ds
ordered_deployments-ends states now task (some name) ds =
    elim (Bool-cases (is_empty (filter (is_on name) ds))) [
      | inl unknown ↦ rw unknown (inl (nothing-IsUnknown name ds unknown, refl))
      | inr known ↦ rw known (
          prefer-IsOrderingFor now task name ds _ (something-IsKnown name ds known)
            (order_all-IsOrdering states now task (some name) (prefer name ds)))
    ]
