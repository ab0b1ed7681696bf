-- ===== src/Inference/Router/Loop/Calls.antt =====
-- What holds of each call of `generate_task` of backend/inference/router.py.
use ryuk.Prelude.{
  ℕ, String, ◌+◌, ◌≤◌, max, true, false, Option, none, some, List, [], ◌∷◌, ◌≡◌, refl, length,
  contains, arith, All, Has,
}
use ryuk.Inference.Contracts.{InferenceTask, ExecutionAttempt, RoutingDecision}
use ryuk.Inference.Registry.{RegisteredDeployment, all_deployments, DeploymentRegistry}
use ryuk.Inference.Router.{
  InferenceRouter, AnyRegistry, engines, deployments, Outcome, returns, raises, crashes,
  is_eligible,
}
use ryuk.Inference.Router.Order.{ordered_deployments-Has}
use ryuk.Inference.Router.Pass.{Turn}
use ryuk.Inference.Router.Loop.{Start, generate_task, attempt_in_order, order_in, call_of, Finished}
use ryuk.Inference.Router.Loop.Invariant.{IsMade, IsNumbered, IsCharged}
use ryuk.Inference.Router.Loop.Guarantees.{run_passes-attempts}
use ryuk.Workflows.Budget.{WorkflowBudget}

-- The attempt was made on a deployment that is registered, eligible for the task and whose circuit is
-- not open.
abbrev pub IsAllowed : InferenceRouter → InferenceTask → Start → ExecutionAttempt → Type 0
IsAllowed router task start a =
    (registry : DeploymentRegistry) × (d : RegisteredDeployment) × (router.registry
      ≡ deployments registry)
    × Has (all_deployments registry) d
    × (is_eligible start.wall task d ≡ true)
    × (contains d.ref.deployment_id router.circuit_open_deployment_ids ≡ false)
    × (a.deployment_id ≡ d.ref.deployment_id)
    × (a.configured_deployment ≡ some d.ref)

-- The budget has this many attempts left at least.
abbrev pub IsWithin : Option WorkflowBudget → ℕ → Type 0
IsWithin none n = Unit
IsWithin (some b) n = b.attempts + n ≤ max b.attempts b.max_attempts

IsCharged-IsWithin :
    (first now : Option WorkflowBudget) (n m : ℕ) → n ≤ m → IsCharged first now m → IsWithin first n
IsCharged-IsWithin none now n m le charged = tt
IsCharged-IsWithin (some b) none n m le charged = absurd charged
IsCharged-IsWithin (some b) (some c) n m le charged = omega (arith, charged.0, charged.2)

All-map :
    (P Q : ExecutionAttempt → Type 0) (xs : List ExecutionAttempt)
    → ((a : ExecutionAttempt) → P a → Q a)
    → All P xs
    → All Q xs
All-map P Q [] f h = tt
All-map P Q (x ∷ xs) f h = (f x h.0, All-map P Q xs f h.1)

abbrev pub IsAttemptBound :
    InferenceRouter → InferenceTask → Option WorkflowBudget → Start → Finished → Type 0
IsAttemptBound router task budget start finished =
    (length finished.last.attempts ≤ router.policy.max_attempts)
    × IsWithin budget (length finished.last.attempts)
    × IsNumbered 1 finished.last.attempts
    × All (IsAllowed router task start) finished.last.attempts

IsWithin-none : (budget : Option WorkflowBudget) → IsWithin budget 0
IsWithin-none none = tt
IsWithin-none (some b) = omega arith

attempt_in_order-IsBounded :
    (router : InferenceRouter) (task : InferenceTask) (preferred : Option String)
    (budget : Option WorkflowBudget) (start : Start) (turns : ℕ → Turn)
    (order : Outcome (List RegisteredDeployment × RoutingDecision)) (registry : AnyRegistry)
    → router.registry ≡ registry
    → order_in router task preferred start.wall registry ≡ order
    → IsAttemptBound router task budget start
        (attempt_in_order router task budget start turns order)
unfolding attempt_in_order order_in
attempt_in_order-IsBounded router task preferred budget start turns (raises f) registry same e =
    (omega arith, IsWithin-none budget, tt, tt)
attempt_in_order-IsBounded router task preferred budget start turns (crashes x) registry same e =
    (omega arith, IsWithin-none budget, tt, tt)
attempt_in_order-IsBounded router task preferred budget start turns (returns order) (engines es)
      same e =
    absurd cc
attempt_in_order-IsBounded router task preferred budget start turns (returns order)
      (deployments registry) same e =
    let call = call_of router task start order.1 in
    let (ends, closed, told) =
      run_passes-attempts call turns order.0 budget router.runtime_states in
    (
      closed.bounded,
      IsCharged-IsWithin budget _ _ closed.reserved closed.recorded closed.charged,
      closed.numbered,
      All-map (IsMade call order.0) (IsAllowed router task start) _
          (λ a (d, has, shut, same_id, same_ref).
            let (registered, eligible) =
              ordered_deployments-Has router.runtime_states start.wall task preferred
                (all_deployments registry) order.0 order.1 d e has in
            (registry, d, same, registered, eligible, shut, same_id, same_ref))
          closed.made,
    )

-- However a call of `generate_task` ends, it has made no more attempts than the policy allows and the
-- budget has left; they are numbered from one; and each was made on a registered deployment that is
-- eligible for the task and whose circuit is not open.
pub generate_task-IsAttemptBound :
    (router : InferenceRouter) (task : InferenceTask) (preferred : Option String)
    (budget : Option WorkflowBudget) (start : Start) (turns : ℕ → Turn)
    → IsAttemptBound router task budget start
        (generate_task router task preferred budget start turns)
unfolding generate_task
generate_task-IsAttemptBound router task preferred budget start turns =
    attempt_in_order-IsBounded router task preferred budget start turns _ router.registry refl refl
