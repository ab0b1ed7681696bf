-- ===== src/Inference/Runtime/Routing.antt =====
-- When backend/inference/runtime.py lets a deployment be tried again.
use ryuk.Prelude.{
  ℕ, String, ◌+◌, Bool, true, false, not, ◌&&◌, ◌||◌, List, [], ◌∷◌, ◌==◌, ◌≡◌, refl, inl, inr, leb,
  arith, eq_refl, text-cases,
}
use ryuk.Inference.Contracts.{is_failed, ExecutionAttempt}
use ryuk.Inference.Runtime.{
  RuntimeStateStore, DeploymentRuntimeState, is_routable, is_stale, get, record_attempt, probe,
  Probe, probe_answer, set_observed, is_up, is_accepting, is_ready_now, is_exhausted, is_code,
  init_store,
}
use ryuk.Inference.Runtime.History.{
  Observation, attempted, probed, observe, observe_all, IsOwn, observe-IsOwn, record_attempt-get,
  get-put, get-init_store,
}

-- The attempt failed for want of the deployment or of its capacity.
abbrev pub is_refused : ExecutionAttempt → Bool
is_refused a =
    is_failed a.outcome
    && (is_code a.failure_code "capacity_exceeded"
        || is_code a.failure_code "deployment_unavailable")

-- A call that can make the deployment acceptable again: a success of its own, or a probe of it.
abbrev pub is_renewal : String → Observation → Bool
is_renewal i (attempted a) = a.deployment_id == i && not (is_failed a.outcome)
is_renewal i (probed ttl d observed_at ended answer) = d == i

abbrev pub none_renews : String → List Observation → Bool
none_renews i [] = true
none_renews i (o ∷ os) = not (is_renewal i o) && none_renews i os

set_observed-refused :
    (state : DeploymentRuntimeState) (a : ExecutionAttempt)
    → is_refused a ≡ true
    → is_accepting (set_observed state a).admission ≡ false
unfolding set_observed is_accepting
set_observed-refused state a h = ground arith

set_observed-failed :
    (state : DeploymentRuntimeState) (a : ExecutionAttempt)
    → is_failed a.outcome ≡ true
    → is_accepting state.admission ≡ false
    → is_accepting (set_observed state a).admission ≡ false
unfolding set_observed is_accepting
set_observed-failed state a f h = ground arith

observe-rejecting :
    (i : String) (store : RuntimeStateStore) (o : Observation)
    → IsOwn store
    → is_renewal i o ≡ false
    → is_accepting (get store i).admission ≡ false
    → is_accepting (get (observe store o) i).admission ≡ false
unfolding observe probe
observe-rejecting i store (attempted a) own r h = elim (text-cases a.deployment_id i) [
  | inl same ↦
      rw (record_attempt-get i store a (own a.deployment_id), same, eq_refl)
        (set_observed-failed (get store i) _ (ground (arith, eq_refl i)) h)
  | inr differ ↦ rw (record_attempt-get i store a (own a.deployment_id), differ) h
]
observe-rejecting i store (probed ttl d observed_at ended answer) own r h =
    rw (get-put i _ store, r) h

observe_all-rejecting :
    (i : String) (store : RuntimeStateStore) (os : List Observation)
    → IsOwn store
    → none_renews i os ≡ true
    → is_accepting (get store i).admission ≡ false
    → is_accepting (get (observe_all store os) i).admission ≡ false
unfolding observe_all
observe_all-rejecting i store [] own r h = h
observe_all-rejecting i store (o ∷ os) own r h =
    observe_all-rejecting i (observe store o) os (observe-IsOwn store o own) (ground arith)
      (observe-rejecting i store o own (ground arith) h)

observe_all-IsOwn :
    (store : RuntimeStateStore) (os : List Observation) → IsOwn store → IsOwn (observe_all store os)
unfolding observe_all
observe_all-IsOwn store [] own = own
observe_all-IsOwn store (o ∷ os) own =
    observe_all-IsOwn (observe store o) os (observe-IsOwn store o own)

-- After an attempt that fails because the deployment is unavailable or out of capacity, whatever came
-- before and whatever is then attempted and probed, the deployment is routable at no time, as long as
-- no attempt on it succeeds and no probe asks it.
pub refused_until_renewed :
    (ids : List String) (before after : List Observation) (a : ExecutionAttempt) (now : ℕ)
    → is_refused a ≡ true
    → none_renews a.deployment_id after ≡ true
    → is_routable
        (get
          (observe_all (record_attempt (observe_all (init_store ids) before) a) after)
          a.deployment_id)
        now
      ≡ false
unfolding is_routable
refused_until_renewed ids before after a now h r =
    let start = observe_all-IsOwn (init_store ids) before (λ j. rw (get-init_store ids j) refl) in
    let own : IsOwn (record_attempt (observe_all (init_store ids) before) a) =
      unfold observe in observe-IsOwn (observe_all (init_store ids) before) (attempted a) start in
    let at_once : is_accepting
          (get (record_attempt (observe_all (init_store ids) before) a) a.deployment_id).admission
        ≡ false =
      rw
        (
          record_attempt-get a.deployment_id (observe_all (init_store ids) before) a
              (start a.deployment_id),
          eq_refl,
        )
        (set_observed-refused (get (observe_all (init_store ids) before) a.deployment_id) a h) in
    let later = observe_all-rejecting a.deployment_id _ after own r at_once in ground (arith, later)

-- A probe that the engine answers with yes makes its deployment routable for exactly the time to live;
-- one that is answered with no, or that raises, makes it routable at no time.
pub probe-is_routable :
    (store : RuntimeStateStore) (ttl : ℕ) (i : String) (observed_at ended now : ℕ) (answer : Probe)
    → is_routable (get (probe ttl i observed_at ended answer store) i) now
      ≡ (probe_answer answer && not (leb (observed_at + ttl) now))
unfolding probe is_routable is_stale is_up is_ready_now is_accepting is_exhausted
probe-is_routable store ttl i observed_at ended now answer =
    rw (get-put i _ store, eq_refl) (ground arith)
