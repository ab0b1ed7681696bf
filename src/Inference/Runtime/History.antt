-- ===== src/Inference/Runtime/History.antt =====
-- The windows of outcomes, and the routing that they lead to, in backend/inference/runtime.py.
use ryuk.Prelude.{
  ℕ, String, ◌+◌, ◌-◌, ◌≤◌, Bool, true, false, none, some, List, [], ◌∷◌, ◌++◌, ◌==◌, ◌≡◌, refl, ap,
  ◌∙◌, sym, inl, inr, leb, if◌then◌else◌, length, drop, suc, arith, eq_iff, eq_refl, zero,
  length-append, length-drop, Bool-cases, text-cases,
}
use mathlib.Core.Path.{subst}
use mathlib.Core.List.{append-nil, append_assoc}
use ryuk.Prelude.Dict.{Dict, lookup, insert, lookup-insert}
use ryuk.Inference.Contracts.{is_failed, ExecutionAttempt}
use ryuk.Inference.Runtime.{
  RuntimeStateStore, DeploymentRuntimeState, RuntimeSummary, init_store, get, put, record_attempt,
  probe, Probe, history_of, keep_recent, count_failed, set_observed, summarise, unknown_state,
  init_states, init_history,
}

-- A call that changes the store: an attempt that ended, or a probe of a deployment.
pub data Observation : Type 0 where
  attempted : ExecutionAttempt → Observation
  probed : ℕ → String → ℕ → ℕ → Probe → Observation

unfoldable pub observe : RuntimeStateStore → Observation → RuntimeStateStore
observe store (attempted attempt) = record_attempt store attempt
observe store (probed ttl i observed_at ended answer) = probe ttl i observed_at ended answer store

unfoldable pub observe_all : RuntimeStateStore → List Observation → RuntimeStateStore
observe_all store [] = store
observe_all store (o ∷ os) = observe_all (observe store o) os

-- The outcomes of a deployment's attempts among the calls, in their order.
unfoldable pub outcomes_of : String → List Observation → List Bool
outcomes_of i [] = []
outcomes_of i (attempted attempt ∷ os) =
    let rest = outcomes_of i os in
    if attempt.deployment_id == i then is_failed attempt.outcome ∷ rest else rest
outcomes_of i (probed ttl j observed_at ended answer ∷ os) = outcomes_of i os

-- The last twenty.
abbrev pub last_twenty : List Bool → List Bool
last_twenty outcomes = drop (length outcomes - 20) outcomes

-- The counts that a summary shows are those of the outcomes.
abbrev pub IsSummaryOf : List Bool → RuntimeSummary → Type 0
IsSummaryOf outcomes summary =
    (summary.attempt_count ≡ length outcomes)
    × (summary.failure_count ≡ count_failed outcomes)
    × (summary.recent_failure_rate
        ≡ (if leb (length outcomes) 0 then none else some (count_failed outcomes, length outcomes)))

drop-append : (n : ℕ) (xs ys : List Bool) → n ≤ length xs → drop n (xs ++ ys) ≡ drop n xs ++ ys
drop-append zero xs ys h = refl
drop-append (suc n) [] ys h = absurd (omega arith)
drop-append (suc n) (x ∷ xs) ys h = drop-append n xs ys (omega arith)

drop-drop : (m n k : ℕ) (xs : List Bool) → n + m ≡ k → drop m (drop n xs) ≡ drop k xs
drop-drop m zero k xs e = let same : m ≡ k = omega arith in rw same refl
drop-drop zero (suc n) zero xs e = absurd (omega arith)
drop-drop (suc m) (suc n) zero xs e = absurd (omega arith)
drop-drop zero (suc n) (suc k) [] e = refl
drop-drop (suc m) (suc n) (suc k) [] e = refl
drop-drop m (suc n) (suc k) (x ∷ xs) e = drop-drop m n k xs (omega arith)

-- The window after one more outcome is the window of the longer history.
keep_recent-last_twenty :
    (xs : List Bool) (b : Bool) → keep_recent (last_twenty xs) b ≡ last_twenty (xs ++ (b ∷ []))
unfolding keep_recent
keep_recent-last_twenty xs b =
    let n = length xs - 20 in
    let longer = xs ++ (b ∷ []) in
    rw (sym (drop-append n xs (b ∷ []) (omega arith))) (
      drop-drop (length (drop n longer) - 20) n (length longer - 20) longer
        (omega (arith, length-drop n longer, length-append xs (b ∷ []))))

history_of-put :
    (i j : String) (history : List Bool) (store : RuntimeStateStore)
    (states : Dict DeploymentRuntimeState)
    → history_of
        (record { states = states; attempt_history = insert j history store.attempt_history })
        i
      ≡ (if j == i then history else history_of store i)
unfolding history_of
history_of-put i j history store states =
    ground (arith, lookup-insert j i history store.attempt_history)

pub get-put :
    (i : String) (state : DeploymentRuntimeState) (store : RuntimeStateStore)
    → get (put store state) i ≡ (if state.deployment_id == i then state else get store i)
unfolding get put
get-put i state store = ground (arith, lookup-insert state.deployment_id i state store.states)

set_observed-id :
    (state : DeploymentRuntimeState) (attempt : ExecutionAttempt)
    → (set_observed state attempt).deployment_id ≡ state.deployment_id
unfolding set_observed
set_observed-id state attempt = ground arith

-- The state that an attempt leaves.
abbrev pub state_after : RuntimeStateStore → ExecutionAttempt → DeploymentRuntimeState
state_after store attempt = record (set_observed (get store attempt.deployment_id) attempt) {
  summary =
      summarise (keep_recent (history_of store attempt.deployment_id) (is_failed attempt.outcome))
        attempt;
}

record_attempt-history :
    (i : String) (store : RuntimeStateStore) (attempt : ExecutionAttempt)
    → history_of (record_attempt store attempt) i ≡ (
        if attempt.deployment_id == i
        then keep_recent (history_of store attempt.deployment_id) (is_failed attempt.outcome)
        else history_of store i)
unfolding record_attempt put
record_attempt-history i store attempt = history_of-put i attempt.deployment_id _ store _

pub record_attempt-get :
    (i : String) (store : RuntimeStateStore) (attempt : ExecutionAttempt)
    → (get store attempt.deployment_id).deployment_id ≡ attempt.deployment_id
    → get (record_attempt store attempt) i
      ≡ (if attempt.deployment_id == i then state_after store attempt else get store i)
record_attempt-get i store attempt own =
    let same = set_observed-id (get store attempt.deployment_id) attempt ∙ own in
    subst
      (λ (k : String).
        get (record_attempt store attempt) i
        ≡ (if k == i then state_after store attempt else get store i))
      same
      (unfold record_attempt get in
        get-put i (state_after store attempt) (record store {
          attempt_history =
              insert attempt.deployment_id
                (keep_recent (history_of store attempt.deployment_id) (is_failed attempt.outcome))
                store.attempt_history;
        }))

-- A store that keeps each deployment's state under its own name.
abbrev pub IsOwn : RuntimeStateStore → Type 0
IsOwn store = (i : String) → (get store i).deployment_id ≡ i

-- What the store knows of the outcomes of a deployment.
pub record IsRecorded (outcomes : List Bool) (i : String) (store : RuntimeStateStore) : Type 0 where
  pub history : history_of store i ≡ last_twenty outcomes
  pub summary : IsSummaryOf (last_twenty outcomes) (get store i).summary

pub get-init_store : (ids : List String) (i : String) → get (init_store ids) i ≡ unknown_state i
unfolding get init_store init_states lookup
get-init_store [] i = refl
get-init_store (j ∷ js) i = ground (arith, get-init_store js i, eq_iff j i)

history_of-init_store : (ids : List String) (i : String) → history_of (init_store ids) i ≡ []
unfolding history_of init_store init_history lookup
history_of-init_store [] i = refl
history_of-init_store (j ∷ js) i = ground (arith, history_of-init_store js i)

pub observe-IsOwn :
    (store : RuntimeStateStore) (o : Observation) → IsOwn store → IsOwn (observe store o)
unfolding observe probe
observe-IsOwn store (attempted a) own i = elim (Bool-cases (a.deployment_id == i)) [
  | inl same ↦
      rw (record_attempt-get i store a (own a.deployment_id), same)
        (set_observed-id (get store a.deployment_id) a
          ∙ own a.deployment_id
          ∙ (eq_iff a.deployment_id i).0 same)
  | inr differ ↦ rw (record_attempt-get i store a (own a.deployment_id), differ) (own i)
]
observe-IsOwn store (probed ttl d observed_at ended answer) own i = elim (Bool-cases (d == i)) [
  | inl same ↦ rw (get-put i _ store, same) ((eq_iff d i).0 same)
  | inr differ ↦ rw (get-put i _ store, differ) (own i)
]

summarise-IsSummaryOf :
    (history : List Bool) (b : Bool) (attempt : ExecutionAttempt)
    → IsSummaryOf (keep_recent history b) (summarise (keep_recent history b) attempt)
unfolding summarise keep_recent
summarise-IsSummaryOf history b attempt =
    let longer = history ++ (b ∷ []) in
    (
      refl,
      refl,
      ground (arith, length-drop (length longer - 20) longer, length-append history (b ∷ [])),
    )

observe-IsRecorded :
    (outcomes : List Bool) (i : String) (store : RuntimeStateStore) (o : Observation)
    → IsOwn store
    → IsRecorded outcomes i store
    → IsRecorded (outcomes ++ outcomes_of i (o ∷ [])) i (observe store o)
unfolding observe outcomes_of probe
observe-IsRecorded xs i store (attempted a) own h = elim (text-cases a.deployment_id i) [
  | inl same ↦ record {
    history =
        rw (record_attempt-history i store a, same, eq_refl, h.history)
          (keep_recent-last_twenty xs (is_failed a.outcome));
    summary =
        rw
          (
            record_attempt-get i store a (own a.deployment_id),
            same,
            eq_refl,
            sym (keep_recent-last_twenty xs (is_failed a.outcome)),
            sym h.history,
          )
          (summarise-IsSummaryOf (history_of store i) (is_failed a.outcome) _);
  }
  | inr differ ↦ record {
    history = rw (record_attempt-history i store a, differ, append-nil xs) h.history;
    summary =
        rw (record_attempt-get i store a (own a.deployment_id), differ, append-nil xs) h.summary;
  }
]
observe-IsRecorded xs i store (probed ttl d observed_at ended answer) own h =
    elim (text-cases d i) [
      | inl same ↦ record {
        history = rw (append-nil xs) (unfold put history_of in h.history);
        summary = rw (get-put i _ store, same, eq_refl, append-nil xs) h.summary;
      }
      | inr differ ↦ record {
        history = rw (append-nil xs) (unfold put history_of in h.history);
        summary = rw (get-put i _ store, differ, append-nil xs) h.summary;
      }
    ]

outcomes_of-cons :
    (i : String) (o : Observation) (os : List Observation)
    → outcomes_of i (o ∷ os) ≡ outcomes_of i (o ∷ []) ++ outcomes_of i os
unfolding outcomes_of
outcomes_of-cons i (attempted a) os = ground arith
outcomes_of-cons i (probed ttl d observed_at ended answer) os = refl

observe_all-IsRecorded :
    (os : List Observation) (outcomes : List Bool) (i : String) (store : RuntimeStateStore)
    → IsOwn store
    → IsRecorded outcomes i store
    → IsRecorded (outcomes ++ outcomes_of i os) i (observe_all store os)
unfolding observe_all
observe_all-IsRecorded [] xs i store own h = unfold outcomes_of in rw (append-nil xs) h
observe_all-IsRecorded (o ∷ os) xs i store own h =
    subst (λ (ys : List Bool). IsRecorded ys i (observe_all (observe store o) os))
      (append_assoc xs (outcomes_of i (o ∷ [])) (outcomes_of i os)
        ∙ ap (λ ys. xs ++ ys) (sym (outcomes_of-cons i o os)))
      (observe_all-IsRecorded os _ i (observe store o) (observe-IsOwn store o own)
        (observe-IsRecorded xs i store o own h))

count_failed-le : (outcomes : List Bool) → count_failed outcomes ≤ length outcomes
unfolding count_failed
count_failed-le [] = omega arith
count_failed-le (true ∷ outcomes) = omega (arith, count_failed-le outcomes)
count_failed-le (false ∷ outcomes) = omega (arith, count_failed-le outcomes)

-- Whatever attempts and probes of whatever deployments a new store sees, in any order, the summary of a
-- deployment counts exactly the last twenty outcomes of its own attempts: there are at most twenty, no
-- more failures than attempts, and no rate without an attempt.
pub observe_all-last_twenty :
    (ids : List String) (os : List Observation) (i : String)
    → let state = get (observe_all (init_store ids) os) i in
      IsSummaryOf (last_twenty (outcomes_of i os)) state.summary
      × (state.summary.attempt_count ≤ 20)
      × (state.summary.failure_count ≤ state.summary.attempt_count)
observe_all-last_twenty ids os i =
    let start : IsRecorded [] i (init_store ids) = record {
      history = history_of-init_store ids i;
      summary = rw (get-init_store ids i) (unfold count_failed in (refl, refl, refl));
    } in
    let own : IsOwn (init_store ids) = λ j. rw (get-init_store ids j) refl in
    let counts = (observe_all-IsRecorded os [] i (init_store ids) own start).summary in
    let outcomes = outcomes_of i os in
    (
      counts,
      omega (arith, counts.0, length-drop (length outcomes - 20) outcomes),
      omega (arith, counts.0, counts.1, count_failed-le (last_twenty outcomes)),
    )
