-- ===== src/Inference/Runtime.antt =====
-- backend/inference/runtime.py: what is known of each deployment at run time. Times are milliseconds;
-- the rate of failures is a pair, of the failures and of the attempts that it divides.
pub mod History
pub mod Routing
use ryuk.Prelude.{
  ℕ, String, ◌+◌, ◌-◌, Bool, true, false, not, ◌&&◌, ◌||◌, Option, none, some, List, [], ◌∷◌, ◌++◌,
  ◌==◌, leb, eqb, if◌then◌else◌, length, drop, map, suc,
}
use ryuk.Prelude.Int.{ℤ}
use ryuk.Prelude.Dict.{Dict, lookup, insert}
use ryuk.Inference.Contracts.{AttemptOutcome, succeeded, failed, is_failed, ExecutionAttempt}

pub data Liveness : Type 0 where
  unknown_liveness up down : Liveness

pub data Readiness : Type 0 where
  unknown_readiness ready not_ready : Readiness

pub data AdmissionState : Type 0 where
  unknown_admission accepting rejecting : AdmissionState

pub data CapacityState : Type 0 where
  unknown_capacity available exhausted : CapacityState

pub record RuntimeSummary : Type 0 where
  pub attempt_count : ℕ
  pub failure_count : ℕ
  pub recent_failure_rate : Option (ℕ × ℕ)
  pub last_attempt_latency_ms : Option ℤ
  pub last_failure_code : Option String

abbrev pub no_summary : RuntimeSummary
no_summary = record {
  attempt_count = 0;
  failure_count = 0;
  recent_failure_rate = none;
  last_attempt_latency_ms = none;
  last_failure_code = none;
}

pub record DeploymentRuntimeState : Type 0 where
  pub deployment_id : String
  pub liveness : Liveness
  pub readiness : Readiness
  pub admission : AdmissionState
  pub capacity : CapacityState
  pub observed_at : Option ℕ
  pub expires_at : Option ℕ
  pub probe_latency_ms : Option ℕ
  pub probe_error : Option String
  pub summary : RuntimeSummary

-- `DeploymentRuntimeState(deployment_id)`
abbrev pub unknown_state : String → DeploymentRuntimeState
unknown_state deployment_id = record {
  deployment_id = deployment_id;
  liveness = unknown_liveness;
  readiness = unknown_readiness;
  admission = unknown_admission;
  capacity = unknown_capacity;
  observed_at = none;
  expires_at = none;
  probe_latency_ms = none;
  probe_error = none;
  summary = no_summary;
}

unfoldable pub is_stale : DeploymentRuntimeState → ℕ → Bool
is_stale state now = elim state.expires_at [ none ↦ true | some expires_at ↦ leb expires_at now ]

unfoldable pub is_up : Liveness → Bool
is_up up = true
is_up _ = false

unfoldable pub is_ready_now : Readiness → Bool
is_ready_now ready = true
is_ready_now _ = false

unfoldable pub is_accepting : AdmissionState → Bool
is_accepting accepting = true
is_accepting _ = false

unfoldable pub is_exhausted : CapacityState → Bool
is_exhausted exhausted = true
is_exhausted _ = false

unfoldable pub is_available : CapacityState → Bool
is_available available = true
is_available _ = false

unfoldable pub is_routable : DeploymentRuntimeState → ℕ → Bool
is_routable state now =
    not (is_stale state now)
    && is_up state.liveness
    && is_ready_now state.readiness
    && is_accepting state.admission
    && not (is_exhausted state.capacity)

pub record RuntimeStateStore : Type 0 where
  pub states : Dict DeploymentRuntimeState
  pub attempt_history : Dict (List Bool)

-- The dict comprehensions of `__init__`, over `registry.ids()`.
unfoldable pub init_states : List String → Dict DeploymentRuntimeState
init_states [] = []
init_states (i ∷ is) = (i, unknown_state i) ∷ init_states is

unfoldable pub init_history : List String → Dict (List Bool)
init_history [] = []
init_history (i ∷ is) = (i, []) ∷ init_history is

unfoldable pub init_store : List String → RuntimeStateStore
init_store deployment_ids = record {
  states = init_states deployment_ids;
  attempt_history = init_history deployment_ids;
}

unfoldable pub get : RuntimeStateStore → String → DeploymentRuntimeState
get store deployment_id = elim (lookup deployment_id store.states) [
  | none ↦ unknown_state deployment_id
  | some state ↦ state
]

unfoldable pub put : RuntimeStateStore → DeploymentRuntimeState → RuntimeStateStore
put store state = record store { states = insert state.deployment_id state store.states }

-- `self._attempt_history.setdefault(deployment_id, [])`
unfoldable pub history_of : RuntimeStateStore → String → List Bool
history_of store deployment_id = elim (lookup deployment_id store.attempt_history) [
  | none ↦ []
  | some history ↦ history
]

-- `history.append(outcome)` and `del history[:-20]`
unfoldable pub keep_recent : List Bool → Bool → List Bool
keep_recent history outcome =
    let longer = history ++ (outcome ∷ []) in drop (length longer - 20) longer

-- `sum(history)`
unfoldable pub count_failed : List Bool → ℕ
count_failed [] = 0
count_failed (true ∷ history) = suc (count_failed history)
count_failed (false ∷ history) = count_failed history

-- `failure_code == code`
unfoldable pub is_code : Option String → String → Bool
is_code none code = false
is_code (some failure_code) code = failure_code == code

-- The changes of liveness, readiness, admission and capacity.
unfoldable pub set_observed : DeploymentRuntimeState → ExecutionAttempt → DeploymentRuntimeState
set_observed state attempt =
    if not (is_failed attempt.outcome)
    then record state { admission = accepting; capacity = available }
    else (if is_code attempt.failure_code "capacity_exceeded"
        then record state { admission = rejecting; capacity = exhausted }
        else (if is_code attempt.failure_code "deployment_unavailable"
            then record state { liveness = down; readiness = not_ready; admission = rejecting }
            else state))

unfoldable pub summarise : List Bool → ExecutionAttempt → RuntimeSummary
summarise history attempt = record {
  attempt_count = length history;
  failure_count = count_failed history;
  recent_failure_rate = some (count_failed history, length history);
  last_attempt_latency_ms = some attempt.duration_ms;
  last_failure_code = if is_failed attempt.outcome then attempt.failure_code else none;
}

unfoldable pub record_attempt : RuntimeStateStore → ExecutionAttempt → RuntimeStateStore
record_attempt store attempt =
    let state = get store attempt.deployment_id in
    let history =
      keep_recent (history_of store attempt.deployment_id) (is_failed attempt.outcome) in
    let recorded = record store {
      attempt_history = insert attempt.deployment_id history store.attempt_history;
    } in
    put recorded (record (set_observed state attempt) { summary = summarise history attempt })

-- What `wait_for` gave: the engine's answer, or the name of the exception.
pub data Probe : Type 0 where
  answered : Bool → Probe
  raised : String → Probe

unfoldable pub probe_answer : Probe → Bool
probe_answer (answered value) = value
probe_answer (raised name) = false

unfoldable pub probe_error_of : Probe → Option String
probe_error_of (answered value) = none
probe_error_of (raised name) = some name

-- `_probe`, that began at `observed_at` and ended at `ended`.
unfoldable pub probe : ℕ → String → ℕ → ℕ → Probe → RuntimeStateStore → RuntimeStateStore
probe ttl deployment_id observed_at ended answer store = put store (record {
  deployment_id = deployment_id;
  liveness = if probe_answer answer then up else down;
  readiness = if probe_answer answer then ready else not_ready;
  admission = if probe_answer answer then accepting else rejecting;
  capacity = unknown_capacity;
  observed_at = some observed_at;
  expires_at = some (observed_at + ttl);
  probe_latency_ms = some (ended - observed_at);
  probe_error = probe_error_of answer;
  summary = (get store deployment_id).summary;
})
