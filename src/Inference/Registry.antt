-- ===== src/Inference/Registry.antt =====
-- backend/inference/registry.py: the deployments and the engines that are registered. A dictionary has
-- the codes of its lower-case keys; the texts of the errors are left out.
pub mod Keys
use ryuk.Prelude.{
  ℕ, String, Bool, true, false, not, Option, none, some, List, [], ◌∷◌, map, length, if◌then◌else◌,
  is_empty,
}
use ryuk.Prelude.Result.{
  Result, Error, ok, err, Check, raise_if, or_raise, value_error, key_error, ◌>>=◌, ◌>>◌,
}
use ryuk.Prelude.Text.{codes, strip, lower, same_lower, same_codes}
use ryuk.Inference.Deployment.{
  DeploymentRef, ModelIdentityObservation, IdentityInspection, assess_model_identity,
}
use ryuk.Inference.Capabilities.{DeploymentCapabilities}
use ryuk.Inference.Errors.{InferenceFailure}
use ryuk.Inference.Policy.{RoutingPolicyProfile}

-- An adapter: its name, and whether it has `discover_model_identity` and `generate_task`.
pub record Engine : Type 0 where
  pub name : String
  pub discovers_identity : Bool
  pub is_typed : Bool

pub record RegisteredDeployment : Type 0 where
  pub ref : DeploymentRef
  pub engine : Engine
  pub capabilities : DeploymentCapabilities
  pub policy_profile : RoutingPolicyProfile

-- `RegisteredDeployment.__post_init__`
unfoldable pub check_registered : RegisteredDeployment → Check
check_registered d = raise_if (not (same_lower d.ref.engine_name d.engine.name)) value_error

-- What a call of an engine comes to: a value, an `InferenceFailure`, or another exception.
pub data Answer (T : Type 0) : Type 0 where
  replied : T → Answer T
  failing : InferenceFailure → Answer T
  crashing : Error → Answer T

unfoldable pub inspection :
    Option ModelIdentityObservation
    → Option String
    → RegisteredDeployment
    → Result IdentityInspection
inspection observed discovery_error d = do
  a ← assess_model_identity d.ref.model observed
  ok (record { assessment = a; discovery_error = discovery_error })

-- `inspect_identity`, where the engine's discovery comes to the answer.
unfoldable pub inspect_identity :
    RegisteredDeployment → Answer ModelIdentityObservation → Result IdentityInspection
unfolding inspection
inspect_identity d (replied observed) =
    if d.engine.discovers_identity
    then inspection (some observed) none d
    else inspection none (some "identity_discovery_not_supported") d
inspect_identity d (failing f) =
    if d.engine.discovers_identity
    then inspection none (some "identity_discovery_failed") d
    else inspection none (some "identity_discovery_not_supported") d
inspect_identity d (crashing e) =
    if d.engine.discovers_identity
    then err e
    else inspection none (some "identity_discovery_not_supported") d

-- A dictionary with codes for keys, in the order of insertion.
abbrev pub CodeDict : Type 0 → Type 0
CodeDict V = List (List ℕ × V)

module _ {V : Type 0} where
  unfoldable pub find_key : List ℕ → CodeDict V → Option V
  find_key key [] = none
  find_key key ((k, v) ∷ d) = if same_codes k key then some v else find_key key d

  -- `d[key] = value`
  unfoldable pub store : List ℕ → V → CodeDict V → CodeDict V
  store key value [] = (key, value) ∷ []
  store key value ((k, v) ∷ d) =
      let later = store key value d in if same_codes k key then (k, value) ∷ d else (k, v) ∷ later

  -- `d.pop(key, None)`
  unfoldable pub remove : List ℕ → CodeDict V → CodeDict V
  remove key [] = []
  remove key ((k, v) ∷ d) =
      let later = remove key d in if same_codes k key then d else (k, v) ∷ later

abbrev pub DeploymentRegistry : Type 0
DeploymentRegistry = CodeDict RegisteredDeployment

unfoldable pub is_found : {V : Type 0} → Option V → Bool
is_found none = false
is_found (some v) = true

-- `DeploymentRegistry.register`
unfoldable pub register : RegisteredDeployment → DeploymentRegistry → Result DeploymentRegistry
unfolding is_found
register d registry =
    let key = lower (codes d.ref.deployment_id) in
    do raise_if (is_found (find_key key registry)) value_error; ok (store key d registry)

unfoldable pub get_deployment : String → DeploymentRegistry → Result RegisteredDeployment
get_deployment deployment_id registry =
    or_raise (find_key (lower (strip (codes deployment_id))) registry) key_error

unfoldable pub all_deployments : DeploymentRegistry → List RegisteredDeployment
all_deployments = map (λ e. e.1)

abbrev pub EngineRegistry : Type 0
EngineRegistry = CodeDict Engine

abbrev pub engine_key : String → List ℕ
engine_key name = lower (strip (codes name))

-- `EngineRegistry.register`
unfoldable pub register_engine : Engine → EngineRegistry → Result EngineRegistry
register_engine e registry = do
  raise_if (is_empty (engine_key e.name)) value_error
  ok (store (engine_key e.name) e registry)

unfoldable pub unregister_engine : String → EngineRegistry → EngineRegistry
unregister_engine name registry = remove (engine_key name) registry

unfoldable pub get_engine : String → EngineRegistry → Result Engine
get_engine name registry = or_raise (find_key (engine_key name) registry) key_error

unfoldable pub all_engines : EngineRegistry → List Engine
all_engines = map (λ e. e.1)

unfoldable pub register_many : List Engine → EngineRegistry → Result EngineRegistry
register_many [] registry = ok registry
register_many (e ∷ es) registry = do
  registered ← register_engine e registry
  register_many es registered

-- `name in registry`
unfoldable pub has_engine : String → EngineRegistry → Bool
unfolding is_found
has_engine name registry = is_found (find_key (engine_key name) registry)
