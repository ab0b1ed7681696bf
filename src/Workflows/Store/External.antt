-- ===== src/Workflows/Store/External.antt =====
-- What backend/workflows/store.py takes from elsewhere, its transactions, and its leases.
use ryuk.Prelude.{ℕ, ◌*◌, String, Bool, true, false, not, Option, none, some, ◌==◌, eqb, leb}
use ryuk.Prelude.Result.{Result, Check, ok, err, conflict, type_error, raise_if, ◌>>=◌, ◌>>◌}
use ryuk.Workflows.Store.Tables.{
  WorkflowState, ready, running, awaiting_validation, succeeded, failed, rejected, cancelled,
  uncertain, Workflow, WorkflowStore, select_workflow,
}

-- What the store calls: the hash and JSON of Python's library, the reading of a packet
-- (contracts.py), of the policy in a binding, and the decision of validation.py on an artifact's
-- text under a policy.
pub record External : Type 0 where
  pub sha256 : String → String
  -- `isinstance(json.loads(text), dict)`; `none` is the ValueError
  pub reads_object : String → Option Bool
  pub reads_packet : String → Bool
  pub with_binding : String → String → String
  pub binding_policy : String → String
  pub accepts : String → String → Bool

abbrev pub Tx : Type 0 → Type 0
Tx A = WorkflowStore → Result (A × WorkflowStore)

abbrev pub microseconds : ℕ → ℕ
microseconds seconds = seconds * 1_000_000

unfoldable pub is_state : WorkflowState → WorkflowState → Bool
is_state ready ready = true
is_state running running = true
is_state awaiting_validation awaiting_validation = true
is_state succeeded succeeded = true
is_state failed failed = true
is_state rejected rejected = true
is_state cancelled cancelled = true
is_state uncertain uncertain = true
is_state _ _ = false

abbrev pub is_text : Option String → String → Bool
is_text none t = false
is_text (some s) t = s == t

abbrev pub is_missing {ℓ} : {A : Type ℓ} → Option A → Bool
is_missing none = true
is_missing (some a) = false

abbrev pub is_flag : Option Bool → Bool → Bool
is_flag none b = false
is_flag (some true) b = b
is_flag (some false) b = not b

-- `datetime.fromisoformat(row["lease_until"]) <= now`; a NULL raises the TypeError.
unfoldable pub lease_over : Option ℕ → ℕ → Result Bool
lease_over none now = err type_error
lease_over (some t) now = ok (leb t now)

unfoldable pub check_lease : Option Workflow → String → ℕ → ℕ → Check
check_lease none owner fence now = err conflict
check_lease (some row) owner fence now = do
  raise_if (not (is_state row.state running)) conflict
  raise_if (not (is_text row.owner owner)) conflict
  raise_if (not (eqb row.fence fence)) conflict
  over ← lease_over row.lease_until now
  raise_if over conflict

-- `_require_lease`
unfoldable pub require_lease : String → String → String → ℕ → ℕ → WorkflowStore → Check
require_lease tenant id owner fence now s =
    check_lease (select_workflow tenant id s) owner fence now
