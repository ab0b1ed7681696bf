-- ===== src/Inference/Router/Records.antt =====
-- The records of attempts that backend/inference/router.py builds pass the checks of their class.
use ryuk.Prelude.{ℕ, String, ◌+◌, true, false, List, [], ◌∷◌, ◌≡◌, refl, arith, eq_refl}
use ryuk.Prelude.Result.{ok, raise_if-ok, bind-ok}
use ryuk.Prelude.Text.{codes, strip, same_codes, is_identifier}
use ryuk.Inference.Deployment.{DeploymentRef, check_deployment_ref, require_identifier}
use ryuk.Inference.Contracts.{
  check_attempt, is_blank, require_text, lacks_snapshot, is_other_snapshot, has_code, is_failed,
}
use ryuk.Inference.Errors.{FailureKind}
use ryuk.Inference.Registry.{RegisteredDeployment}
use ryuk.Inference.Router.Attempt.{Timing, failed_attempt, succeeded_attempt}

same_codes-empty :
    (xs ys : List ℕ) → same_codes xs ys ≡ true → same_codes xs [] ≡ false → same_codes ys [] ≡ false
unfolding same_codes
same_codes-empty [] ys h e = absurd (ground arith)
same_codes-empty (x ∷ xs) [] h e = absurd (ground arith)
same_codes-empty (x ∷ xs) (y ∷ ys) h e = refl

is_identifier-is_blank : (s : String) → is_identifier s ≡ true → is_blank s ≡ false
unfolding is_identifier is_blank
is_identifier-is_blank s h =
    same_codes-empty (codes s) (strip (codes s)) (ground arith) (ground arith)

checked-is_blank :
    (d : DeploymentRef) → check_deployment_ref d ≡ ok tt → is_blank d.deployment_id ≡ false
unfolding check_deployment_ref require_identifier
checked-is_blank d h =
    let (nothing, checked, later) = bind-ok (require_identifier d.deployment_id) _ h in
    is_identifier-is_blank d.deployment_id (ground (arith, raise_if-ok _ _ checked))

-- An attempt that the router records, failed or succeeded, passes the checks of an attempt: on a
-- deployment whose reference passes its own, with an identifier that is not blank, from the number 1 on.
pub recorded_attempts :
    (attempt_id : String) (n : ℕ) (d : RegisteredDeployment) (timing : Timing) (kind : FailureKind)
    → is_blank attempt_id ≡ false
    → check_deployment_ref d.ref ≡ ok tt
    → (check_attempt (failed_attempt attempt_id (n + 1) d timing kind) ≡ ok tt)
      × (check_attempt (succeeded_attempt attempt_id (n + 1) d timing) ≡ ok tt)
unfolding check_attempt failed_attempt succeeded_attempt require_text lacks_snapshot
    is_other_snapshot has_code is_failed
recorded_attempts attempt_id n d timing kind named checked =
    let deployment_named = checked-is_blank d.ref checked in
    (
      rw (named, deployment_named, eq_refl d.ref.deployment_id) (ground arith),
      rw (named, deployment_named, eq_refl d.ref.deployment_id) (ground arith),
    )
