-- ===== src/Inference/Router/Rejections.antt =====
-- The rejections that `_ordered_deployments` of backend/inference/router.py reports.
use ryuk.Prelude.{ℕ, List, [], ◌∷◌, ◌++◌, ◌≡◌, refl, map, inl, inr, Has, All}
use ryuk.Inference.Contracts.{InferenceTask}
use ryuk.Inference.Errors.{PublicRejection}
use ryuk.Inference.Capabilities.{ConstraintRejection, evaluate_capabilities, reason_text}
use ryuk.Inference.Registry.{RegisteredDeployment}
use ryuk.Inference.Router.{public_rejection, public_rejections}

-- What the evaluation of a deployment rejects.
abbrev rejected : ℕ → InferenceTask → RegisteredDeployment → List ConstraintRejection
rejected now task d = (evaluate_capabilities now task d.capabilities).rejections

-- The rejection as it is reported.
abbrev reported : RegisteredDeployment → ConstraintRejection → PublicRejection
reported d r = record {
  deployment_id = d.ref.deployment_id;
  code = r.code;
  requirement = r.requirement;
  reason = reason_text r.reason;
}

-- Every rejection of the deployment is reported.
abbrev pub IsReported : ℕ → InferenceTask → List PublicRejection → RegisteredDeployment → Type 0
IsReported now task reports d =
    All (λ (r : ConstraintRejection). Has reports (reported d r)) (rejected now task d)

-- The report is of a rejection of one of the deployments.
abbrev pub IsFounded : ℕ → InferenceTask → List RegisteredDeployment → PublicRejection → Type 0
IsFounded now task ds report =
    (d : RegisteredDeployment) × Has ds d
    × (r : ConstraintRejection) × Has (rejected now task d) r
    × (report ≡ reported d r)

Has-left : (xs ys : List PublicRejection) (x : PublicRejection) → Has xs x → Has (xs ++ ys) x
Has-left [] ys x h = absurd h
Has-left (y ∷ xs) ys x (inl here) = inl here
Has-left (y ∷ xs) ys x (inr later) = inr (Has-left xs ys x later)

Has-right : (xs ys : List PublicRejection) (x : PublicRejection) → Has ys x → Has (xs ++ ys) x
Has-right [] ys x h = h
Has-right (y ∷ xs) ys x h = inr (Has-right xs ys x h)

more_reports :
    (d : RegisteredDeployment) (x : PublicRejection) (reports : List PublicRejection)
    (rs : List ConstraintRejection)
    → All (λ (r : ConstraintRejection). Has reports (reported d r)) rs
    → All (λ (r : ConstraintRejection). Has (x ∷ reports) (reported d r)) rs
more_reports d x reports [] h = tt
more_reports d x reports (r ∷ rs) (here, h) = (inr here, more_reports d x reports rs h)

own_reports :
    (d : RegisteredDeployment) (others : List PublicRejection) (rs : List ConstraintRejection)
    → All
        (λ (r : ConstraintRejection).
          Has (map (public_rejection d.ref.deployment_id) rs ++ others) (reported d r))
        rs
unfolding public_rejection
own_reports d others [] = tt
own_reports d others (r ∷ rs) = (
  inl refl,
  more_reports d (reported d r) (map (public_rejection d.ref.deployment_id) rs ++ others) rs
      (own_reports d others rs),
)

other_reports :
    (d : RegisteredDeployment) (mine reports : List PublicRejection) (rs : List ConstraintRejection)
    → All (λ (r : ConstraintRejection). Has reports (reported d r)) rs
    → All (λ (r : ConstraintRejection). Has (mine ++ reports) (reported d r)) rs
other_reports d mine reports [] h = tt
other_reports d mine reports (r ∷ rs) (here, h) =
    (Has-right mine reports (reported d r) here, other_reports d mine reports rs h)

later_reports :
    (now : ℕ) (task : InferenceTask) (mine reports : List PublicRejection)
    (ds : List RegisteredDeployment)
    → All (IsReported now task reports) ds
    → All (IsReported now task (mine ++ reports)) ds
later_reports now task mine reports [] h = tt
later_reports now task mine reports (d ∷ ds) (here, h) = (
  other_reports d mine reports (rejected now task d) here,
  later_reports now task mine reports ds h,
)

pub public_rejections-IsReported :
    (now : ℕ) (task : InferenceTask) (ds : List RegisteredDeployment)
    → All (IsReported now task (public_rejections now task ds)) ds
unfolding public_rejections
public_rejections-IsReported now task [] = tt
public_rejections-IsReported now task (d ∷ ds) = (
  own_reports d (public_rejections now task ds) (rejected now task d),
  later_reports now task (map (public_rejection d.ref.deployment_id) (rejected now task d))
      (public_rejections now task ds) ds (public_rejections-IsReported now task ds),
)

own-IsFounded :
    (now : ℕ) (task : InferenceTask) (ds : List RegisteredDeployment) (d : RegisteredDeployment)
    (rs : List ConstraintRejection) (others : List PublicRejection)
    → Has ds d
    → All (λ (r : ConstraintRejection). Has (rejected now task d) r) rs
    → All (IsFounded now task ds) others
    → All (IsFounded now task ds) (map (public_rejection d.ref.deployment_id) rs ++ others)
unfolding public_rejection
own-IsFounded now task ds d [] others registered h k = k
own-IsFounded now task ds d (r ∷ rs) others registered (here, h) k =
    ((d, registered, r, here, refl), own-IsFounded now task ds d rs others registered h k)

cons-Has :
    (x : ConstraintRejection) (xs rs : List ConstraintRejection)
    → All (λ (r : ConstraintRejection). Has xs r) rs
    → All (λ (r : ConstraintRejection). Has (x ∷ xs) r) rs
cons-Has x xs [] h = tt
cons-Has x xs (r ∷ rs) (here, h) = (inr here, cons-Has x xs rs h)

Has-All : (rs : List ConstraintRejection) → All (λ (r : ConstraintRejection). Has rs r) rs
Has-All [] = tt
Has-All (r ∷ rs) = (inl refl, cons-Has r rs rs (Has-All rs))

-- A report is founded in more deployments.
IsFounded-more :
    (now : ℕ) (task : InferenceTask) (d : RegisteredDeployment) (ds : List RegisteredDeployment)
    (reports : List PublicRejection)
    → All (IsFounded now task ds) reports
    → All (IsFounded now task (d ∷ ds)) reports
IsFounded-more now task d ds [] h = tt
IsFounded-more now task d ds (x ∷ xs) ((e, registered, r, found, same), h) =
    ((e, inr registered, r, found, same), IsFounded-more now task d ds xs h)

pub public_rejections-IsFounded :
    (now : ℕ) (task : InferenceTask) (ds : List RegisteredDeployment)
    → All (IsFounded now task ds) (public_rejections now task ds)
unfolding public_rejections
public_rejections-IsFounded now task [] = tt
public_rejections-IsFounded now task (d ∷ ds) =
    own-IsFounded now task (d ∷ ds) d (rejected now task d) (public_rejections now task ds)
      (inl refl) (Has-All (rejected now task d))
      (IsFounded-more now task d ds (public_rejections now task ds)
        (public_rejections-IsFounded now task ds))
