-- ===== src/Inference/Capabilities/Eligible.antt =====
-- Which deployments backend/inference/capabilities.py finds eligible for a task.
use ryuk.Prelude.{
  ℕ, String, Bool, true, false, not, Option, none, some, List, [], ◌∷◌, ◌≡◌, refl, sym, ◌↔◌,
  is_empty, contains, arith, Bool-cases, inl, inr, some_inj,
}
use mathlib.Core.Path.{subst}
use ryuk.Prelude.Int.{ℤ, ltb_ℤ, ◌≤ℤ◌}
use ryuk.Inference.Contracts.{InferenceTask}
use ryuk.Inference.Capabilities.{
  CapabilityClaim, DeploymentCapabilities, ConstraintRejection, RejectionReason, unknown,
  unsupported, mismatched, insufficient, is_current, is_unexpired, reject, require_member,
  require_optional, require_bool, require_context, kind_of, has_kind, rejections_of,
  evaluate_capabilities,
}

-- A claim that has not expired, and whose value has the property.
abbrev pub Claims : {T : Type 0} → ℕ → Option (CapabilityClaim T) → (T → Type 0) → Type 0
Claims {T} now claim P =
    (c : CapabilityClaim T) × (claim ≡ some c) × (is_unexpired c.expires_at now ≡ true) × P c.value

-- What a task asks of a deployment, requirement by requirement.
pub record IsMet (now : ℕ) (task : InferenceTask) (c : DeploymentCapabilities) : Type 0 where
  pub kind : Claims now c.task_kinds (λ kinds. has_kind (kind_of task.input) kinds ≡ true)
  pub model :
      (m : String)
      → task.requirements.required_model ≡ some m
      → Claims now c.served_models (λ models. contains m models ≡ true)
  pub tokens :
      (n : ℤ)
      → task.requirements.required_context_tokens ≡ some n
      → Claims now c.max_context_tokens (λ limit. n ≤ℤ limit)
  pub structured :
      task.requirements.requires_structured_output ≡ true
      → Claims now c.structured_output (λ offered. offered ≡ true)
  pub streams :
      task.requirements.requires_streaming ≡ true
      → Claims now c.streaming (λ offered. offered ≡ true)
  pub accelerator :
      (a : String)
      → task.requirements.required_accelerator ≡ some a
      → Claims now c.accelerators (λ names. contains a names ≡ true)
  pub topology :
      (t : String)
      → task.requirements.required_topology ≡ some t
      → Claims now c.topologies (λ names. contains t names ≡ true)
  pub location :
      (l : String)
      → task.requirements.required_data_location ≡ some l
      → Claims now c.data_locations (λ names. contains l names ≡ true)
  pub production :
      task.requirements.production_only ≡ true
      → Claims now c.production_eligible (λ offered. offered ≡ true)

-- A check adds nothing exactly when the requirement is met.
abbrev IsExact : (List ConstraintRejection → List ConstraintRejection) → Type 0 → Type 0
IsExact check Met =
    (rejections : List ConstraintRejection)
    → (is_empty (check rejections) ≡ true) ↔ (Met × (is_empty rejections ≡ true))

reject-is_empty :
    (word requirement : String) (reason : RejectionReason) (rejections : List ConstraintRejection)
    → is_empty (reject word requirement reason rejections) ≡ false
unfolding reject
reject-is_empty word requirement reason [] = refl
reject-is_empty word requirement reason (r ∷ rs) = refl

rejected :
    {P : Type 0} (word requirement : String) (reason : RejectionReason)
    (rejections : List ConstraintRejection)
    → is_empty (reject word requirement reason rejections) ≡ true
    → P
rejected word requirement reason rejections h =
    absurd (let e = reject-is_empty word requirement reason rejections in cc)

-- The claims of one evaluation whose value has to have a property.
module _ {T : Type 0} (now : ℕ) (P : T → Type 0) where
  claimed :
      (c : CapabilityClaim T)
      → Claims now (some c) P
      → (is_unexpired c.expires_at now ≡ true) × P c.value
  claimed c h =
      subst (λ (d : CapabilityClaim T). (is_unexpired d.expires_at now ≡ true) × P d.value)
        (sym (some_inj h.1)) (h.2, h.3)

  unclaimed : {Q : Type 0} → Claims now none P → Q
  unclaimed h = absurd (let e = h.1 in cc)

  -- A check that rejects an expired claim, and a current one as far as its value does not serve.
  claim-IsExact :
      (c : CapabilityClaim T) (check : List ConstraintRejection → List ConstraintRejection)
      (serves : Bool)
      → ((serves ≡ true) ↔ P c.value)
      → (is_unexpired c.expires_at now ≡ true
          → serves ≡ true
          → (rs : List ConstraintRejection) → check rs ≡ rs)
      → (is_unexpired c.expires_at now ≡ false
          → (rs : List ConstraintRejection) → is_empty (check rs) ≡ false)
      → (serves ≡ false → (rs : List ConstraintRejection) → is_empty (check rs) ≡ false)
      → IsExact check (Claims now (some c) P)
  claim-IsExact c check serves iff passes expires fails rs =
      elim (Bool-cases (is_unexpired c.expires_at now)) [
        | inr expired ↦ (
          λ h. absurd (let e = expires expired rs in cc),
          λ h. absurd (let e = (claimed c h.0).0 in cc),
        )
        | inl current ↦ elim (Bool-cases serves) [
          | inl served ↦ (
            λ h. ((c, refl, current, iff.0 served), rw (passes current served rs) at h),
            λ h. rw (passes current served rs) h.1,
          )
          | inr refused ↦ (
            λ h. absurd (let e = fails refused rs in cc),
            λ h. absurd (let e = iff.1 (claimed c h.0).1 in cc),
          )
        ]
      ]

require_member-exact :
    {T : Type 0} (is_in : T → List T → Bool) (now : ℕ) (mismatch : Bool) (requirement : String)
    (required : T) (claim : Option (CapabilityClaim (List T)))
    → IsExact
        (require_member is_in now mismatch requirement required claim)
        (Claims now claim (λ values. is_in required values ≡ true))
unfolding require_member is_current
require_member-exact is_in now mismatch requirement required none rs =
    (λ h. rejected _ _ _ rs h, λ h. unclaimed now _ h.0)
require_member-exact is_in now mismatch requirement required (some c) rs =
    claim-IsExact now (λ values. is_in required values ≡ true) c
      (require_member is_in now mismatch requirement required (some c)) (is_in required c.value)
      (λ h. h, λ h. h) (λ current served rs. rw (current, served) refl)
      (λ expired rs. rw expired (reject-is_empty _ _ _ rs))
      (λ refused rs. ground (
        arith,
        reject-is_empty "unknown_" requirement unknown rs,
        reject-is_empty "mismatched_" requirement mismatched rs,
        reject-is_empty "unsupported_" requirement unsupported rs,
      ))
      rs

require_optional-exact :
    (now : ℕ) (mismatch : Bool) (requirement : String) (required : Option String)
    (claim : Option (CapabilityClaim (List String)))
    → IsExact (require_optional now mismatch requirement required claim) (
        (name : String)
        → required ≡ some name
        → Claims now claim (λ names. contains name names ≡ true))
unfolding require_optional
require_optional-exact now mismatch requirement none claim rs =
    (λ h. (λ name e. absurd cc, h), λ h. h.1)
require_optional-exact now mismatch requirement (some required) claim rs =
    let exact = require_member-exact contains now mismatch requirement required claim rs in
    (
      λ h. (λ name e. rw (sym (some_inj e)) (exact.0 h).0, (exact.0 h).1),
      λ h. exact.1 (h.0 required refl, h.1),
    )

require_bool-exact :
    (now : ℕ) (requirement : String) (required : Bool) (claim : Option (CapabilityClaim Bool))
    → IsExact
        (require_bool now requirement required claim)
        (required ≡ true → Claims now claim (λ offered. offered ≡ true))
unfolding require_bool is_current
require_bool-exact now requirement false claim rs = (λ h. (λ e. absurd cc, h), λ h. h.1)
require_bool-exact now requirement true none rs =
    (λ h. rejected _ _ _ rs h, λ h. unclaimed now _ (h.0 refl))
require_bool-exact now requirement true (some c) rs =
    let exact =
      claim-IsExact now (λ offered. offered ≡ true) c (require_bool now requirement true (some c))
        c.value (λ h. h, λ h. h) (λ current served rs. rw (current, served) refl)
        (λ expired rs. rw expired (reject-is_empty _ _ _ rs))
        (λ refused rs. ground (
          arith,
          reject-is_empty "unknown_" requirement unknown rs,
          reject-is_empty "unsupported_" requirement unsupported rs,
        ))
        rs in
    (λ h. (λ e. (exact.0 h).0, (exact.0 h).1), λ h. exact.1 (h.0 refl, h.1))

require_context-exact :
    (now : ℕ) (required : Option ℤ) (claim : Option (CapabilityClaim ℤ))
    → IsExact
        (require_context now required claim)
        ((n : ℤ) → required ≡ some n → Claims now claim (λ limit. n ≤ℤ limit))
unfolding require_context is_current
require_context-exact now none claim rs = (λ h. (λ n e. absurd cc, h), λ h. h.1)
require_context-exact now (some required) none rs =
    (λ h. rejected _ _ _ rs h, λ h. unclaimed now _ (h.0 required refl))
require_context-exact now (some required) (some c) rs =
    let exact =
      claim-IsExact now (λ limit. required ≤ℤ limit) c
        (require_context now (some required) (some c)) (not (ltb_ℤ c.value required))
        (λ h. ground arith, λ h. ground arith) (λ current served rs. ground arith)
        (λ expired rs. rw expired (reject-is_empty _ _ _ rs))
        (λ refused rs. ground (
          arith,
          reject-is_empty "unknown_" "context_capacity" unknown rs,
          reject-is_empty "insufficient_" "context_capacity" insufficient rs,
        ))
        rs in
    (
      λ h. (λ n e. rw (sym (some_inj e)) (exact.0 h).0, (exact.0 h).1),
      λ h. exact.1 (h.0 required refl, h.1),
    )

-- A deployment is eligible for a task exactly when each requirement of the task is met by a claim of the
-- deployment that has not expired: its kind, the model, the context, the outputs, the accelerator, the
-- topology, the location of the data and the production use that the task asks for.
pub eligible-iff-IsMet :
    (now : ℕ) (task : InferenceTask) (c : DeploymentCapabilities)
    → ((evaluate_capabilities now task c).eligible ≡ true) ↔ IsMet now task c
unfolding evaluate_capabilities rejections_of
eligible-iff-IsMet now task c =
    let r = task.requirements in
    let kinds =
      require_member-exact has_kind now false "task_kind" (kind_of task.input) c.task_kinds in
    let models = require_optional-exact now true "served_model" r.required_model c.served_models in
    let contexts = require_context-exact now r.required_context_tokens c.max_context_tokens in
    let outputs =
      require_bool-exact now "structured_output" r.requires_structured_output c.structured_output in
    let streams = require_bool-exact now "streaming" r.requires_streaming c.streaming in
    let accelerated =
      require_optional-exact now false "accelerator" r.required_accelerator c.accelerators in
    let topological =
      require_optional-exact now false "topology" r.required_topology c.topologies in
    let located =
      require_optional-exact now false "data_location" r.required_data_location c.data_locations in
    let produced =
      require_bool-exact now "production_eligible" r.production_only c.production_eligible in
    (
      λ h₀.
          let (production, h₁) = (produced _).0 h₀ in
          let (location, h₂) = (located _).0 h₁ in
          let (topology, h₃) = (topological _).0 h₂ in
          let (accelerator, h₄) = (accelerated _).0 h₃ in
          let (streaming, h₅) = (streams _).0 h₄ in
          let (structured, h₆) = (outputs _).0 h₅ in
          let (tokens, h₇) = (contexts _).0 h₆ in
          let (model, h₈) = (models _).0 h₇ in
          record {
            kind = ((kinds []).0 h₈).0;
            model = model;
            tokens = tokens;
            structured = structured;
            streams = streaming;
            accelerator = accelerator;
            topology = topology;
            location = location;
            production = production;
          },
      λ m. (produced _).1 (
        m.production,
        (located _).1 (
          m.location,
          (topological _).1 (
            m.topology,
            (accelerated _).1 (
              m.accelerator,
              (streams _).1 (
                m.streams,
                (outputs _).1 (
                  m.structured,
                  (contexts _).1 (m.tokens, (models _).1 (m.model, (kinds []).1 (m.kind, refl))),
                ),
              ),
            ),
          ),
        ),
      ),
    )
