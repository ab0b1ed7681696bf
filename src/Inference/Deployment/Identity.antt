-- ===== src/Inference/Deployment/Identity.antt =====
-- What the assessment of backend/inference/deployment.py says of an observed identity.
use ryuk.Prelude.{
  String, Bool, true, false, not, ◌&&◌, Option, none, some, List, [], ◌∷◌, ◌==◌, ◌≡◌, refl, ◌↔◌,
  ◌⊎◌, inl, inr, arith, eq_iff, eq_refl, is_empty, Bool-cases, some_inj,
}
use ryuk.Prelude.Result.{ok}
use ryuk.Inference.Deployment.{
  IdentityVerification, verified, mismatch, ModelRef, ModelIdentityObservation, IdentityAssessment,
  Comparison, compare_values, compare_fields, evidence_of, assess_model_identity, assess_comparison,
  make_assessment, matching_status, is_mismatch,
}

-- What is configured is observed, and is the same.
abbrev pub Confirms : Option String → Option String → Type 0
Confirms expected observed = (v : String) → expected ≡ some v → observed ≡ some v

-- A configured value was observed with another value.
abbrev pub Differs : Option String → Option String → Type 0
Differs expected observed =
    (v : String) × (w : String) × (expected ≡ some v) × (observed ≡ some w) × ((w == v) ≡ false)

-- Every configured attribute of the model is observed as configured, at the model itself.
abbrev pub IsConfirmed : Option ModelRef → Option ModelIdentityObservation → Type 0
IsConfirmed expected observed =
    (e : ModelRef) × (o : ModelIdentityObservation) × (expected ≡ some e)
    × (observed ≡ some o)
    × (o.catalog_only ≡ false)
    × Confirms (some e.artifact_id) (some o.model.artifact_id)
    × Confirms e.revision o.model.revision
    × Confirms e.served_name o.model.served_name

-- Some configured attribute is observed with another value.
abbrev pub IsConflicting : Option ModelRef → Option ModelIdentityObservation → Type 0
IsConflicting expected observed =
    (e : ModelRef) × (o : ModelIdentityObservation) × (expected ≡ some e)
    × (observed ≡ some o)
    × (Differs (some e.artifact_id) (some o.model.artifact_id)
        ⊎ (Differs e.revision o.model.revision ⊎ Differs e.served_name o.model.served_name))

abbrev is_clean : Comparison → Bool
is_clean c = is_empty c.mismatches && not c.missing_evidence

compare_values-clean :
    (name : String) (e o : Option String) (c : Comparison)
    → is_clean (compare_values name e o c) ≡ true
    → Confirms e o × (is_clean c ≡ true)
unfolding compare_values
compare_values-clean name none o c h = (λ v f. cc, h)
compare_values-clean name (some e) none c h = absurd (ground arith)
compare_values-clean name (some e) (some o) c h = elim (Bool-cases (o == e)) [
  | inl same ↦ (λ v f. ground (arith, eq_iff o e), rw same at h)
  | inr differ ↦ absurd (ground arith)
]

compare_values-confirmed :
    (name : String) (e o : Option String) (c : Comparison)
    → Confirms e o
    → is_clean c ≡ true
    → is_clean (compare_values name e o c) ≡ true
unfolding compare_values
compare_values-confirmed name none o c confirms h = h
compare_values-confirmed name (some e) none c confirms h = absurd (let f = confirms e refl in cc)
compare_values-confirmed name (some e) (some o) c confirms h =
    let same : o ≡ e = some_inj (confirms e refl) in rw (same, eq_refl) h

compare_values-conflict :
    (name : String) (e o : Option String) (c : Comparison)
    → is_empty (compare_values name e o c).mismatches ≡ false
    → Differs e o ⊎ (is_empty c.mismatches ≡ false)
unfolding compare_values
compare_values-conflict name none o c h = inr h
compare_values-conflict name (some e) none c h = inr h
compare_values-conflict name (some e) (some o) c h = elim (Bool-cases (o == e)) [
  | inl same ↦ inr (rw same at h)
  | inr differ ↦ inl (e, o, refl, refl, differ)
]

compare_values-Differs :
    (name : String) (e o : Option String) (c : Comparison)
    → Differs e o ⊎ (is_empty c.mismatches ≡ false)
    → is_empty (compare_values name e o c).mismatches ≡ false
unfolding compare_values
compare_values-Differs name none o c (inl (v, w, f, g, differ)) = absurd cc
compare_values-Differs name none o c (inr h) = h
compare_values-Differs name (some e) none c (inl (v, w, f, g, differ)) = absurd cc
compare_values-Differs name (some e) none c (inr h) = h
compare_values-Differs name (some e) (some o) c (inl (v, w, f, g, differ)) =
    let here : (o == e) ≡ false = rw (some_inj f, some_inj g) differ in rw here refl
compare_values-Differs name (some e) (some o) c (inr h) = ground arith

-- The three comparisons, from the last to the first.
compared-Confirms :
    (e m : ModelRef)
    → is_clean (compare_fields (evidence_of e m)) ≡ true
    → Confirms (some e.artifact_id) (some m.artifact_id)
      × Confirms e.revision m.revision
      × Confirms e.served_name m.served_name
unfolding compare_fields evidence_of
compared-Confirms e m h =
    let (artifact, h₁) = compare_values-clean "artifact_id" _ _ _ h in
    let (revision, h₂) = compare_values-clean "revision" _ _ _ h₁ in
    let (served, h₃) = compare_values-clean "served_name" _ _ _ h₂ in (artifact, revision, served)

compared-clean :
    (e m : ModelRef)
    → Confirms (some e.artifact_id) (some m.artifact_id)
    → Confirms e.revision m.revision
    → Confirms e.served_name m.served_name
    → is_clean (compare_fields (evidence_of e m)) ≡ true
unfolding compare_fields evidence_of
compared-clean e m artifact revision served =
    compare_values-confirmed "artifact_id" _ _ _ artifact (
      compare_values-confirmed "revision" _ _ _ revision
        (compare_values-confirmed "served_name" _ _ _ served refl))

compared-Differs :
    (e m : ModelRef)
    → is_empty (compare_fields (evidence_of e m)).mismatches ≡ false
    → Differs (some e.artifact_id) (some m.artifact_id)
      ⊎ (Differs e.revision m.revision ⊎ Differs e.served_name m.served_name)
unfolding compare_fields evidence_of
compared-Differs e m h = elim (compare_values-conflict "artifact_id" _ _ _ h) [
  | inl d ↦ inl d
  | inr h₁ ↦ elim (compare_values-conflict "revision" _ _ _ h₁) [
    | inl d ↦ inr (inl d)
    | inr h₂ ↦ elim (compare_values-conflict "served_name" _ _ _ h₂) [
      | inl d ↦ inr (inr d)
      | inr h₃ ↦ absurd cc
    ]
  ]
]

compared-conflict :
    (e m : ModelRef)
    → Differs (some e.artifact_id) (some m.artifact_id)
      ⊎ (Differs e.revision m.revision ⊎ Differs e.served_name m.served_name)
    → is_empty (compare_fields (evidence_of e m)).mismatches ≡ false
unfolding compare_fields evidence_of
compared-conflict e m (inl d) = compare_values-Differs "artifact_id" _ _ _ (inl d)
compared-conflict e m (inr (inl d)) =
    compare_values-Differs "artifact_id" _ _ _
      (inr (compare_values-Differs "revision" _ _ _ (inl d)))
compared-conflict e m (inr (inr d)) = compare_values-Differs "artifact_id" _ _ _ (
    inr (
      compare_values-Differs "revision" _ _ _
        (inr (compare_values-Differs "served_name" _ _ _ (inl d)))))

-- The result of a comparison, by what it found.
abbrev IsAssessed : ModelRef → ModelIdentityObservation → Comparison → Type 0
IsAssessed e o c =
    (a : IdentityAssessment) × (assess_comparison e o c ≡ ok a)
    × (a.mismatched_fields ≡ c.mismatches)
    × ((a.status ≡ verified) ↔ ((is_clean c && not o.catalog_only) ≡ true))
    × ((a.status ≡ mismatch) ↔ (is_empty c.mismatches ≡ false))

clean-IsAssessed :
    (e : ModelRef) (o : ModelIdentityObservation)
    → IsAssessed e o (record { mismatches = []; missing_evidence = false })
unfolding assess_comparison make_assessment matching_status is_mismatch
clean-IsAssessed e o = elim (Bool-cases o.catalog_only) [
  | inl catalog ↦
      rw catalog (_, refl, refl, (λ h. absurd cc, λ h. absurd cc), (λ h. absurd cc, λ h. absurd cc))
  | inr model ↦ rw model (_, refl, refl, (λ h. refl, λ h. refl), (λ h. absurd cc, λ h. absurd cc))
]

compared-IsAssessed :
    (e : ModelRef) (o : ModelIdentityObservation) (names : List String) (missing : Bool)
    → IsAssessed e o (record { mismatches = names; missing_evidence = missing })
unfolding assess_comparison make_assessment matching_status is_mismatch
compared-IsAssessed e o [] true =
    (_, refl, refl, (λ h. absurd cc, λ h. absurd cc), (λ h. absurd cc, λ h. absurd cc))
compared-IsAssessed e o [] false = clean-IsAssessed e o
compared-IsAssessed e o (name ∷ names) missing =
    (_, refl, refl, (λ h. absurd cc, λ h. absurd cc), (λ h. refl, λ h. refl))

compared-verified :
    (e : ModelRef) (o : ModelIdentityObservation) (v : IdentityVerification)
    → ((v ≡ verified)
        ↔ ((is_clean (compare_fields (evidence_of e o.model)) && not o.catalog_only) ≡ true))
    → (v ≡ verified) ↔ IsConfirmed (some e) (some o)
compared-verified e o v iff = (
  λ h.
      let both = iff.0 h in
      let confirms = compared-Confirms e o.model (ground arith) in
      (e, o, refl, refl, ground arith, confirms.0, confirms.1, confirms.2),
  λ h.
      let (e', o', same_e, same_o, catalog, artifact, revision, served) = h in
      let clean = compared-clean e' o'.model artifact revision served in
      iff.1 (rw (some_inj same_e, some_inj same_o, clean, catalog) refl),
)

compared-mismatch :
    (e : ModelRef) (o : ModelIdentityObservation) (v : IdentityVerification)
    → ((v ≡ mismatch) ↔ (is_empty (compare_fields (evidence_of e o.model)).mismatches ≡ false))
    → (v ≡ mismatch) ↔ IsConflicting (some e) (some o)
compared-mismatch e o v iff = (
  λ h. (e, o, refl, refl, compared-Differs e o.model (iff.0 h)),
  λ h.
      let (e', o', same_e, same_o, differs) = h in
      iff.1 (rw (some_inj same_e, some_inj same_o) (compared-conflict e' o'.model differs)),
)

-- The assessment never raises. It is verified exactly when every configured attribute of the model is
-- observed as configured, and not in a catalog alone; it is a mismatch exactly when a configured
-- attribute is observed with another value.
pub assessed_identity :
    (expected : Option ModelRef) (observed : Option ModelIdentityObservation)
    → (a : IdentityAssessment) × (assess_model_identity expected observed ≡ ok a)
      × ((a.status ≡ verified) ↔ IsConfirmed expected observed)
      × ((a.status ≡ mismatch) ↔ IsConflicting expected observed)
unfolding assess_model_identity make_assessment is_mismatch
assessed_identity none observed = (
  _,
  refl,
  (λ h. absurd cc, λ h. absurd (let same = h.2 in cc)),
  (λ h. absurd cc, λ h. absurd (let same = h.2 in cc)),
)
assessed_identity (some e) none = (
  _,
  refl,
  (λ h. absurd cc, λ h. absurd (let same = h.3 in cc)),
  (λ h. absurd cc, λ h. absurd (let same = h.3 in cc)),
)
assessed_identity (some e) (some o) =
    let c = compare_fields (evidence_of e o.model) in
    let (a, ends, names, is_verified, is_mismatched) =
      compared-IsAssessed e o c.mismatches c.missing_evidence in
    (
      a,
      ends,
      compared-verified e o a.status is_verified,
      compared-mismatch e o a.status is_mismatched,
    )
