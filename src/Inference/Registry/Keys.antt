-- ===== src/Inference/Registry/Keys.antt =====
-- What the registries of backend/inference/registry.py find after each change.
use ryuk.Prelude.{
  ℕ, String, true, false, Option, none, some, List, [], ◌∷◌, ◌≡◌, refl, ◌∙◌, ap, sym, inl, inr,
  if◌then◌else◌, Bool-cases, arith,
}
use ryuk.Prelude.Result.{ok, bind-ok, ok_inj, raise_if, raise_if-ok}
use ryuk.Prelude.Text.{codes, strip, lower, same_codes}
use ryuk.Inference.Registry.{
  RegisteredDeployment, DeploymentRegistry, CodeDict, find_key, store, register, get_deployment,
  is_found,
}

same_codes-eq : (xs ys : List ℕ) → same_codes xs ys ≡ true → xs ≡ ys
unfolding same_codes
same_codes-eq [] [] h = refl
same_codes-eq [] (y ∷ ys) h = absurd (ground arith)
same_codes-eq (x ∷ xs) [] h = absurd (ground arith)
same_codes-eq (x ∷ xs) (y ∷ ys) h =
    let heads : x ≡ y = ground arith in let tails = same_codes-eq xs ys (ground arith) in cc

same_codes_refl : (xs : List ℕ) → same_codes xs xs ≡ true
unfolding same_codes
same_codes_refl [] = refl
same_codes_refl (x ∷ xs) = ground (arith, same_codes_refl xs)

same_codes-sym : (xs ys : List ℕ) → same_codes xs ys ≡ true → same_codes ys xs ≡ true
same_codes-sym xs ys h = rw (same_codes-eq xs ys h) (same_codes_refl ys)

not_sym : (xs ys : List ℕ) → same_codes ys xs ≡ false → same_codes xs ys ≡ false
not_sym xs ys h = elim (Bool-cases (same_codes xs ys)) [
  | inl same ↦ absurd (let e = same_codes-sym xs ys same in cc)
  | inr differ ↦ differ
]

module _ {V : Type 0} where
  -- A store finds the new value under its key, and the old ones elsewhere.
  find_key-store :
      (k j : List ℕ) (v : V) (d : CodeDict V)
      → find_key j (store k v d) ≡ (if same_codes k j then some v else find_key j d)
  unfolding find_key store
  find_key-store k j v [] = refl
  find_key-store k j v ((i, w) ∷ d) = elim (Bool-cases (same_codes i k)) [
    | inl same ↦
        let tests : same_codes k j ≡ same_codes i j =
          ap (λ key. same_codes key j) (sym (same_codes-eq i k same)) in
        rw (same, tests)
          (elim (Bool-cases (same_codes i j)) [
            | inl here ↦ rw here refl
            | inr elsewhere ↦ rw elsewhere refl
          ])
    | inr differ ↦ elim (Bool-cases (same_codes i j)) [
      | inl here ↦
          let tests : same_codes k j ≡ false =
            ap (λ key. same_codes k key) (sym (same_codes-eq i j here)) ∙ not_sym k i differ in
          rw (differ, here, tests) refl
      | inr elsewhere ↦ rw (differ, elsewhere) (find_key-store k j v d)
    ]
  ]

abbrev key_of : RegisteredDeployment → List ℕ
key_of d = lower (codes d.ref.deployment_id)

-- No two entries have one key.
abbrev pub IsKeyedById : DeploymentRegistry → Type 0
IsKeyedById [] = Unit
IsKeyedById ((k, d) ∷ rest) = (k ≡ key_of d) × (find_key k rest ≡ none) × IsKeyedById rest

store-IsKeyed :
    (d : RegisteredDeployment) (registry : DeploymentRegistry)
    → find_key (key_of d) registry ≡ none
    → IsKeyedById registry
    → IsKeyedById (store (key_of d) d registry)
unfolding find_key store
store-IsKeyed d [] fresh h = (refl, refl, tt)
store-IsKeyed d ((k, e) ∷ rest) fresh h = elim (Bool-cases (same_codes k (key_of d))) [
  | inl same ↦ absurd (let found = rw same at fresh in cc)
  | inr differ ↦ rw differ (
    h.0,
    rw (find_key-store (key_of d) k d rest, not_sym (key_of d) k differ) h.1,
    store-IsKeyed d rest (rw differ at fresh) h.2,
  )
]

is_found-none : (o : Option RegisteredDeployment) → is_found o ≡ false → o ≡ none
unfolding is_found
is_found-none none h = refl
is_found-none (some d) h = absurd cc

-- A registration that returns keeps the keys apart: each entry stands under the lower case of its
-- deployment's name, and under no other entry's. The new deployment is found under every spelling of
-- its name, up to case and outer spaces, and every other name finds what it found before.
pub register-found :
    (d : RegisteredDeployment) (name : String) (registry after : DeploymentRegistry)
    → IsKeyedById registry
    → register d registry ≡ ok after
    → IsKeyedById after
      × (get_deployment name after ≡ (
          if same_codes (lower (codes d.ref.deployment_id)) (lower (strip (codes name)))
          then ok d
          else get_deployment name registry))
unfolding register get_deployment
register-found d name registry after keyed h =
    let (nothing, absent, ended) =
      bind-ok (raise_if (is_found (find_key (key_of d) registry)) _) _ h in
    let fresh = is_found-none (find_key (key_of d) registry) (raise_if-ok _ _ absent) in
    let same : store (key_of d) d registry ≡ after = ok_inj ended in
    rw⁻¹ same (
      store-IsKeyed d registry fresh keyed,
      rw (find_key-store (key_of d) (lower (strip (codes name))) d registry)
          (elim (Bool-cases (same_codes (key_of d) (lower (strip (codes name))))) [
            | inl here ↦ rw here refl
            | inr elsewhere ↦ rw elsewhere refl
          ]),
    )
