-- ===== src/Inference/Router/Preference.antt =====
-- The preferred deployments of backend/inference/router.py come first, and no deployment is left out.
use ryuk.Prelude.{
  String, Bool, not, List, [], ◌∷◌, ◌++◌, ◌≡◌, refl, ap, sym, inl, inr, filter, Bool-cases,
  is_empty, All,
}
use mathlib.Core.Path.{subst}
use mathlib.Core.List.{Perm, perm_middle}
use mathlib.Core.List.Perm
use ryuk.Inference.Registry.{RegisteredDeployment}
use ryuk.Inference.Router.{prefer, is_on}

module _ (p q : RegisteredDeployment → Bool) where
  filter-append :
      (xs ys : List RegisteredDeployment) → filter p (xs ++ ys) ≡ filter p xs ++ filter p ys
  unfolding filter
  filter-append [] ys = refl
  filter-append (x ∷ xs) ys = elim (Bool-cases (p x)) [
    | inl passes ↦ rw passes (ap (◌∷◌ x) (filter-append xs ys))
    | inr fails ↦ rw fails (filter-append xs ys)
  ]

  -- The elements that pass one test, in two parts.
  filter-parts :
      (xs : List RegisteredDeployment)
      → Perm (filter p (filter q xs) ++ filter p (filter (λ x. not (q x)) xs)) (filter p xs)
  unfolding filter
  filter-parts [] = Perm.refl []
  filter-parts (x ∷ xs) = elim (Bool-cases (q x)) [
    | inl first ↦ elim (Bool-cases (p x)) [
      | inl passes ↦ rw (first, passes) (Perm.cons x (filter-parts xs))
      | inr fails ↦ rw (first, fails) (filter-parts xs)
    ]
    | inr later ↦ elim (Bool-cases (p x)) [
      | inl passes ↦
          rw (later, passes)
            (Perm.trans
              (perm_middle (filter p (filter q xs)) (filter p (filter (λ y. not (q y)) xs)))
              (Perm.cons x (filter-parts xs)))
      | inr fails ↦ rw (later, fails) (filter-parts xs)
    ]
  ]

pub prefer-Perm :
    (p : RegisteredDeployment → Bool) (name : String) (ds : List RegisteredDeployment)
    → Perm (filter p (prefer name ds)) (filter p ds)
unfolding prefer
prefer-Perm p name ds =
    subst (λ (xs : List RegisteredDeployment). Perm xs (filter p ds))
      (sym (
        filter-append p (is_on name) (filter (is_on name) ds)
          (filter (λ d. not (is_on name d)) ds)))
      (filter-parts p (is_on name) ds)

pub Perm-is_empty : (xs ys : List RegisteredDeployment) → Perm xs ys → is_empty xs ≡ is_empty ys
Perm-is_empty [] [] h = refl
Perm-is_empty [] (y ∷ ys) h = absurd (let e = Perm.nil-eq h in cc)
Perm-is_empty (x ∷ xs) [] h = absurd (let e = Perm.eq-nil h in cc)
Perm-is_empty (x ∷ xs) (y ∷ ys) h = refl

module _ (P : RegisteredDeployment → Type 0) (q : RegisteredDeployment → Bool) where
  All-append : (xs ys : List RegisteredDeployment) → All P (xs ++ ys) → All P xs × All P ys
  All-append [] ys h = (tt, h)
  All-append (x ∷ xs) ys (here, h) = let (left, right) = All-append xs ys h in ((here, left), right)

  All-parts :
      (xs : List RegisteredDeployment)
      → All P (filter q xs)
      → All P (filter (λ x. not (q x)) xs)
      → All P xs
  unfolding filter
  All-parts [] h k = tt
  All-parts (x ∷ xs) h k = elim (Bool-cases (q x)) [
    | inl first ↦ let (here, left) = rw first at h in (here, All-parts xs left (rw first at k))
    | inr later ↦ let (here, right) = rw later at k in (here, All-parts xs (rw later at h) right)
  ]

pub prefer-All :
    (P : RegisteredDeployment → Type 0) (name : String) (ds : List RegisteredDeployment)
    → All P (prefer name ds)
    → All P ds
unfolding prefer
prefer-All P name ds h =
    let (left, right) =
      All-append P (is_on name) (filter (is_on name) ds) (filter (λ d. not (is_on name d)) ds) h in
    All-parts P (is_on name) ds left right
