-- ===== src/Prelude/Sorting.antt =====
-- Python's `list.sort`: the sorted list is ordered, has the same elements, and keeps the order of
-- elements that the test takes for equal.
use mathlib.Core.Path.{◌≡◌}
use mathlib.Core.Logic.{inl, inr}
use mathlib.Core.Bool.{Bool, true, false}
use mathlib.Core.List.{List, [], ◌∷◌, Perm}
use mathlib.Core.List.Perm
use ryuk.Prelude.Lists.{All}
use ryuk.Prelude.Tests.{if◌then◌else◌, Bool-cases}

module _ {A : Type 0} (le : A → A → Bool) where
  -- Before the first element that is not below.
  unfoldable pub insert_sorted : A → List A → List A
  insert_sorted a [] = a ∷ []
  insert_sorted a (x ∷ xs) =
      let later = insert_sorted a xs in if le a x then a ∷ x ∷ xs else x ∷ later

  unfoldable pub sort_by : List A → List A
  sort_by [] = []
  sort_by (x ∷ xs) = insert_sorted x (sort_by xs)

  -- Each element is at most the next.
  abbrev pub IsOrdered : List A → Type 0
  IsOrdered [] = Unit
  IsOrdered (x ∷ []) = Unit
  IsOrdered (x ∷ y ∷ ys) = (le x y ≡ true) × IsOrdered (y ∷ ys)

  insert_sorted-perm : (a : A) (xs : List A) → Perm (insert_sorted a xs) (a ∷ xs)
  unfolding insert_sorted
  insert_sorted-perm a [] = Perm.refl (a ∷ [])
  insert_sorted-perm a (x ∷ xs) = elim (Bool-cases (le a x)) [
    | inl below ↦ rw below (Perm.refl (a ∷ x ∷ xs))
    | inr above ↦ rw above (Perm.trans (Perm.cons x (insert_sorted-perm a xs)) (Perm.swap a x xs))
  ]

  pub sort_by-perm : (xs : List A) → Perm (sort_by xs) xs
  unfolding sort_by
  sort_by-perm [] = Perm.refl []
  sort_by-perm (x ∷ xs) =
      Perm.trans (insert_sorted-perm x (sort_by xs)) (Perm.cons x (sort_by-perm xs))

  insert_sorted-All :
      (P : A → Type 0) (a : A) (xs : List A) → P a → All P xs → All P (insert_sorted a xs)
  unfolding insert_sorted
  insert_sorted-All P a [] here h = (here, tt)
  insert_sorted-All P a (x ∷ xs) here h = elim (Bool-cases (le a x)) [
    | inl below ↦ rw below (here, h)
    | inr above ↦ rw above (h.0, insert_sorted-All P a xs here h.1)
  ]

  pub sort_by-All : (P : A → Type 0) (xs : List A) → All P xs → All P (sort_by xs)
  unfolding sort_by
  sort_by-All P [] h = tt
  sort_by-All P (x ∷ xs) h = insert_sorted-All P x (sort_by xs) h.0 (sort_by-All P xs h.1)

  module _ (total : (a b : A) → le a b ≡ false → le b a ≡ true) where
    insert_sorted-IsOrdered : (a : A) (xs : List A) → IsOrdered xs → IsOrdered (insert_sorted a xs)
    unfolding insert_sorted
    insert_sorted-IsOrdered a [] h = tt
    insert_sorted-IsOrdered a (x ∷ []) h = elim (Bool-cases (le a x)) [
      | inl below ↦ rw below (below, tt)
      | inr above ↦ rw above (total a x above, tt)
    ]
    insert_sorted-IsOrdered a (x ∷ y ∷ ys) h =
        let later = insert_sorted-IsOrdered a (y ∷ ys) h.1 in
        elim (Bool-cases (le a x)) [
          | inl below ↦ rw below (below, h)
          | inr above ↦ elim (Bool-cases (le a y)) [
            | inl between ↦ rw (above, between) (total a x above, (between, h.1))
            | inr beyond ↦ rw (above, beyond) (h.0, rw beyond at later)
          ]
        ]

    pub sort_by-IsOrdered : (xs : List A) → IsOrdered (sort_by xs)
    unfolding sort_by
    sort_by-IsOrdered [] = tt
    sort_by-IsOrdered (x ∷ xs) = insert_sorted-IsOrdered x (sort_by xs) (sort_by-IsOrdered xs)
