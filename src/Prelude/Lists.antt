-- ===== src/Prelude/Lists.antt =====
-- Lists measured by native numbers, tests on lists, and membership by recursion.
use Prim.Native.Nat.{ℕ, zero, suc, ◌+◌, ◌-◌, ◌≤◌, ◌<◌}
use Prim.Native.String.{String}
use mathlib.Core.Path.{◌≡◌, refl, ap}
use mathlib.Core.Logic.{◌⊎◌, inl, inr}
use mathlib.Core.Bool.{Bool, true, false, not, ◌&&◌, ◌||◌}
use mathlib.Core.List.{List, [], ◌∷◌, ◌++◌}
use native.Mathlib.Omega.{arith}
use text.Mathlib.Text.{◌==◌}
use text.Mathlib.TextEquality.{eq_iff}
use text.Mathlib.TextPositions.{eq_refl}
use ryuk.Prelude.Tests.{if◌then◌else◌, Bool-cases}

module _ {ℓ} {A : Type ℓ} where
  abbrev pub length : List A → ℕ
  length [] = 0
  length (x ∷ xs) = suc (length xs)

  abbrev pub drop : ℕ → List A → List A
  drop zero xs = xs
  drop (suc n) [] = []
  drop (suc n) (x ∷ xs) = drop n xs

  abbrev pub any : (A → Bool) → List A → Bool
  any p [] = false
  any p (x ∷ xs) = p x || any p xs

  abbrev pub all : (A → Bool) → List A → Bool
  all p [] = true
  all p (x ∷ xs) = p x && all p xs

  -- Every element satisfies `P`.
  abbrev pub All {κ} : (A → Type κ) → List A → Type κ
  All P [] = Unit
  All P (x ∷ xs) = P x × All P xs

  pub length-append : (xs ys : List A) → length (xs ++ ys) ≡ length xs + length ys
  length-append [] ys = omega arith
  length-append (x ∷ xs) ys = omega (arith, length-append xs ys)

  pub length-drop : (n : ℕ) (xs : List A) → length (drop n xs) ≡ length xs - n
  length-drop zero xs = omega arith
  length-drop (suc n) [] = omega arith
  length-drop (suc n) (x ∷ xs) = omega (arith, length-drop n xs)

-- The elements that pass.
unfoldable pub filter {ℓ} : {A : Type ℓ} → (A → Bool) → List A → List A
filter p [] = []
filter p (x ∷ xs) = let rest = filter p xs in if p x then x ∷ rest else rest

abbrev pub is_empty {ℓ} : {A : Type ℓ} → List A → Bool
is_empty [] = true
is_empty (x ∷ xs) = false

-- The element stands in the list.
abbrev pub Has : {A : Type 0} → List A → A → Type 0
Has [] a = ⊥
Has (x ∷ xs) a = (x ≡ a) ⊎ Has xs a

-- `name in names`
abbrev pub contains : String → List String → Bool
contains k [] = false
contains k (x ∷ xs) = x == k || contains k xs

contains_cong : (k x : String) (p : String → Bool) → (x == k) ≡ true → p x ≡ p k
contains_cong k x p e = ap p ((eq_iff x k).0 e)

pub contains-filter :
    (k : String) (p : String → Bool) (xs : List String)
    → contains k (filter p xs) ≡ (contains k xs && p k)
unfolding filter
contains-filter k p [] = refl
contains-filter k p (x ∷ xs) = ground (arith, contains-filter k p xs, contains_cong k x p)

pub length-filter-le {ℓ} :
    {A : Type ℓ} (p : A → Bool) (xs : List A) → length (filter p xs) ≤ length xs
unfolding filter
length-filter-le p [] = omega arith
length-filter-le p (x ∷ xs) = ground (arith, length-filter-le p xs)

-- A filter that drops an element makes the list shorter.
pub length-filter-lt :
    (k : String) (p : String → Bool) (xs : List String)
    → contains k xs ≡ true
    → p k ≡ false
    → length (filter p xs) < length xs
unfolding filter
length-filter-lt k p [] h e = ground arith
length-filter-lt k p (x ∷ xs) h e =
    ground (arith, length-filter-lt k p xs, length-filter-le p xs, contains_cong k x p)

pub any_of_contains :
    (d : String) (p : String → Bool) (xs : List String)
    → contains d xs ≡ true
    → p d ≡ true
    → any p xs ≡ true
any_of_contains d p [] h e = ground arith
any_of_contains d p (x ∷ xs) h e = ground (arith, any_of_contains d p xs, contains_cong d x p)

pub contains_of_any :
    (p : String → Bool) (xs : List String)
    → any p xs ≡ true
    → (d : String) × (contains d xs ≡ true) × (p d ≡ true)
contains_of_any p [] h = absurd (ground arith)
contains_of_any p (x ∷ xs) h = elim (Bool-cases (p x)) [
  | inl passes ↦ (x, rw eq_refl, passes)
  | inr fails ↦
      let (d, here, passes) = contains_of_any p xs (rw fails at h) in (d, ground arith, passes)
]

-- `len(set(names)) == len(names)`
unfoldable pub is_distinct : List String → Bool
is_distinct [] = true
is_distinct (x ∷ xs) = not (contains x xs) && is_distinct xs

-- Equality of two tuples of names.
unfoldable pub same_names : List String → List String → Bool
same_names [] [] = true
same_names (x ∷ xs) (y ∷ ys) = x == y && same_names xs ys
same_names _ _ = false
