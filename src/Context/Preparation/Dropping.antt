-- ===== src/Context/Preparation/Dropping.antt =====
-- What the loop of backend/context/preparation.py that drops segments keeps.
use ryuk.Prelude.{
  ℕ, String, ◌+◌, Bool, true, false, not, ◌||◌, List, [], ◌∷◌, map, any, ◌==◌, ◌≡◌, refl, ◌∙◌, ap,
  sym, ◌⊎◌, inl, inr, contains, filter, is_distinct, All, arith, eq_iff, Bool-cases,
}
use mathlib.Core.Path.{subst}
use ryuk.Context.Contracts.{ContextSegment}
use ryuk.Context.Preparation.{is_required, is_optional, without, enumerate, kept_of, same_segment}

abbrev pub id_of : ContextSegment → String
id_of s = s.source_id

abbrev pub required_of : List ContextSegment → List ContextSegment
required_of segments = filter is_required segments

-- No segment of the list has the other's identifier.
abbrev pub Apart : ContextSegment → List ContextSegment → Type 0
Apart s rs = All (λ (r : ContextSegment). (r.source_id == s.source_id) ≡ false) rs

abbrev pub RequiredOrApart : List ContextSegment → ContextSegment → Type 0
RequiredOrApart rs s = (s.required ≡ true) ⊎ Apart s rs

pub differ_sym : (a b : String) → (a == b) ≡ false → (b == a) ≡ false
differ_sym a b h = elim (Bool-cases (b == a)) [
  | inl same ↦ absurd (let e = (eq_iff b a).0 same in let g = (eq_iff a b).1 (sym e) in cc)
  | inr differ ↦ differ
]

apart_more :
    (x : ContextSegment) (ss rs : List ContextSegment)
    → contains x.source_id (map id_of ss) ≡ false
    → All (RequiredOrApart rs) ss
    → All (RequiredOrApart (x ∷ rs)) ss
apart_more x [] rs h a = tt
apart_more x (s ∷ ss) rs h (inl required, a) = (inl required, apart_more x ss rs (ground arith) a)
apart_more x (s ∷ ss) rs h (inr apart, a) = (
  inr (differ_sym s.source_id x.source_id (ground arith), apart),
  apart_more x ss rs (ground arith) a,
)

fresh-Apart :
    (x : ContextSegment) (ss : List ContextSegment)
    → contains x.source_id (map id_of ss) ≡ false
    → Apart x (required_of ss)
unfolding filter
fresh-Apart x [] h = tt
fresh-Apart x (s ∷ ss) h = elim (Bool-cases s.required) [
  | inl required ↦ rw required (ground arith, fresh-Apart x ss (ground arith))
  | inr optional ↦ rw optional (fresh-Apart x ss (ground arith))
]

pub filter-passing :
    {T : Type 0} (p : T → Bool) (x : T) (xs : List T)
    → p x ≡ true
    → filter p (x ∷ xs) ≡ x ∷ filter p xs
unfolding filter
filter-passing p x xs h = rw h

pub filter-failing :
    {T : Type 0} (p : T → Bool) (x : T) (xs : List T)
    → p x ≡ false
    → filter p (x ∷ xs) ≡ filter p xs
unfolding filter
filter-failing p x xs h = rw h

pub distinct-apart :
    (ss : List ContextSegment)
    → is_distinct (map id_of ss) ≡ true
    → All (RequiredOrApart (required_of ss)) ss
unfolding is_distinct
distinct-apart [] h = tt
distinct-apart (s ∷ ss) h =
    let fresh : contains s.source_id (map id_of ss) ≡ false = ground arith in
    let later = distinct-apart ss (ground arith) in
    elim (Bool-cases s.required) [
      | inl required ↦
          subst (λ (rs : List ContextSegment). All (RequiredOrApart rs) (s ∷ ss))
            (sym (filter-passing is_required s ss required))
            (inl required, apart_more s ss (required_of ss) fresh later)
      | inr optional ↦
          subst (λ (rs : List ContextSegment). All (RequiredOrApart rs) (s ∷ ss))
            (sym (filter-failing is_required s ss (ap (λ (b : Bool). b) optional)))
            (inr (fresh-Apart s ss fresh), later)
    ]

pub filter-All :
    {T : Type 0} (P : T → Type 0) (p : T → Bool) (xs : List T) → All P xs → All P (filter p xs)
unfolding filter
filter-All P p [] a = tt
filter-All P p (x ∷ xs) a = elim (Bool-cases (p x)) [
  | inl here ↦ rw here (a.0, filter-All P p xs a.1)
  | inr elsewhere ↦ rw elsewhere (filter-All P p xs a.1)
]

pub optional-Apart :
    (rs : List ContextSegment) (n : ℕ) (ss : List ContextSegment)
    → All (RequiredOrApart rs) ss
    → All
        (λ (p : ℕ × ContextSegment). Apart p.1 rs)
        (filter (λ p. is_optional p.1) (enumerate n ss))
unfolding filter enumerate
optional-Apart rs n [] a = tt
optional-Apart rs n (s ∷ ss) (here, a) = elim (Bool-cases s.required) [
  | inl required ↦ rw required (optional-Apart rs (n + 1) ss a)
  | inr optional ↦
      rw optional (elim here [
        | inl required ↦ absurd cc
        | inr apart ↦ (apart, optional-Apart rs (n + 1) ss a)
      ])
]

tail-Apart :
    (s x : ContextSegment) (xs : List ContextSegment)
    → Apart s (required_of (x ∷ xs))
    → Apart s (required_of xs)
tail-Apart s x xs a = elim (Bool-cases (is_required x)) [
  | inl required ↦ (subst (Apart s) (filter-passing is_required x xs required) a).1
  | inr optional ↦ subst (Apart s) (filter-failing is_required x xs optional) a
]

pub without-kept :
    (i : String) (x : ContextSegment) (xs : List ContextSegment)
    → (x.source_id == i) ≡ false
    → without i (x ∷ xs) ≡ x ∷ without i xs
unfolding without
without-kept i x xs h =
    filter-passing (λ (s : ContextSegment). not (s.source_id == i)) x xs (ap not h)

pub without-dropped :
    (i : String) (x : ContextSegment) (xs : List ContextSegment)
    → (x.source_id == i) ≡ true
    → without i (x ∷ xs) ≡ without i xs
unfolding without
without-dropped i x xs h =
    filter-failing (λ (s : ContextSegment). not (s.source_id == i)) x xs (ap not h)

required_of_cong :
    (x : ContextSegment) (xs ys : List ContextSegment)
    → required_of xs ≡ required_of ys
    → required_of (x ∷ xs) ≡ required_of (x ∷ ys)
required_of_cong x xs ys h = elim (Bool-cases (is_required x)) [
  | inl required ↦
      filter-passing is_required x xs required
      ∙ ap (◌∷◌ x) h
      ∙ sym (filter-passing is_required x ys required)
  | inr optional ↦
      filter-failing is_required x xs optional ∙ h ∙ sym (filter-failing is_required x ys optional)
]

pub without-required_of :
    (s : ContextSegment) (ss : List ContextSegment)
    → Apart s (required_of ss)
    → required_of (without s.source_id ss) ≡ required_of ss
unfolding filter without
without-required_of s [] a = refl
without-required_of s (x ∷ xs) a = elim (Bool-cases (x.source_id == s.source_id)) [
  | inl same ↦ elim (Bool-cases (is_required x)) [
    | inl required ↦
        let (differ, later) = subst (Apart s) (filter-passing is_required x xs required) a in
        absurd cc
    | inr optional ↦
        ap required_of (without-dropped s.source_id x xs same)
        ∙ without-required_of s xs (subst (Apart s) (filter-failing is_required x xs optional) a)
        ∙ sym (filter-failing is_required x xs optional)
  ]
  | inr differ ↦
      ap required_of (without-kept s.source_id x xs differ)
      ∙ required_of_cong x (without s.source_id xs) xs
          (without-required_of s xs (tail-Apart s x xs a))
]

pub kept_of-required_of :
    (chosen ss : List ContextSegment) → required_of (kept_of chosen ss) ≡ required_of ss
unfolding filter kept_of
kept_of-required_of chosen [] = refl
kept_of-required_of chosen (s ∷ ss) =
    let keeps : ContextSegment → Bool = λ t. t.required || any (same_segment t) chosen in
    elim (Bool-cases (keeps s)) [
      | inl kept ↦
          ap required_of (filter-passing keeps s ss kept)
          ∙ required_of_cong s (kept_of chosen ss) ss (kept_of-required_of chosen ss)
      | inr left ↦
          ap required_of (filter-failing keeps s ss left)
          ∙ kept_of-required_of chosen ss
          ∙ sym (filter-failing is_required s ss (ground arith))
    ]
