-- ===== src/Context/Preparation/Loop.antt =====
-- What the fitting of backend/context/preparation.py ends with.
use ryuk.Prelude.{
  ℕ, String, ◌+◌, Bool, true, false, not, ◌||◌, List, [], ◌∷◌, ◌++◌, map, ◌==◌, ◌≡◌, refl, ◌∙◌, ap,
  sym, ◌⊎◌, inl, inr, ltb, leb, contains, filter, All, arith, eq_refl, Bool-cases,
}
use mathlib.Core.Path.{subst}
use ryuk.Prelude.Result.{ok, bind-ok, ok_inj}
use ryuk.Prelude.Sorting.{sort_by, insert_sorted, sort_by-All}
use ryuk.Context.Contracts.{ContextSegment}
use ryuk.Context.Preparation.{
  Counter, Fitting, is_required, is_optional, without, enumerate, drops_first, drop_order,
  drop_until, count_segments, fit,
}
use ryuk.Context.Profiles.{ContextPreparationProfile}
use ryuk.Context.Preparation.Dropping.{
  required_of, Apart, RequiredOrApart, differ_sym, filter-passing, filter-failing, optional-Apart,
  without-required_of, without-kept, without-dropped,
}

-- The identifiers of an order.
abbrev ids_of : List (ℕ × ContextSegment) → List String
ids_of order = map (λ (p : ℕ × ContextSegment). p.1.source_id) order

abbrev Covers : List (ℕ × ContextSegment) → ContextSegment → Type 0
Covers order s = (s.required ≡ true) ⊎ (contains s.source_id (ids_of order) ≡ true)

without-Covers :
    (p : ℕ × ContextSegment) (order : List (ℕ × ContextSegment)) (kept : List ContextSegment)
    → All (Covers (p ∷ order)) kept
    → All (Covers order) (without p.1.source_id kept)
unfolding without filter
without-Covers p order [] a = tt
without-Covers p order (x ∷ xs) (here, a) = elim (Bool-cases (x.source_id == p.1.source_id)) [
  | inl same ↦
      subst (All (Covers order)) (sym (without-dropped p.1.source_id x xs same))
        (without-Covers p order xs a)
  | inr differ ↦ subst (All (Covers order)) (sym (without-kept p.1.source_id x xs differ)) (
    elim here [
      | inl required ↦ inl required
      | inr found ↦ let other = differ_sym x.source_id p.1.source_id differ in inr (ground arith)
    ],
    without-Covers p order xs a,
  )
]

contains-insert_sorted :
    (k : String) (p : ℕ × ContextSegment) (ps : List (ℕ × ContextSegment))
    → contains k (ids_of (insert_sorted drops_first p ps)) ≡ contains k (ids_of (p ∷ ps))
unfolding insert_sorted
contains-insert_sorted k p [] = refl
contains-insert_sorted k p (q ∷ qs) =
    let later = contains-insert_sorted k p qs in
    elim (Bool-cases (drops_first p q)) [
      | inl first ↦ rw first
      | inr after ↦ rw after (ground arith)
    ]

contains-sort_by :
    (k : String) (ps : List (ℕ × ContextSegment))
    → contains k (ids_of (sort_by drops_first ps)) ≡ contains k (ids_of ps)
unfolding sort_by
contains-sort_by k [] = refl
contains-sort_by k (p ∷ ps) =
    contains-insert_sorted k p (sort_by drops_first ps)
    ∙ ap (λ (b : Bool). p.1.source_id == k || b) (contains-sort_by k ps)

more-Covers :
    (p : ℕ × ContextSegment) (order : List (ℕ × ContextSegment)) (ss : List ContextSegment)
    → All (Covers order) ss
    → All (Covers (p ∷ order)) ss
more-Covers p order [] a = tt
more-Covers p order (s ∷ ss) (inl required, a) = (inl required, more-Covers p order ss a)
more-Covers p order (s ∷ ss) (inr found, a) = (inr (ground arith), more-Covers p order ss a)

enumerate-Covers :
    (n : ℕ) (ss : List ContextSegment)
    → All (Covers (filter (λ p. is_optional p.1) (enumerate n ss))) ss
unfolding enumerate
enumerate-Covers n [] = tt
enumerate-Covers n (s ∷ ss) =
    let optional : ℕ × ContextSegment → Bool = λ p. is_optional p.1 in
    let later = enumerate-Covers (n + 1) ss in
    elim (Bool-cases (is_required s)) [
      | inl required ↦
          subst (λ (order : List (ℕ × ContextSegment)). All (Covers order) (s ∷ ss))
            (sym (filter-failing optional (n, s) (enumerate (n + 1) ss) (ap not required)))
            (inl required, later)
      | inr unneeded ↦
          subst (λ (order : List (ℕ × ContextSegment)). All (Covers order) (s ∷ ss))
            (sym (filter-passing optional (n, s) (enumerate (n + 1) ss) (ap not unneeded)))
            (
              inr (
                  ap
                    (λ (b : Bool).
                      b || contains s.source_id (ids_of (filter optional (enumerate (n + 1) ss))))
                    (eq_refl s.source_id)),
              more-Covers (n, s) (filter optional (enumerate (n + 1) ss)) ss later,
            )
    ]

sorted-Covers :
    (ps : List (ℕ × ContextSegment)) (ss : List ContextSegment)
    → All (Covers ps) ss
    → All (Covers (sort_by drops_first ps)) ss
sorted-Covers ps [] a = tt
sorted-Covers ps (s ∷ ss) (inl required, a) = (inl required, sorted-Covers ps ss a)
sorted-Covers ps (s ∷ ss) (inr found, a) =
    (inr (contains-sort_by s.source_id ps ∙ found), sorted-Covers ps ss a)

Covers-none : (ss : List ContextSegment) → All (Covers []) ss → required_of ss ≡ ss
unfolding filter
Covers-none [] a = refl
Covers-none (s ∷ ss) (inl required, a) =
    filter-passing is_required s ss required ∙ ap (◌∷◌ s) (Covers-none ss a)
Covers-none (s ∷ ss) (inr found, a) = absurd cc

module _ (counter : Counter) (profile : ContextPreparationProfile) (available : ℕ)
    (rs : List ContextSegment) where
  -- A fitting keeps the required segments, and counts what it keeps.
  abbrev pub IsCounted : Fitting → Type 0
  IsCounted f = (required_of f.kept ≡ rs) × (count_segments counter profile f.kept ≡ ok f.counted)

  -- It is within the available tokens, or has nothing more to drop.
  abbrev pub IsDone : Fitting → Type 0
  IsDone f = (ltb available f.counted.tokens ≡ false) ⊎ (required_of f.kept ≡ f.kept)

  drop_until-IsDone :
      (order : List (ℕ × ContextSegment)) (f after : Fitting)
      → All (λ (p : ℕ × ContextSegment). Apart p.1 rs) order
      → IsCounted f
      → All (Covers order) f.kept
      → drop_until counter profile available order f ≡ ok after
      → IsCounted after × IsDone after
  unfolding drop_until
  drop_until-IsDone [] f after apart counted covers h =
      subst (λ (g : Fitting). IsCounted g × IsDone g) (ok_inj h)
        (counted, inr (Covers-none f.kept covers))
  drop_until-IsDone ((index, s) ∷ order) f after (here, apart) (required, counted) covers h =
      let (n, count, next) =
        bind-ok (count_segments counter profile (without s.source_id f.kept)) _ h in
      let g : Fitting = record {
        kept = without s.source_id f.kept;
        counted = n;
        dropped = f.dropped ++ (s.source_id ∷ []);
      } in
      let still : required_of g.kept ≡ rs =
        without-required_of s f.kept (subst (Apart s) (sym required) here) ∙ required in
      elim (Bool-cases (leb n.tokens available)) [
        | inl fits ↦
            subst (λ (e : Fitting). IsCounted e × IsDone e) (ok_inj (rw fits at next))
              ((still, count), inl (ground arith))
        | inr exceeds ↦
            drop_until-IsDone order g after apart (still, count)
              (without-Covers (index, s) order f.kept covers) (rw exceeds at next)
      ]

  pub fit-IsDone :
      (kept : List ContextSegment) (f : Fitting)
      → All (RequiredOrApart rs) kept
      → required_of kept ≡ rs
      → fit counter profile available kept ≡ ok f
      → IsCounted f × IsDone f
  unfolding fit drop_order
  fit-IsDone kept f apart required h =
      let (n, count, next) = bind-ok (count_segments counter profile kept) _ h in
      elim (Bool-cases (ltb available n.tokens)) [
        | inl exceeds ↦
            drop_until-IsDone (drop_order kept) (record { kept = kept; counted = n; dropped = [] })
              f
              (sort_by-All drops_first (λ (p : ℕ × ContextSegment). Apart p.1 rs)
                (filter (λ p. is_optional p.1) (enumerate 0 kept)) (optional-Apart rs 0 kept apart))
              (required, count)
              (sorted-Covers (filter (λ p. is_optional p.1) (enumerate 0 kept)) kept
                (enumerate-Covers 0 kept))
              (rw exceeds at next)
        | inr fits ↦
            subst (λ (e : Fitting). IsCounted e × IsDone e) (ok_inj (rw fits at next))
              ((required, count), inl fits)
      ]
