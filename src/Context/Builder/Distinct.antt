-- ===== src/Context/Builder/Distinct.antt =====
-- What the segments of a context that backend/context/builder.py builds have in common.
use ryuk.Prelude.{
  String, Bool, true, false, not, ◌&&◌, ◌||◌, List, [], ◌∷◌, map, any, ◌==◌, ◌≡◌, refl, ◌∙◌, ap,
  sym, inl, inr, contains, filter, is_distinct, arith, Bool-cases, eq_iff,
}
use mathlib.Core.Path.{subst}
use ryuk.Prelude.Result.{ok, raise_if, bind-ok, ok_inj, conflict}
use ryuk.Context.Contracts.{ContextSegment, check_segment}
use ryuk.Context.Builder.{
  is_conflicting, merged, merge_segment, append_unique, append_each, put_together,
}
use ryuk.Context.Preparation.{is_required, is_optional}
use ryuk.Context.Preparation.Dropping.{differ_sym, filter-passing, filter-failing}

abbrev pub ids_in : List ContextSegment → List String
ids_in ss = map (λ (s : ContextSegment). s.source_id) ss

merge_segment-ids :
    (c s m : ContextSegment)
    → merge_segment c s ≡ ok m
    → (m.source_id ≡ c.source_id) × (m.required ≡ (c.required || s.required))
unfolding merge_segment merged
merge_segment-ids c s m h =
    let (n₁, e₁, h₁) = bind-ok (raise_if (is_conflicting c s) conflict) _ h in
    let (n₂, e₂, ended) = bind-ok (check_segment (merged c s)) _ h₁ in
    let same : merged c s ≡ m = ok_inj ended in
    (
      ap (λ (t : ContextSegment). t.source_id) (sym same),
      ap (λ (t : ContextSegment). t.required) (sym same),
    )

append_unique-ids :
    (k : String) (s : ContextSegment) (cs after : List ContextSegment)
    → append_unique s cs ≡ ok after
    → contains k (ids_in after) ≡ (contains k (ids_in cs) || s.source_id == k)
unfolding append_unique
append_unique-ids k s [] after h =
    ap (λ (l : List ContextSegment). contains k (ids_in l)) (sym (ok_inj h)) ∙ ground arith
append_unique-ids k s (c ∷ cs) after h = elim (Bool-cases (c.source_id == s.source_id)) [
  | inl same ↦
      let (m, replaced, ended) = bind-ok (merge_segment c s) _ (rw same at h) in
      let (id, required) = merge_segment-ids c s m replaced in
      let equal : c.source_id ≡ s.source_id = (eq_iff c.source_id s.source_id).0 same in
      ap (λ (l : List ContextSegment). contains k (ids_in l)) (sym (ok_inj ended))
      ∙ ap (λ (i : String). i == k || contains k (ids_in cs)) id
      ∙ (let e = ap (λ (i : String). i == k) equal in ground arith)
  | inr differ ↦
      let (rest, grown, ended) = bind-ok (append_unique s cs) _ (rw differ at h) in
      let later = append_unique-ids k s cs rest grown in
      ap (λ (l : List ContextSegment). contains k (ids_in l)) (sym (ok_inj ended))
      ∙ ap (λ (b : Bool). c.source_id == k || b) later
      ∙ ground arith
]

append_unique-is_distinct :
    (s : ContextSegment) (cs after : List ContextSegment)
    → is_distinct (ids_in cs) ≡ true
    → append_unique s cs ≡ ok after
    → is_distinct (ids_in after) ≡ true
unfolding append_unique is_distinct
append_unique-is_distinct s [] after d h =
    ap (λ (l : List ContextSegment). is_distinct (ids_in l)) (sym (ok_inj h))
append_unique-is_distinct s (c ∷ cs) after d h = elim (Bool-cases (c.source_id == s.source_id)) [
  | inl same ↦
      let (m, replaced, ended) = bind-ok (merge_segment c s) _ (rw same at h) in
      let (id, required) = merge_segment-ids c s m replaced in
      ap (λ (l : List ContextSegment). is_distinct (ids_in l)) (sym (ok_inj ended))
      ∙ ap (λ (i : String). not (contains i (ids_in cs)) && is_distinct (ids_in cs)) id
      ∙ d
  | inr differ ↦
      let (rest, grown, ended) = bind-ok (append_unique s cs) _ (rw differ at h) in
      let distinct = append_unique-is_distinct s cs rest (ground arith) grown in
      let found = append_unique-ids c.source_id s cs rest grown in
      let other = differ_sym c.source_id s.source_id differ in
      ap (λ (l : List ContextSegment). is_distinct (ids_in l)) (sym (ok_inj ended)) ∙ ground arith
]

append_unique-any :
    (s : ContextSegment) (cs after : List ContextSegment)
    → append_unique s cs ≡ ok after
    → any is_required after ≡ (any is_required cs || s.required)
unfolding append_unique
append_unique-any s [] after h = ap (any is_required) (sym (ok_inj h)) ∙ ground arith
append_unique-any s (c ∷ cs) after h = elim (Bool-cases (c.source_id == s.source_id)) [
  | inl same ↦
      let (m, replaced, ended) = bind-ok (merge_segment c s) _ (rw same at h) in
      let (id, required) = merge_segment-ids c s m replaced in
      ap (any is_required) (sym (ok_inj ended))
      ∙ ap (λ (b : Bool). b || any is_required cs) required
      ∙ ground arith
  | inr differ ↦
      let (rest, grown, ended) = bind-ok (append_unique s cs) _ (rw differ at h) in
      let later = append_unique-any s cs rest grown in
      ap (any is_required) (sym (ok_inj ended))
      ∙ ap (λ (b : Bool). c.required || b) later
      ∙ ground arith
]

append_each-is_distinct :
    (ss cs after : List ContextSegment)
    → is_distinct (ids_in cs) ≡ true
    → append_each ss cs ≡ ok after
    → (is_distinct (ids_in after) ≡ true)
      × (any is_required after ≡ (any is_required cs || any is_required ss))
unfolding append_each
append_each-is_distinct [] cs after d h =
    subst
      (λ (l : List ContextSegment).
        (is_distinct (ids_in l) ≡ true) × (any is_required l ≡ (any is_required cs || false)))
      (ok_inj h) (d, ground arith)
append_each-is_distinct (s ∷ ss) cs after d h =
    let (grown, added, next) = bind-ok (append_unique s cs) _ h in
    let more = append_unique-any s cs grown added in
    let (distinct, all) =
      append_each-is_distinct ss grown after (append_unique-is_distinct s cs grown d added) next in
    (distinct, ground arith)

any-filter :
    (ss : List ContextSegment) → any is_required (filter is_required ss) ≡ any is_required ss
unfolding filter
any-filter [] = refl
any-filter (s ∷ ss) = elim (Bool-cases (is_required s)) [
  | inl required ↦
      ap (any is_required) (filter-passing is_required s ss required)
      ∙ ground (arith, any-filter ss)
  | inr optional ↦
      ap (any is_required) (filter-failing is_required s ss optional)
      ∙ ground (arith, any-filter ss)
]

is_distinct-none : is_distinct (ids_in []) ≡ true
unfolding is_distinct
is_distinct-none = refl

pub put_together-is_distinct :
    (policy resolved recent segments : List ContextSegment)
    → put_together policy resolved recent ≡ ok segments
    → any is_required resolved ≡ true
    → (is_distinct (ids_in segments) ≡ true) × (any is_required segments ≡ true)
unfolding put_together
put_together-is_distinct policy resolved recent segments h required =
    let (a, e₁, h₁) = bind-ok (append_each policy []) _ h in
    let (b, e₂, h₂) = bind-ok (append_each (filter is_required resolved) a) _ h₁ in
    let (c, e₃, h₃) = bind-ok (append_each recent b) _ h₂ in
    let (d₁, r₁) = append_each-is_distinct policy [] a (is_distinct-none) e₁ in
    let (d₂, r₂) = append_each-is_distinct (filter is_required resolved) a b d₁ e₂ in
    let (d₃, r₃) = append_each-is_distinct recent b c d₂ e₃ in
    let (d₄, r₄) = append_each-is_distinct (filter is_optional resolved) c segments d₃ h₃ in
    let same = any-filter resolved in (d₄, ground arith)
