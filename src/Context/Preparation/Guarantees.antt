-- ===== src/Context/Preparation/Guarantees.antt =====
-- What `prepare_context` of backend/context/preparation.py promises.
use ryuk.Prelude.{
  ℕ, String, ◌+◌, ◌-◌, eq_iff, ◌≤◌, ◌<◌, true, not, List, [], map, any, ◌≡◌, refl, ◌∙◌, ap, sym,
  inl, inr, ltb, filter, is_distinct, is_empty, arith, Bool-cases,
}
use mathlib.Core.Path.{subst}
use ryuk.Prelude.Result.{ok, bind-ok, ok_inj, raise_if, raise_if-ok, value_error}
use ryuk.Prelude.Json.{Json}
use ryuk.Inference.Contracts.{chat_input, check_input}
use ryuk.Context.Contracts.{ContextSegment}
use ryuk.Context.Preparation.{
  Counter, Fitting, Preparation, prepared, overflow, is_required, is_optional, drop_order,
  count_segments, chat_of, message_of, fit, available_tokens, finish_preparation, prepare_context,
  deduplicate_optional, kept_of, choose_all, validate_counter,
}
use ryuk.Context.Profiles.{
  ContextPreparationProfile, TokenCount, PreparedContext, ExcludedContextSource,
}
use ryuk.Context.Preparation.Dropping.{
  required_of, RequiredOrApart, filter-All, distinct-apart, kept_of-required_of,
}
use ryuk.Context.Preparation.Loop.{IsCounted, IsDone, fit-IsDone}

-- The fitting that a preparation that returns has ended with.
fitting_of :
    (dumps : List Json → String) (sha256 : String → String) (counter : Counter)
    (segments : List ContextSegment) (profile : ContextPreparationProfile) (result : Preparation)
    → prepare_context dumps sha256 counter segments profile ≡ ok result
    → (f : Fitting) × IsCounted counter profile (available_tokens profile) (required_of segments) f
      × IsDone counter profile (available_tokens profile) (required_of segments) f
      × (finish_preparation dumps sha256 profile
            (deduplicate_optional segments).1
            (drop_order (deduplicate_optional segments).0)
            f
          ≡ ok result)
unfolding prepare_context deduplicate_optional kept_of
fitting_of dumps sha256 counter segments profile result h =
    let (n₁, e₁, h₁) = bind-ok (raise_if (is_empty segments) value_error) _ h in
    let (n₂, e₂, h₂) =
      bind-ok
        (raise_if (not (is_distinct (map (λ (s : ContextSegment). s.source_id) segments)))
          value_error)
        _ h₁ in
    let (n₃, e₃, h₃) = bind-ok (raise_if (not (any is_required segments)) value_error) _ h₂ in
    let kept = (deduplicate_optional segments).0 in
    let (f, fitted, ended) = bind-ok (fit counter profile (available_tokens profile) kept) _ h₃ in
    let distinct : is_distinct (map (λ (s : ContextSegment). s.source_id) segments) ≡ true =
      ground (arith, raise_if-ok _ _ e₂) in
    let (counted, done) =
      fit-IsDone counter profile (available_tokens profile) (required_of segments) kept f
        (filter-All (RequiredOrApart (required_of segments)) _ segments
          (distinct-apart segments distinct))
        (kept_of-required_of (choose_all [] (filter is_optional segments)) segments) fitted in
    (f, counted, done, ended)

-- What a count has counted.
count_segments-counter :
    (counter : Counter) (profile : ContextPreparationProfile) (segments : List ContextSegment)
    (n : TokenCount)
    → count_segments counter profile segments ≡ ok n
    → counter (map message_of segments) ≡ ok n
unfolding count_segments chat_of
count_segments-counter counter profile segments n h =
    let (chat, made, next) = bind-ok (chat_of segments) _ h in
    let (nothing, checked, same) =
      bind-ok (check_input (chat_input (map message_of segments))) _ made in
    let (m, counted, after) = bind-ok (counter chat) _ next in
    let (nothing', valid, ended) = bind-ok (validate_counter m profile) _ after in
    ap counter (ok_inj same) ∙ counted ∙ ended

-- The count is one of the profile's counter and template.
pub record IsOfProfile (profile : ContextPreparationProfile) (n : TokenCount) : Type 0 where
  pub same_counter : n.counter_id ≡ profile.counter_id
  pub same_counter_revision : n.counter_revision ≡ profile.counter_revision
  pub same_template : n.template_id ≡ profile.template_id
  pub same_template_revision : n.template_revision ≡ profile.template_revision

validate_counter-IsOfProfile :
    (profile : ContextPreparationProfile) (n : TokenCount)
    → validate_counter n profile ≡ ok tt
    → IsOfProfile profile n
unfolding validate_counter
validate_counter-IsOfProfile profile n h =
    let valid = raise_if-ok _ _ h in
    record {
      same_counter = (eq_iff n.counter_id profile.counter_id).0 (ground (arith, valid));
      same_counter_revision =
          (eq_iff n.counter_revision profile.counter_revision).0 (ground (arith, valid));
      same_template = (eq_iff n.template_id profile.template_id).0 (ground (arith, valid));
      same_template_revision =
          (eq_iff n.template_revision profile.template_revision).0 (ground (arith, valid));
    }

count_segments-IsOfProfile :
    (counter : Counter) (profile : ContextPreparationProfile) (segments : List ContextSegment)
    (n : TokenCount)
    → count_segments counter profile segments ≡ ok n
    → IsOfProfile profile n
unfolding count_segments
count_segments-IsOfProfile counter profile segments n h =
    let (chat, made, next) = bind-ok (chat_of segments) _ h in
    let (m, counted, after) = bind-ok (counter chat) _ next in
    let (nothing, valid, ended) = bind-ok (validate_counter m profile) _ after in
    subst (IsOfProfile profile) (ok_inj ended) (validate_counter-IsOfProfile profile m valid)

-- The segments that a prepared context includes.
pub record IsPrepared (counter : Counter) (segments : List ContextSegment)
    (profile : ContextPreparationProfile) (p : PreparedContext) : Type 0 where
  pub kept : List ContextSegment
  pub required : filter is_required kept ≡ filter is_required segments
  pub shown : p.chat ≡ map message_of kept
  pub named : p.included_source_ids ≡ map (λ (s : ContextSegment). s.source_id) kept
  pub count : TokenCount
  pub counted : counter p.chat ≡ ok count
  pub measured : IsOfProfile profile count
  pub exact : p.input_tokens ≡ count.tokens
  pub total :
      p.total_reserved_tokens
      ≡ p.input_tokens + profile.reserved_output_tokens + profile.safety_margin_tokens
  pub within : p.total_reserved_tokens ≤ profile.max_context_tokens

-- The context of a preparation, or another.
context_of : PreparedContext → Preparation → PreparedContext
context_of other (prepared p) = p
context_of other (overflow n m) = other

numbers_of : Preparation → ℕ × ℕ
numbers_of (prepared p) = (0, 0)
numbers_of (overflow n m) = (n, m)

-- The required segments alone are too many tokens, and the numbers are their count and the bound.
pub record IsOverflow (counter : Counter) (segments : List ContextSegment)
    (profile : ContextPreparationProfile) (required_tokens available : ℕ) : Type 0 where
  pub bound :
      available
      ≡ profile.max_context_tokens - profile.reserved_output_tokens - profile.safety_margin_tokens
  pub exceeds : available < required_tokens
  pub count : TokenCount
  pub counted : counter (map message_of (filter is_required segments)) ≡ ok count
  pub measured : IsOfProfile profile count
  pub exact : required_tokens ≡ count.tokens

finish-IsOverflow :
    (dumps : List Json → String) (sha256 : String → String) (counter : Counter)
    (segments : List ContextSegment) (profile : ContextPreparationProfile)
    (duplicates : List ExcludedContextSource) (order : List (ℕ × ContextSegment)) (f : Fitting)
    (n m : ℕ)
    → IsCounted counter profile (available_tokens profile) (required_of segments) f
    → IsDone counter profile (available_tokens profile) (required_of segments) f
    → finish_preparation dumps sha256 profile duplicates order f ≡ ok (overflow n m)
    → IsOverflow counter segments profile n m
unfolding finish_preparation numbers_of available_tokens
finish-IsOverflow dumps sha256 counter segments profile duplicates order f n m (required, counted)
      done h =
    elim (Bool-cases (ltb (available_tokens profile) f.counted.tokens)) [
      | inr fits ↦ let (chat, made, last) = bind-ok (chat_of f.kept) _ (rw fits at h) in absurd cc
      | inl exceeds ↦
          let numbers : ◌≡◌ {A = ℕ × ℕ} (f.counted.tokens, available_tokens profile) (n, m) =
            ap numbers_of (ok_inj (rw exceeds at h)) in
          elim done [
            | inl fits ↦ absurd cc
            | inr all_required ↦
                let kept : f.kept ≡ required_of segments = sym all_required ∙ required in
                subst (λ (q : ℕ × ℕ). IsOverflow counter segments profile q.0 q.1) numbers
                  (record {
                    bound = refl;
                    exceeds = ground (arith, exceeds);
                    count = f.counted;
                    counted =
                        ap (λ (ss : List ContextSegment). counter (map message_of ss)) (sym kept)
                        ∙ count_segments-counter counter profile f.kept f.counted counted;
                    measured = count_segments-IsOfProfile counter profile f.kept f.counted counted;
                    exact = refl;
                  })
          ]
    ]

-- A preparation overflows only if the required segments alone are more tokens than the profile's context
-- without the reserved output and the margin. It reports these and their count, which is of the counter
-- and the template of the profile.
pub prepare_context-IsOverflow :
    (dumps : List Json → String) (sha256 : String → String) (counter : Counter)
    (segments : List ContextSegment) (profile : ContextPreparationProfile)
    (required_tokens available : ℕ)
    → prepare_context dumps sha256 counter segments profile
      ≡ ok (overflow required_tokens available)
    → IsOverflow counter segments profile required_tokens available
prepare_context-IsOverflow dumps sha256 counter segments profile n m h =
    let (f, counted, done, ended) =
      fitting_of dumps sha256 counter segments profile (overflow n m) h in
    finish-IsOverflow dumps sha256 counter segments profile (deduplicate_optional segments).1
      (drop_order (deduplicate_optional segments).0) f n m counted done ended
