-- ===== src/Context/Builder/Ready.antt =====
-- A context that backend/context/builder.py builds is one that backend/context/preparation.py takes.
use ryuk.Prelude.{
  ℕ, String, Bool, true, false, not, ◌||◌, List, [], ◌∷◌, any, ◌==◌, ◌≡◌, refl, ◌∙◌, ap, sym,
  contains, is_empty, is_distinct, arith,
}
use mathlib.Core.Path.{subst}
use ryuk.Prelude.Int.{ℤ}
use ryuk.Prelude.Json.{Json}
use ryuk.Prelude.Result.{
  ok, or_raise, raise_if, bind-ok, ok_inj, raise_if-ok, value_error, access_denied,
  policy_unavailable, ◌>>=◌,
}
use ryuk.Context.Contracts.{ContextPrincipal, ContextSourceRef, ContextSegment, check_segment}
use ryuk.Context.Tables.{ContextStore, select_source, require_conversation}
use ryuk.Context.Store.{get_conversation, segment_of}
use ryuk.Context.Store.Reads.{as_segment, read_all, authorize_all, resolve_sources, recent_messages}
use ryuk.Context.Preparation.{
  Counter, is_required, prepare_context, fit, available_tokens, finish_preparation,
  deduplicate_optional, drop_order,
}
use ryuk.Context.Profiles.{ContextPreparationProfile}
use ryuk.Context.Builder.{TrustedPolicy, BuiltContext, build, policy_of, put_together}
use ryuk.Context.Builder.Distinct.{ids_in, put_together-is_distinct}

abbrev any_required : List ContextSourceRef → Bool
any_required refs = any (λ (r : ContextSourceRef). r.required) refs

read_all-any :
    (sha256 : String → String) (actor : ContextPrincipal) (refs : List ContextSourceRef)
    (store : ContextStore) (segments : List ContextSegment)
    → read_all sha256 actor refs store ≡ ok segments
    → any is_required segments ≡ any_required refs
unfolding read_all as_segment segment_of
read_all-any sha256 actor [] store segments h = ap (any is_required) (sym (ok_inj h))
read_all-any sha256 actor (r ∷ rs) store segments h =
    let (s, found, h₁) =
      bind-ok (or_raise (select_source actor.tenant_id r.source_id r.revision store) access_denied)
        _ h in
    let (segment, made, h₂) = bind-ok (as_segment sha256 s r.required r.priority) _ h₁ in
    let (later, reads, ended) = bind-ok (read_all sha256 actor rs store) _ h₂ in
    let (n₁, e₁, g₁) =
      bind-ok (raise_if (not (sha256 s.content == s.content_sha256)) value_error) _ made in
    let (n₂, e₂, g₂) = bind-ok (check_segment (segment_of s r.required r.priority)) _ g₁ in
    ap (any is_required) (sym (ok_inj ended))
    ∙ ap (λ (t : ContextSegment). t.required || any is_required later) (sym (ok_inj g₂))
    ∙ ap (λ (b : Bool). r.required || b) (read_all-any sha256 actor rs store later reads)

resolve_sources-any :
    (sha256 : String → String) (actor : ContextPrincipal) (conversation_id : String)
    (refs : List ContextSourceRef) (store : ContextStore) (segments : List ContextSegment)
    → resolve_sources sha256 actor conversation_id refs store ≡ ok segments
    → any is_required segments ≡ any_required refs
unfolding resolve_sources
resolve_sources-any sha256 actor conversation_id refs store segments h =
    let (c, row, h₁) = bind-ok (require_conversation actor conversation_id store) _ h in
    let (nothing, authorized, reads) = bind-ok (authorize_all c actor refs store) _ h₁ in
    read_all-any sha256 actor refs store segments reads

-- The segments of a built context have different identifiers, and one of them is required.
build-is_distinct :
    (sha256 : String → String) (policies : List TrustedPolicy) (priority : ℤ)
    (actor : ContextPrincipal) (conversation_id : String) (sources : List ContextSourceRef)
    (limit : ℕ) (store : ContextStore) (built : BuiltContext)
    → build sha256 policies priority actor conversation_id sources limit store ≡ ok built
    → (is_distinct (ids_in built.segments) ≡ true) × (any is_required built.segments ≡ true)
unfolding build
build-is_distinct sha256 policies priority actor conversation_id sources limit store built h =
    let (row, e₁, h₁) = bind-ok (get_conversation actor conversation_id store) _ h in
    let (c, e₂, h₂) = bind-ok (or_raise row access_denied) _ h₁ in
    let (n₃, e₃, h₃) =
      bind-ok (raise_if (not (contains c.project_id actor.project_ids)) access_denied) _ h₂ in
    let (policy, e₄, h₄) =
      bind-ok (or_raise (policy_of c.tenant_id c.project_id policies) policy_unavailable) _ h₃ in
    let (n₅, e₅, h₅) =
      bind-ok (raise_if (is_empty sources || not (any_required sources)) value_error) _ h₄ in
    let (resolved, e₆, h₆) =
      bind-ok (resolve_sources sha256 actor conversation_id sources store) _ h₅ in
    let (recent, e₇, h₇) =
      bind-ok (recent_messages sha256 actor conversation_id limit priority store) _ h₆ in
    let (segments, e₈, ended) = bind-ok (put_together policy resolved recent) _ h₇ in
    let some_required : any_required sources ≡ true = ground (arith, raise_if-ok _ _ e₅) in
    subst
      (λ (b : BuiltContext).
        (is_distinct (ids_in b.segments) ≡ true) × (any is_required b.segments ≡ true))
      (ok_inj ended)
      (put_together-is_distinct policy resolved recent segments e₈ (
        resolve_sources-any sha256 actor conversation_id sources store resolved e₆ ∙ some_required))

any-is_empty : (ss : List ContextSegment) → any is_required ss ≡ true → is_empty ss ≡ false
any-is_empty [] h = absurd cc
any-is_empty (s ∷ ss) h = refl

-- The preparation of a built context never raises for its segments: it is their fitting, and the
-- prepared context or the overflow of what that ends with.
build-prepare_context :
    (sha256 : String → String) (policies : List TrustedPolicy) (priority : ℤ)
    (actor : ContextPrincipal) (conversation_id : String) (sources : List ContextSourceRef)
    (limit : ℕ) (store : ContextStore) (built : BuiltContext) (dumps : List Json → String)
    (counter : Counter) (profile : ContextPreparationProfile)
    → build sha256 policies priority actor conversation_id sources limit store ≡ ok built
    → prepare_context dumps sha256 counter built.segments profile ≡ (
        fit counter profile (available_tokens profile) (deduplicate_optional built.segments).0
        >>= finish_preparation dumps sha256 profile
            (deduplicate_optional built.segments).1
            (drop_order (deduplicate_optional built.segments).0))
unfolding prepare_context
build-prepare_context sha256 policies priority actor conversation_id sources limit store built dumps
      counter profile h =
    let (distinct, required) =
      build-is_distinct sha256 policies priority actor conversation_id sources limit store built
        h in
    rw (any-is_empty built.segments required, distinct, required)
