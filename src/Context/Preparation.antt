-- ===== src/Context/Preparation.antt =====
-- backend/context/preparation.py. The counter of tokens, the JSON text and the hash are parameters.
pub mod Dropping
pub mod Loop
pub mod Guarantees
mod Examples
use ryuk.Prelude.{
  ℕ, zero, suc, String, ◌+◌, ◌-◌, Bool, true, false, not, ◌&&◌, ◌||◌, Option, none, some, List, [],
  ◌∷◌, ◌++◌, map, any, ◌==◌, ltb, leb, eqb, if◌then◌else◌, contains, filter, is_empty, is_distinct,
}
use ryuk.Prelude.Int.{ℤ, pos, ltb_ℤ}
use ryuk.Prelude.Result.{Result, Check, ok, err, raise_if, value_error, ◌>>=◌, ◌>>◌}
use ryuk.Prelude.Sorting.{sort_by}
use ryuk.Prelude.Json.{Json, string, object, no_fields, field}
use ryuk.Inference.Contracts.{
  ChatRole, system, user, assistant, ChatMessage, chat_input, check_input,
}
use ryuk.Context.Profiles.{
  ContextPreparationProfile, TokenCount, ExcludedContextSource, PreparedContext, duplicate,
  over_budget,
}
use ryuk.Context.Contracts.{ContextSegment, identifier, same_role, same_trust, check_all}

-- What `prepare_context` returns, or `ContextOverflow` with its two numbers.
pub data Preparation : Type 0 where
  prepared : PreparedContext → Preparation
  overflow : ℕ → ℕ → Preparation

-- `ContextTokenCounter.count`, which may raise.
abbrev pub Counter : Type 0
Counter = List ChatMessage → Result TokenCount

-- `_validate_counter`
unfoldable pub validate_counter : TokenCount → ContextPreparationProfile → Check
validate_counter count profile =
    raise_if
      (not (
        count.counter_id == profile.counter_id
        && count.counter_revision == profile.counter_revision
        && count.template_id == profile.template_id
        && count.template_revision == profile.template_revision))
      value_error

-- The keys of `chosen` are equal.
unfoldable pub same_key : ContextSegment → ContextSegment → Bool
same_key a b = same_role a.role b.role && same_trust a.trust b.trust && a.content == b.content

-- One round of the loop, on the values of `chosen`, each of which has its own key.
unfoldable pub choose : ContextSegment → List ContextSegment → List ContextSegment
unfolding same_key
choose s [] = s ∷ []
choose s (c ∷ cs) =
    let later = choose s cs in
    if same_key c s then (if ltb_ℤ c.priority s.priority then s ∷ cs else c ∷ cs) else c ∷ later

unfoldable pub choose_all : List ContextSegment → List ContextSegment → List ContextSegment
unfolding choose
choose_all chosen [] = chosen
choose_all chosen (s ∷ ss) = choose_all (choose s chosen) ss

-- Equality of two segments.
unfoldable pub same_segment : ContextSegment → ContextSegment → Bool
unfolding same_key
same_segment a b =
    a.source_id == b.source_id
    && a.source_revision == b.source_revision
    && same_key a b
    && (if a.required then b.required else not b.required)
    && not (ltb_ℤ a.priority b.priority)
    && not (ltb_ℤ b.priority a.priority)

abbrev pub is_optional : ContextSegment → Bool
is_optional s = not s.required

abbrev pub is_required : ContextSegment → Bool
is_required s = s.required

-- The chosen segment of the key; each optional segment's key has one.
unfoldable pub winner_of : ContextSegment → List ContextSegment → Option String
unfolding same_key
winner_of s [] = none
winner_of s (c ∷ cs) =
    let later = winner_of s cs in if same_key c s then some c.source_id else later

unfoldable pub kept_of : List ContextSegment → List ContextSegment → List ContextSegment
unfolding same_segment
kept_of chosen segments = filter (λ s. s.required || any (same_segment s) chosen) segments

unfoldable pub duplicates_of :
    List ContextSegment → List ContextSegment → List ExcludedContextSource
unfolding same_segment winner_of
duplicates_of chosen segments =
    map
      (λ s. record {
        source_id = s.source_id;
        source_revision = s.source_revision;
        reason = duplicate;
        duplicate_of = winner_of s chosen;
      })
      (filter (λ s. is_optional s && not (any (same_segment s) chosen)) segments)

-- `_deduplicate_optional`
unfoldable pub deduplicate_optional :
    List ContextSegment → List ContextSegment × List ExcludedContextSource
unfolding choose_all kept_of duplicates_of
deduplicate_optional segments =
    let chosen = choose_all [] (filter is_optional segments) in
    (kept_of chosen segments, duplicates_of chosen segments)

abbrev pub message_of : ContextSegment → ChatMessage
message_of s = record { role = s.role; content = s.content }

-- `_chat`, with the checks of the constructors.
unfoldable pub chat_of : List ContextSegment → Result (List ChatMessage)
chat_of segments = do
  check_input (chat_input (map message_of segments))
  ok (map message_of segments)

unfoldable pub role_text : ChatRole → String
role_text system = "system"
role_text user = "user"
role_text assistant = "assistant"

-- `_payload_digest`
unfoldable pub payload_digest : (List Json → String) → (String → String) → List ChatMessage → String
unfolding role_text
payload_digest dumps sha256 messages = sha256 (
    dumps (
      map
        (λ (m : ChatMessage).
          object (
            field "role" (string (role_text m.role))
              (field "content" (string m.content) no_fields)))
        messages))

-- The tokens of the segments, from the profile's counter.
unfoldable pub count_segments :
    Counter → ContextPreparationProfile → List ContextSegment → Result TokenCount
unfolding chat_of validate_counter
count_segments counter profile segments = do
  chat ← chat_of segments
  counted ← counter chat
  validate_counter counted profile
  ok counted

-- `enumerate(kept)`, from a number on.
unfoldable pub enumerate : ℕ → List ContextSegment → List (ℕ × ContextSegment)
enumerate n [] = []
enumerate n (s ∷ ss) = (n, s) ∷ enumerate (n + 1) ss

-- The order of the keys `(priority, -index)`.
unfoldable pub drops_first : ℕ × ContextSegment → ℕ × ContextSegment → Bool
drops_first (i, a) (j, b) =
    ltb_ℤ a.priority b.priority || (not (ltb_ℤ b.priority a.priority) && leb j i)

unfoldable pub drop_order : List ContextSegment → List (ℕ × ContextSegment)
unfolding enumerate drops_first
drop_order kept = sort_by drops_first (filter (λ p. is_optional p.1) (enumerate 0 kept))

unfoldable pub without : String → List ContextSegment → List ContextSegment
without source_id segments = filter (λ s. not (s.source_id == source_id)) segments

-- What the loop that drops segments ends with.
pub record Fitting : Type 0 where
  pub kept : List ContextSegment
  pub counted : TokenCount
  pub dropped : List String

-- The loop over `drop_order`.
unfoldable pub drop_until :
    Counter → ContextPreparationProfile → ℕ → List (ℕ × ContextSegment) → Fitting → Result Fitting
unfolding count_segments without
drop_until counter profile available [] f = ok f
drop_until counter profile available ((index, s) ∷ order) f =
    count_segments counter profile (without s.source_id f.kept) >>= λ counted.
    let f' : Fitting = record {
      kept = without s.source_id f.kept;
      counted = counted;
      dropped = f.dropped ++ (s.source_id ∷ []);
    } in
    let rest = drop_until counter profile available order f' in
    if leb counted.tokens available then ok f' else rest

unfoldable pub over_budget_of : List (ℕ × ContextSegment) → List String → List ExcludedContextSource
over_budget_of order dropped =
    map
      (λ (p : ℕ × ContextSegment). record {
        source_id = p.1.source_id;
        source_revision = p.1.source_revision;
        reason = over_budget;
        duplicate_of = none;
      })
      (filter (λ p. contains p.1.source_id dropped) order)

-- The fitting, which drops segments only if they are too many tokens.
unfoldable pub fit : Counter → ContextPreparationProfile → ℕ → List ContextSegment → Result Fitting
unfolding count_segments drop_until drop_order
fit counter profile available kept = do
  counted ← count_segments counter profile kept
  let f : Fitting = record { kept = kept; counted = counted; dropped = [] }
  let rest = drop_until counter profile available (drop_order kept) f
  if ltb available counted.tokens then rest else ok f

unfoldable pub available_tokens : ContextPreparationProfile → ℕ
available_tokens profile =
    profile.max_context_tokens - profile.reserved_output_tokens - profile.safety_margin_tokens

-- The prepared context of a fitting, or the overflow.
unfoldable pub finish_preparation :
    (List Json → String)
    → (String → String)
    → ContextPreparationProfile
    → List ExcludedContextSource
    → List (ℕ × ContextSegment)
    → Fitting
    → Result Preparation
unfolding chat_of payload_digest over_budget_of
finish_preparation dumps sha256 profile duplicates order f =
    if ltb (available_tokens profile) f.counted.tokens
    then ok (overflow f.counted.tokens (available_tokens profile))
    else (chat_of f.kept >>= λ chat. ok (
        prepared (record {
          chat = chat;
          profile = profile;
          input_tokens = f.counted.tokens;
          total_reserved_tokens =
              f.counted.tokens + profile.reserved_output_tokens + profile.safety_margin_tokens;
          count_method = f.counted.method;
          count_confidence = f.counted.confidence;
          included_source_ids = map (λ (s : ContextSegment). s.source_id) f.kept;
          included_source_revisions =
              map (λ (s : ContextSegment). (s.source_id, s.source_revision)) f.kept;
          excluded_sources = duplicates ++ over_budget_of order f.dropped;
          payload_sha256 = payload_digest dumps sha256 chat;
        })))

-- `prepare_context`
unfoldable pub prepare_context :
    (List Json → String)
    → (String → String)
    → Counter
    → List ContextSegment
    → ContextPreparationProfile
    → Result Preparation
unfolding deduplicate_optional fit finish_preparation
prepare_context dumps sha256 counter segments profile = do
  raise_if (is_empty segments) value_error
  raise_if (not (is_distinct (map (λ (s : ContextSegment). s.source_id) segments))) value_error
  raise_if (not (any is_required segments)) value_error
  let kept = (deduplicate_optional segments).0
  f ← fit counter profile (available_tokens profile) kept
  finish_preparation dumps sha256 profile (deduplicate_optional segments).1 (drop_order kept) f
