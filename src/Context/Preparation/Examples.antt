-- ===== src/Context/Preparation/Examples.antt =====
-- Runs of `prepare_context` of backend/context/preparation.py.
use ryuk.Prelude.{
  ◌*◌, String, List, [], ◌∷◌, ◌≡◌, refl, true, false, none, some, length, filter, is_distinct,
}
use ryuk.Prelude.Int.{pos}
use ryuk.Prelude.Result.{ok}
use ryuk.Prelude.Text.{strip}
use ryuk.Prelude.Sorting.{sort_by, insert_sorted}
use ryuk.Prelude.Json.{Json}
use ryuk.Inference.Contracts.{system, user, check_input, check_messages, require_text, is_blank}
use ryuk.Context.Contracts.{
  ContextSegment, policy_trust, user_trust, source_trust, same_role, same_trust,
}
use ryuk.Context.Preparation.{
  Counter, overflow, validate_counter, same_key, choose, choose_all, same_segment, winner_of,
  kept_of, duplicates_of, deduplicate_optional, chat_of, count_segments, enumerate, drops_first,
  drop_order, without, drop_until, fit, available_tokens, finish_preparation, prepare_context,
}
use ryuk.Context.Profiles.{
  ContextPreparationProfile, PreparedContext, exact, high, verified, duplicate, over_budget,
}
use ryuk.Context.Preparation.Guarantees.{IsOverflow, prepare_context-IsOverflow}

-- Four tokens for each message.
abbrev counts_four : Counter
counts_four messages = ok (record {
  tokens = 4 * length messages;
  method = exact;
  confidence = high;
  counter_id = "four";
  counter_revision = "1";
  template_id = "plain";
  template_revision = "1";
})

abbrev no_text : List Json → String
no_text values = ""

abbrev same_text : String → String
same_text s = s

abbrev small : ContextPreparationProfile
small = record {
  profile_id = "small";
  profile_revision = "1";
  model_id = "model";
  model_revision = none;
  max_context_tokens = 12;
  reserved_output_tokens = 3;
  safety_margin_tokens = 1;
  capacity_evidence = verified;
  capacity_evidence_ref = "ref";
  counter_id = "four";
  counter_revision = "1";
  template_id = "plain";
  template_revision = "1";
}

abbrev policy : ContextSegment
policy = record {
  source_id = "policy";
  source_revision = "1";
  role = system;
  content = "be brief";
  trust = policy_trust;
  required = true;
  priority = pos 0;
}

abbrev notes : ContextSegment
notes = record {
  source_id = "notes";
  source_revision = "1";
  role = user;
  content = "the notes";
  trust = source_trust;
  required = false;
  priority = pos 1;
}

abbrev copy : ContextSegment
copy = record {
  source_id = "copy";
  source_revision = "1";
  role = user;
  content = "the notes";
  trust = source_trust;
  required = false;
  priority = pos 2;
}

abbrev chatter : ContextSegment
chatter = record {
  source_id = "chatter";
  source_revision = "1";
  role = user;
  content = "hello";
  trust = user_trust;
  required = false;
  priority = pos 0;
}

abbrev rules : ContextSegment
rules = record {
  source_id = "rules";
  source_revision = "1";
  role = system;
  content = "be kind";
  trust = policy_trust;
  required = true;
  priority = pos 0;
}

abbrev goal : ContextSegment
goal = record {
  source_id = "goal";
  source_revision = "1";
  role = user;
  content = "a poem";
  trust = user_trust;
  required = true;
  priority = pos 0;
}

abbrev fitted : PreparedContext
fitted = record {
  chat =
      record { role = system; content = "be brief" }
      ∷ record { role = user; content = "the notes" }
      ∷ [];
  profile = small;
  input_tokens = 8;
  total_reserved_tokens = 12;
  count_method = exact;
  count_confidence = high;
  included_source_ids = "policy" ∷ "copy" ∷ [];
  included_source_revisions = ("policy", "1") ∷ ("copy", "1") ∷ [];
  excluded_sources =
      record {
        source_id = "notes";
        source_revision = "1";
        reason = duplicate;
        duplicate_of = some "copy";
      }
      ∷ record {
        source_id = "chatter";
        source_revision = "1";
        reason = over_budget;
        duplicate_of = none;
      }
      ∷ [];
  payload_sha256 = "";
}

prepare_overflow :
    prepare_context no_text same_text counts_four (policy ∷ chatter ∷ rules ∷ goal ∷ []) small
    ≡ ok (overflow 12 8)
unfolding prepare_context is_distinct deduplicate_optional choose_all choose same_key same_role
    same_trust kept_of duplicates_of winner_of same_segment filter fit available_tokens
    count_segments chat_of check_input check_messages require_text is_blank strip validate_counter
    drop_until drop_order enumerate drops_first sort_by insert_sorted without finish_preparation
prepare_overflow = refl

prepare_context-IsOverflow_example :
    IsOverflow counts_four (policy ∷ chatter ∷ rules ∷ goal ∷ []) small 12 8
prepare_context-IsOverflow_example =
    prepare_context-IsOverflow no_text same_text counts_four (policy ∷ chatter ∷ rules ∷ goal ∷ [])
      small 12 8 prepare_overflow
