-- ===== src/Cep/Tests.antt =====
-- The engine at concrete events.
use gress.Common.{
  ℕ, String, string_key, ◌≡◌, refl, false, Option, none, some, List, [], ◌∷◌, ℤ, pos, ltb_ℤ, eqb_ℤ,
  map,
}
use gress.Common.Dict.{get, put}
use gress.Cep.Value.{Floats, EventMap, string_value, time_value}
use gress.Cep.Pattern.{
  EventPattern, Pattern, exactly_one, matches_event_pattern, is_quantifier_satisfied,
  check_conditions,
}
use gress.Cep.Match.{
  MatchedPattern, try_advance, can_start_new_match, create_partial_match, create_matched_pattern,
}
use gress.Cep.Engine.{
  Readings, CepEngine, new_engine, process_event, register_pattern, process_patterns,
  process_pattern, advance_partial_matches, has_timed_out,
}
use gress.Cep.Engine.Runs.{
  EngineCall, register_call, process_call, run_call, run_calls, AllMatches, process_event-IsMatchOf,
}

-- Integers in the place of floating-point numbers.
abbrev whole : Floats
whole = record {
  F = ℤ;
  zero = pos 0;
  less = ltb_ℤ;
  equal = eqb_ℤ;
  of_int = λ n. n;
  scan = λ s. pos 0;
  event_name = λ i. "event";
  rate = λ n d. pos 0;
  match_id = λ s t. s;
}

abbrev step : String → EventPattern ℤ
step kind = record {
  name = kind;
  kind = kind;
  predicates = [];
  optional = false;
  negated = false;
  quantifier = exactly_one;
  min_occurrences = pos 0;
  max_occurrences = pos 0;
  temporal_constraint = none;
}

abbrev sequence : Pattern ℤ
sequence = record {
  id = "p";
  name = "login then transfer";
  description = "";
  events = step "login" ∷ step "transfer" ∷ [];
  time_window = pos 0;
  conditions = [];
}

abbrev event : String → ℤ → EventMap ℤ
event kind t = ("type", string_value kind) ∷ ("timestamp", time_value t) ∷ []

-- A clock that stands still.
abbrev always : ℕ → Readings
always t = record {
  stamped = pos t;
  checked = λ pattern_id place. pos t;
  created = λ pattern_id. pos t;
}

abbrev calls : List (EngineCall whole)
calls = register_call sequence ∷ process_call (always 1) (event "login" (pos 1)) ∷ []

process_event-IsMatchOf_example : AllMatches whole (run_calls whole calls (new_engine 10 (pos 0))) (
    process_event whole
      (always 2)
      (event "transfer" (pos 2))
      (run_calls whole calls (new_engine 10 (pos 0))))
process_event-IsMatchOf_example =
    process_event-IsMatchOf whole calls 10 (pos 0) (always 2) (event "transfer" (pos 2))

abbrev events_of : Option (CepEngine ℤ × List (MatchedPattern ℤ)) → List (List (EventMap ℤ))
events_of none = []
events_of (some (engine, matches)) = map (λ m. m.matched_events) matches

transfer_matches :
    events_of (
      process_event whole
        (always 2)
        (event "transfer" (pos 2))
        (run_calls whole calls (new_engine 10 (pos 0))))
    ≡ (event "login" (pos 1) ∷ event "transfer" (pos 2) ∷ []) ∷ []
unfolding run_calls run_call process_event process_patterns process_pattern advance_partial_matches
    try_advance register_pattern get put can_start_new_match create_partial_match
    create_matched_pattern matches_event_pattern is_quantifier_satisfied check_conditions
    has_timed_out
transfer_matches = refl
