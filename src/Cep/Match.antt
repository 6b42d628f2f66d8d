-- ===== src/Cep/Match.antt =====
-- pkg/cep/engine.go: partial matches, and how an event advances one.
pub mod Explained
pub mod Advance
use gress.Common.{
  ℕ, zero, suc, ◌+◌, ◌-◌, String, Bool, true, false, ◌&&◌, ◌||◌, Option, none, some, List, [], ◌∷◌,
  ◌++◌, ltb, if◌then◌else◌, ℤ, pos, ltb_ℤ, eqb_ℤ, length, drop, sub_time, string_key, nat_key,
}
use gress.Common.Dict.{Dict, get, put, remove}
use gress.Cep.Value.{Floats, Value, time_value, EventMap, as_string, as_time}
use gress.Cep.Pattern.{
  EventPattern, Pattern, Condition, TemporalConstraint, TemporalConstraintType, temporal_within,
  temporal_after, temporal_before, is_quantifier_satisfied, matches_event_pattern, check_conditions,
}

pub record PartialMatch (F : Type 0) : Type 0 where
  pub id : String
  pub pattern_id : String
  pub matched_events : List (EventMap F)
  pub current_step : ℕ
  pub start_time : ℤ
  pub last_event_time : ℤ
  pub event_counts : Dict ℕ ℕ
  pub negation_buffer : List (EventMap F)

-- The entries of the metadata: "event_count", "unique_users" and "unique_ips".
pub record Metadata : Type 0 where
  pub event_count : ℕ
  pub unique_users : ℕ
  pub unique_ips : ℕ

pub record MatchedPattern (F : Type 0) : Type 0 where
  pub pattern_id : String
  pub pattern_name : String
  pub matched_events : List (EventMap F)
  pub first_event_time : ℤ
  pub last_event_time : ℤ
  pub severity : String
  pub metadata : Metadata

-- What tryAdvanceMatch returns, with the partial match as it leaves it: advanced and completed.
abbrev pub Advanced : Type 0 → Type 0
Advanced F = PartialMatch F × Bool × Bool

abbrev pub or_zero : Option ℕ → ℕ
or_zero none = 0
or_zero (some n) = n

-- The outcome of the temporal constraint of a step that matches.
pub data TemporalOutcome : Type 0 where
  passes violated too_early : TemporalOutcome

abbrev pub check_temporal : Option TemporalConstraint → ℤ → TemporalOutcome
check_temporal none time_diff = passes
check_temporal (some c) time_diff = elim c.kind [
  | temporal_within ↦ if ltb_ℤ c.duration time_diff then violated else passes
  | temporal_after ↦ if ltb_ℤ time_diff c.duration then too_early else passes
  | temporal_before ↦ if ltb_ℤ c.duration time_diff then violated else passes
]

abbrev pub is_longer : Option TemporalConstraint → ℤ → Bool
is_longer none time_diff = false
is_longer (some c) time_diff = ltb_ℤ c.duration time_diff

abbrev pub time_of : Option ℤ → ℤ
time_of none = pos 0
time_of (some t) = t

module _ {F : Type 0} where
  -- The entries of a name in events, without repetition.
  abbrev pub unique : String → List (EventMap F) → Dict String Bool → Dict String Bool
  unique name [] seen = seen
  unique name (event ∷ events) seen =
      unique name events
        (elim (as_string (get event name)) [ none ↦ seen | some s ↦ put seen s true ])

  -- extractMetadata
  pub extract_metadata : List (EventMap F) → Metadata
  extract_metadata events = record {
    event_count = length events;
    unique_users = length (unique "user_id" events []);
    unique_ips = length (unique "ip_address" events []);
  }

  abbrev pub last_time : ℤ → List (EventMap F) → ℤ
  last_time t [] = t
  last_time t (event ∷ events) = last_time (time_of (as_time (get event "timestamp"))) events

module _ (N : Floats) where
  abbrev pub severity_of_rate : N.F → String
  severity_of_rate rate =
      if N.less (N.of_int (pos 10)) rate
      then "critical"
      else if N.less (N.of_int (pos 5)) rate
      then "high"
      else if N.less (N.of_int (pos 2)) rate
      then "medium"
      else "low"

  -- calculateSeverity; a matched event has a time
  pub calculate_severity : List (EventMap N.F) → String
  calculate_severity [] = "low"
  calculate_severity (event ∷ events) =
      let first = time_of (as_time (get event "timestamp")) in
      let duration = sub_time (last_time first events) first in
      if eqb_ℤ duration (pos 0)
      then "critical"
      else severity_of_rate (N.rate (length (event ∷ events)) duration)

  -- createMatchedPattern
  unfoldable pub create_matched_pattern : Pattern N.F → PartialMatch N.F → MatchedPattern N.F
  create_matched_pattern pattern pm = record {
    pattern_id = pattern.id;
    pattern_name = pattern.name;
    matched_events = pm.matched_events;
    first_event_time = pm.start_time;
    last_event_time = pm.last_event_time;
    severity = calculate_severity pm.matched_events;
    metadata = extract_metadata pm.matched_events;
  }

  -- checkIfCompleted; `rest` are the steps from the current one on.
  abbrev pub check_if_completed :
      List Condition → List (EventPattern N.F) → PartialMatch N.F → Advanced N.F
  check_if_completed conditions [] pm = (pm, false, check_conditions N pm.matched_events conditions)
  check_if_completed conditions (p ∷ rest) pm = (pm, true, false)

  -- canStartNewMatch
  unfoldable pub can_start_new_match : List (EventPattern N.F) → EventMap N.F → Bool
  can_start_new_match [] event = false
  can_start_new_match (p ∷ rest) event =
      if p.negated then false else matches_event_pattern N event p

  abbrev pub first_step : List (EventPattern N.F) → ℕ
  first_step [] = 0
  first_step (p ∷ rest) = if is_quantifier_satisfied p 1 then 1 else 0

  -- createPartialMatch
  unfoldable pub create_partial_match : ℤ → ℤ → Pattern N.F → EventMap N.F → PartialMatch N.F
  create_partial_match now event_time pattern event = record {
    id = N.match_id pattern.id now;
    pattern_id = pattern.id;
    matched_events = event ∷ [];
    current_step = first_step pattern.events;
    start_time = event_time;
    last_event_time = event_time;
    event_counts = (0, 1) ∷ [];
    negation_buffer = [];
  }

  abbrev pub violates : EventPattern N.F → List (EventMap N.F) → Bool
  violates p [] = false
  violates p (event ∷ events) = matches_event_pattern N event p || violates p events

  module _ (conditions : List Condition) (event : EventMap N.F) (event_time : ℤ) where
    -- tryAdvanceMatch at a negated step
    abbrev pub advance_negated :
        EventPattern N.F → List (EventPattern N.F) → PartialMatch N.F → Advanced N.F
    advance_negated p rest pm =
        let buffer = pm.negation_buffer ++ event ∷ [] in
        if violates p buffer
        then (record pm { negation_buffer = buffer }, false, false)
        else if is_longer p.temporal_constraint (sub_time event_time pm.last_event_time)
        then check_if_completed conditions rest
            (record pm { current_step = suc pm.current_step; negation_buffer = [] })
        else (record pm { negation_buffer = buffer }, true, false)

    -- The event is added to the current step.
    abbrev pub with_event : PartialMatch N.F → PartialMatch N.F
    with_event pm = record pm {
      event_counts =
          put pm.event_counts pm.current_step (suc (or_zero (get pm.event_counts pm.current_step)));
      matched_events = pm.matched_events ++ event ∷ [];
      last_event_time = event_time;
    }

    -- tryAdvanceMatch at a step that the event matches, by what the temporal constraint says
    abbrev pub after_temporal :
        TemporalOutcome
        → EventPattern N.F
        → List (EventPattern N.F)
        → PartialMatch N.F
        → Advanced N.F
    after_temporal violated p rest pm = (pm, false, false)
    after_temporal too_early p rest pm = (pm, true, false)
    after_temporal passes p rest pm =
        if is_quantifier_satisfied p (suc (or_zero (get pm.event_counts pm.current_step)))
        then check_if_completed conditions rest
            (record (with_event pm) { current_step = suc pm.current_step })
        else (with_event pm, true, false)

    abbrev pub advance_matched :
        EventPattern N.F → List (EventPattern N.F) → PartialMatch N.F → Advanced N.F
    advance_matched p rest pm =
        after_temporal
          (check_temporal p.temporal_constraint (sub_time event_time pm.last_event_time)) p rest pm

    -- tryAdvanceMatch, with the steps from the current one on
    unfoldable pub try_advance : List (EventPattern N.F) → PartialMatch N.F → Advanced N.F
    try_advance [] pm = (pm, false, true)
    try_advance (p ∷ rest) pm =
        let skipped = try_advance rest (record pm { current_step = suc pm.current_step }) in
        if p.negated
        then advance_negated p rest pm
        else if matches_event_pattern N event p
        then advance_matched p rest pm
        else if p.optional
        then skipped
        else (pm, false, false)
