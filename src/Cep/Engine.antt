-- ===== src/Cep/Engine.antt =====
-- pkg/cep/engine.go: CEPEngine. Each reading of the clock has its own value, see Readings; the
-- callback gets the matches that ProcessEvent returns. MaxBufferSize is not negative.
pub mod Soundness
pub mod Matches
pub mod Upkeep
pub mod Runs
use gress.Common.{
  ℕ, suc, ◌+◌, ◌-◌, String, Bool, true, false, ◌&&◌, ◌||◌, Option, none, some, List, [], ◌∷◌, ◌++◌,
  ltb, if◌then◌else◌, ℤ, pos, ltb_ℤ, eqb_ℤ, length, drop, sub_time, string_key,
}
use gress.Common.Dict.{Dict, get, put, remove}
use gress.Cep.Value.{Floats, Value, time_value, EventMap, as_time}
use gress.Cep.Pattern.{Pattern}
use gress.Cep.Match.{
  PartialMatch, MatchedPattern, Advanced, create_matched_pattern, can_start_new_match,
  create_partial_match, try_advance,
}

pub record CepEngine (F : Type 0) : Type 0 where
  pub patterns : Dict String (Pattern F)
  pub partial_matches : Dict String (List (PartialMatch F))
  pub event_buffer : List (EventMap F)
  pub max_buffer_size : ℕ
  pub timeout_duration : ℤ

-- What the clock says in one call: for an event without a timestamp, at the test of the partial match
-- of a pattern at a place of its list, and for a new partial match of a pattern.
pub record Readings : Type 0 where
  pub stamped : ℤ
  pub checked : String → ℕ → ℤ
  pub created : String → ℤ

abbrev pub or_empty : {A : Type 0} → Option (List A) → List A
or_empty none = []
or_empty (some xs) = xs

module _ {F : Type 0} where
  -- hasTimedOut
  unfoldable pub has_timed_out : ℤ → ℤ → Pattern F → PartialMatch F → Bool
  has_timed_out timeout_duration now pattern pm =
      if eqb_ℤ timeout_duration (pos 0)
      then false
      else let timeout =
          if ltb_ℤ (pos 0) pattern.time_window && ltb_ℤ pattern.time_window timeout_duration
          then pattern.time_window
          else timeout_duration in
        ltb_ℤ timeout (sub_time now pm.last_event_time)

  abbrev pub new_engine : ℕ → ℤ → CepEngine F
  new_engine max_buffer_size timeout_duration = record {
    patterns = [];
    partial_matches = [];
    event_buffer = [];
    max_buffer_size = max_buffer_size;
    timeout_duration = timeout_duration;
  }

  -- RegisterPattern and UnregisterPattern
  unfoldable pub register_pattern : Pattern F → CepEngine F → CepEngine F
  register_pattern pattern engine = record engine {
    patterns = put engine.patterns pattern.id pattern;
    partial_matches = put engine.partial_matches pattern.id [];
  }

  unfoldable pub unregister_pattern : String → CepEngine F → CepEngine F
  unregister_pattern pattern_id engine = record engine {
    patterns = remove engine.patterns pattern_id;
    partial_matches = remove engine.partial_matches pattern_id;
  }

module _ (N : Floats) where
  module _ (timeout_duration : ℤ) (clock : Readings) (event : EventMap N.F) (event_time : ℤ) where
    -- A partial match that advancePartialMatches drops before it tries to advance it.
    abbrev pub is_stale : ℕ → Pattern N.F → PartialMatch N.F → Bool
    is_stale place pattern pm =
        has_timed_out timeout_duration (clock.checked pattern.id place) pattern pm
        || (ltb_ℤ (pos 0) pattern.time_window
            && ltb_ℤ pattern.time_window (sub_time event_time pm.start_time))

    abbrev pub sort_out :
        Pattern N.F
        → Advanced N.F
        → List (PartialMatch N.F) × List (MatchedPattern N.F)
        → List (PartialMatch N.F) × List (MatchedPattern N.F)
    sort_out pattern (pm, advanced, completed) (active, matches) =
        if completed
        then (active, create_matched_pattern N pattern pm ∷ matches)
        else if advanced
        then (pm ∷ active, matches)
        else (active, matches)

    -- advancePartialMatches, on the partial matches from a place on: the active partial matches and the
    -- completed matches
    unfoldable pub advance_partial_matches :
        ℕ
        → Pattern N.F
        → List (PartialMatch N.F)
        → List (PartialMatch N.F) × List (MatchedPattern N.F)
    advance_partial_matches place pattern [] = ([], [])
    advance_partial_matches place pattern (pm ∷ pms) =
        let later = advance_partial_matches (suc place) pattern pms in
        if is_stale place pattern pm
        then later
        else sort_out pattern
            (try_advance N pattern.conditions event event_time (drop pm.current_step pattern.events)
              pm)
            later

    -- The body of ProcessEvent's loop over the patterns
    unfoldable pub process_pattern :
        Pattern N.F → List (PartialMatch N.F) → List (PartialMatch N.F) × List (MatchedPattern N.F)
    unfolding advance_partial_matches
    process_pattern pattern pms =
        let (active, matches) = advance_partial_matches 0 pattern pms in
        if can_start_new_match N pattern.events event
        then (
          active ++ create_partial_match N (clock.created pattern.id) event_time pattern event ∷ [],
          matches,
        )
        else (active, matches)

    -- ProcessEvent's loop over the patterns, in the order in which the map is visited
    unfoldable pub process_patterns :
        Dict String (Pattern N.F)
        → Dict String (List (PartialMatch N.F))
        → Dict String (List (PartialMatch N.F)) × List (MatchedPattern N.F)
    unfolding process_pattern
    process_patterns [] partials = (partials, [])
    process_patterns ((pattern_id, pattern) ∷ patterns) partials =
        let (pms, matches) = process_pattern pattern (or_empty (get partials pattern_id)) in
        let (partials', more) = process_patterns patterns (put partials pattern_id pms) in
        (partials', matches ++ more)

  -- The event of ProcessEvent, with a timestamp
  abbrev pub with_timestamp : ℤ → EventMap N.F → Option (Value N.F) → EventMap N.F
  with_timestamp now event none = put event "timestamp" (time_value now)
  with_timestamp now event (some v) = event

  abbrev pub buffered : ℕ → List (EventMap N.F) → List (EventMap N.F)
  buffered max_buffer_size buffer =
      if ltb max_buffer_size (length buffer)
      then drop (length buffer - max_buffer_size) buffer
      else buffer

  abbrev pub with_partial_matches :
      CepEngine N.F
      → Dict String (List (PartialMatch N.F)) × List (MatchedPattern N.F)
      → CepEngine N.F × List (MatchedPattern N.F)
  with_partial_matches engine (partials, matches) =
      (record engine { partial_matches = partials }, matches)

  -- An event whose timestamp is not a time panics at the first pattern.
  abbrev pub without_time :
      Dict String (Pattern N.F) → CepEngine N.F → Option (CepEngine N.F × List (MatchedPattern N.F))
  without_time [] engine = some (engine, [])
  without_time (p ∷ patterns) engine = none

  abbrev pub process_at :
      Readings
      → EventMap N.F
      → Option ℤ
      → CepEngine N.F
      → Option (CepEngine N.F × List (MatchedPattern N.F))
  process_at clock event (some t) engine = some (
      with_partial_matches engine (
        process_patterns engine.timeout_duration clock event t engine.patterns
          engine.partial_matches))
  process_at clock event none engine = without_time engine.patterns engine

  -- ProcessEvent; `none` is a panic
  unfoldable pub process_event :
      Readings → EventMap N.F → CepEngine N.F → Option (CepEngine N.F × List (MatchedPattern N.F))
  unfolding process_patterns
  process_event clock event engine =
      let stamped = with_timestamp clock.stamped event (get event "timestamp") in
      process_at clock stamped (as_time (get stamped "timestamp")) (record engine {
        event_buffer = buffered engine.max_buffer_size (engine.event_buffer ++ stamped ∷ []);
      })

  -- cleanupTimedOutMatches; `checked` is the clock at the test of each partial match.
  abbrev pub live_matches :
      ℤ → (String → ℕ → ℤ) → ℕ → Pattern N.F → List (PartialMatch N.F) → List (PartialMatch N.F)
  live_matches timeout_duration checked place pattern [] = []
  live_matches timeout_duration checked place pattern (pm ∷ pms) =
      let rest = live_matches timeout_duration checked (suc place) pattern pms in
      if has_timed_out timeout_duration (checked pattern.id place) pattern pm
      then rest
      else pm ∷ rest

  abbrev pub clean_patterns :
      ℤ
      → (String → ℕ → ℤ)
      → Dict String (Pattern N.F)
      → Dict String (List (PartialMatch N.F))
      → Dict String (List (PartialMatch N.F))
  clean_patterns timeout_duration checked [] partials = partials
  clean_patterns timeout_duration checked ((pattern_id, pattern) ∷ patterns) partials =
      clean_patterns timeout_duration checked patterns (
        put partials pattern_id
          (live_matches timeout_duration checked 0 pattern (or_empty (get partials pattern_id))))

  unfoldable pub cleanup_timed_out_matches : (String → ℕ → ℤ) → CepEngine N.F → CepEngine N.F
  cleanup_timed_out_matches checked engine = record engine {
    partial_matches =
        clean_patterns engine.timeout_duration checked engine.patterns engine.partial_matches;
  }
