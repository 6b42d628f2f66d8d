-- ===== src/Cep/Engine/Runs.antt =====
-- The matches of an engine after any calls.
use gress.Common.{String, Option, none, some, List, [], ◌∷◌, ◌++◌, ℕ, ℤ, All, string_key}
use gress.Common.Dict.{Dict, get}
use gress.Cep.Value.{Floats, EventMap, as_time}
use gress.Cep.Pattern.{Pattern}
use gress.Cep.Match.{MatchedPattern}
use gress.Cep.Engine.{
  Readings, CepEngine, new_engine, register_pattern, unregister_pattern, with_timestamp,
  cleanup_timed_out_matches, process_event, process_at, without_time, buffered,
}
use gress.Cep.Engine.Upkeep.{Partials-register, Partials-remove, clean_patterns-Partials}
use gress.Cep.Engine.Matches.{
  Distinct, Distinct-put, Distinct-remove, Named, Named-put, Named-remove, Partials, IsMatchOf,
  process_patterns-Partials,
}

module _ (N : Floats) where
  -- A call of one of the methods that change the engine, with the readings of the clock.
  pub data EngineCall : Type 0 where
    register_call : Pattern N.F → EngineCall
    unregister_call : String → EngineCall
    process_call : Readings → EventMap N.F → EngineCall
    clean_call : (String → ℕ → ℤ) → EngineCall

  abbrev pub after_call :
      CepEngine N.F → Option (CepEngine N.F × List (MatchedPattern N.F)) → CepEngine N.F
  after_call engine none = engine
  after_call engine (some (engine', matches)) = engine'

  -- The engine after a call; a call that panics is taken to change nothing.
  unfoldable pub run_call : EngineCall → CepEngine N.F → CepEngine N.F
  run_call (register_call pattern) engine = register_pattern pattern engine
  run_call (unregister_call pattern_id) engine = unregister_pattern pattern_id engine
  run_call (process_call clock event) engine =
      after_call engine (process_event N clock event engine)
  run_call (clean_call checked) engine = cleanup_timed_out_matches N checked engine

  unfoldable pub run_calls : List EngineCall → CepEngine N.F → CepEngine N.F
  run_calls [] engine = engine
  run_calls (c ∷ calls) engine = run_calls calls (run_call c engine)

  record IsSane (engine : CepEngine N.F) : Type 0 where
    distinct : Distinct N engine.patterns
    named : Named N engine.patterns
    partials : Partials N engine.patterns engine.partial_matches

  -- What ProcessEvent returns: a sane engine and matches of its patterns.
  abbrev pub AllMatches :
      CepEngine N.F → Option (CepEngine N.F × List (MatchedPattern N.F)) → Type 0
  AllMatches engine none = Unit
  AllMatches engine (some (engine', matches)) = All (IsMatchOf N engine.patterns) matches

  abbrev SaneAfter : Option (CepEngine N.F × List (MatchedPattern N.F)) → Type 0
  SaneAfter none = Unit
  SaneAfter (some (engine', matches)) = IsSane engine'

  without_time-IsSane :
      (patterns : Dict String (Pattern N.F)) (engine : CepEngine N.F)
      → IsSane engine
      → SaneAfter (without_time N patterns engine)
        × AllMatches engine (without_time N patterns engine)
  without_time-IsSane [] engine h = (h, tt)
  without_time-IsSane (p ∷ patterns) engine h = (tt, tt)

  process_at-IsSane :
      (clock : Readings) (event : EventMap N.F) (o : Option ℤ) (engine : CepEngine N.F)
      → IsSane engine
      → SaneAfter (process_at N clock event o engine)
        × AllMatches engine (process_at N clock event o engine)
  process_at-IsSane clock event (some t) engine h =
      let (rest, matches) =
        process_patterns-Partials N engine.timeout_duration clock event t engine.patterns
          engine.partial_matches h.distinct h.named h.partials in
      (record { distinct = h.distinct; named = h.named; partials = rest }, matches)
  process_at-IsSane clock event none engine h = without_time-IsSane engine.patterns engine h

  process_event-IsSane :
      (clock : Readings) (event : EventMap N.F) (engine : CepEngine N.F)
      → IsSane engine
      → SaneAfter (process_event N clock event engine)
        × AllMatches engine (process_event N clock event engine)
  unfolding process_event
  process_event-IsSane clock event engine h =
      let stamped = with_timestamp N clock.stamped event (get event "timestamp") in
      let next = record engine {
        event_buffer = buffered N engine.max_buffer_size (engine.event_buffer ++ stamped ∷ []);
      } in
      process_at-IsSane clock stamped (as_time (get stamped "timestamp")) next
        (record { distinct = h.distinct; named = h.named; partials = h.partials })

  after_call-IsSane :
      (engine : CepEngine N.F) (o : Option (CepEngine N.F × List (MatchedPattern N.F)))
      → IsSane engine
      → SaneAfter o
      → IsSane (after_call engine o)
  after_call-IsSane engine none h s = h
  after_call-IsSane engine (some (engine', matches)) h s = s

  run_call-IsSane :
      (c : EngineCall) (engine : CepEngine N.F) → IsSane engine → IsSane (run_call c engine)
  unfolding run_call register_pattern unregister_pattern cleanup_timed_out_matches
  run_call-IsSane (register_call p) engine h = record {
    distinct = Distinct-put N engine.patterns p.id p h.distinct;
    named = Named-put N engine.patterns p h.named;
    partials = Partials-register N engine.patterns engine.partial_matches p.id p h.partials;
  }
  run_call-IsSane (unregister_call k) engine h = record {
    distinct = Distinct-remove N engine.patterns k h.distinct;
    named = Named-remove N engine.patterns k h.named;
    partials = Partials-remove N engine.patterns engine.partial_matches k h.partials;
  }
  run_call-IsSane (process_call clock event) engine h =
      after_call-IsSane engine (process_event N clock event engine) h
        (process_event-IsSane clock event engine h).0
  run_call-IsSane (clean_call checked) engine h = record {
    distinct = h.distinct;
    named = h.named;
    partials =
        clean_patterns-Partials N engine.timeout_duration checked engine.patterns
          engine.partial_matches h.distinct h.partials;
  }

  run_calls-IsSane :
      (calls : List EngineCall) (engine : CepEngine N.F)
      → IsSane engine
      → IsSane (run_calls calls engine)
  unfolding run_calls
  run_calls-IsSane [] engine h = h
  run_calls-IsSane (c ∷ calls) engine h =
      run_calls-IsSane calls (run_call c engine) (run_call-IsSane c engine h)

  pub process_event-IsMatchOf :
      (calls : List EngineCall) (max_buffer_size : ℕ) (timeout_duration : ℤ) (clock : Readings)
      (event : EventMap N.F)
      → (let engine = run_calls calls (new_engine max_buffer_size timeout_duration) in
          AllMatches engine (process_event N clock event engine))
  process_event-IsMatchOf calls max_buffer_size timeout_duration clock event =
      let engine = run_calls calls (new_engine max_buffer_size timeout_duration) in
      let sane =
        run_calls-IsSane calls (new_engine max_buffer_size timeout_duration)
          (record { distinct = tt; named = tt; partials = tt }) in
      (process_event-IsSane clock event engine sane).1
