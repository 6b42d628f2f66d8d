-- ===== src/Errors/CircuitBreaker/Tests.antt =====
-- A breaker with the default configuration, followed by hand, and the theorems at that breaker.
use gress.Common.{ℕ, ◌≡◌, refl, ◌↔◌, Bool, true, false, none, [], ◌∷◌, pos, arith, replicate}
use gress.Errors.CircuitBreaker.{
  closed, open_, CircuitBreaker, CircuitBreakerConfig, Readings, new, default_config,
  before_request, after_request, execute, is_available, timeout_elapsed, returned, inc64,
}
use gress.Errors.CircuitBreaker.Transitions.{
  Edge, request-Edge, is_available_iff, is_rejected, execute_unavailable, execute_available,
}
use gress.Errors.CircuitBreaker.Invariant.{before, after, run_calls, Inv, run_calls-Inv}
use gress.Errors.CircuitBreaker.Runs.{
  Attempt, execute_all, execute_all_failures, execute_all_recovers,
}

abbrev at : ℕ → Readings
at n = record { first = pos n; second = pos n }

abbrev attempt : ℕ → Bool → Attempt
attempt n failed = record { now = at n; later = at n; failed = failed }

abbrev config : CircuitBreakerConfig
config = record {
  name = "sink";
  failure_threshold = 2;
  success_threshold = 2;
  timeout = pos 10;
  max_concurrent_requests = 1;
  notifies = true;
}

abbrev fresh : CircuitBreaker
fresh = new config (pos 0)

abbrev tripped : CircuitBreaker
tripped = execute_all (attempt 100 true ∷ attempt 101 true ∷ []) fresh

tripped_state : (tripped.state ≡ open_) × (tripped.success_count ≡ 0)
unfolding execute_all execute new
tripped_state = (refl, refl)

five_failures :
    (execute_all (replicate 5 (attempt 7 true)) (new (default_config "x") (pos 0))).state ≡ open_
unfolding execute_all execute new default_config
five_failures = refl

request-Edge_example :
    Edge open_ (before_request (at 500) tripped).0.state
    × Edge open_ (after_request (at 500) true tripped).state
unfolding execute_all execute new
request-Edge_example = request-Edge tripped (at 500) true

is_available_iff_example :
    (is_available (pos 105) tripped ≡ true) ↔ ((before_request (at 105) tripped).1 ≡ none)
is_available_iff_example = is_available_iff tripped (at 105)

execute_unavailable_example :
    (is_rejected (execute (at 105) (at 106) true tripped).1 ≡ true)
    × ((execute (at 105) (at 106) true tripped).0
        ≡ record tripped { total_requests = inc64 tripped.total_requests })
execute_unavailable_example =
    execute_unavailable tripped (at 105) (at 106) true
      (unfold execute_all execute new is_available in refl)

execute_available_example :
    let cb' = (execute (at 200) (at 201) true tripped).0 in
    ((execute (at 200) (at 201) true tripped).1 ≡ returned true)
    × (cb'.total_failures ≡ inc64 tripped.total_failures)
    × (cb'.total_successes ≡ tripped.total_successes)
execute_available_example =
    execute_available tripped (at 200) (at 201) true
      (unfold execute_all execute new is_available in refl)

run_calls-Inv_example : Inv config (
    run_calls
      (before (at 1) ∷ after (at 2) true ∷ after (at 3) true ∷ before (at 50) ∷ [])
      (new config (pos 0)))
run_calls-Inv_example =
    run_calls-Inv config (omega arith)
      (before (at 1) ∷ after (at 2) true ∷ after (at 3) true ∷ before (at 50) ∷ []) (pos 0)

execute_all_failures_example : tripped.state ≡ open_
execute_all_failures_example =
    execute_all_failures config (pos 0) (attempt 100 true ∷ attempt 101 true ∷ []) (omega arith)
      (refl, (refl, tt)) (omega arith)

execute_all_recovers_example :
    (execute_all (attempt 200 false ∷ attempt 201 false ∷ []) tripped).state ≡ closed
unfolding execute_all execute new
execute_all_recovers_example =
    execute_all_recovers (attempt 200 false) (attempt 201 false ∷ []) tripped (omega arith)
      (omega arith) refl refl (unfold timeout_elapsed in refl) (refl, (refl, tt)) refl
