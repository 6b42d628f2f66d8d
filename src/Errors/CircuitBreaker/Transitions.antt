-- ===== src/Errors/CircuitBreaker/Transitions.antt =====
-- The transitions of a circuit breaker, and what each call does on every branch.
use gress.Common.{◌≡◌, ◌↔◌, Bool, true, false, none, arith, if◌then◌else◌}
use gress.Errors.CircuitBreaker.{
  CircuitState, closed, open_, half_open, CircuitBreaker, Readings, before_request, after_request,
  is_available, inc64, Outcome, rejected, returned, execute,
}

-- The edges of the state diagram, for a step that is no Reset.
pub data Edge : CircuitState → CircuitState → Type 0 where
  stay : {s : CircuitState} → Edge s s
  trip : Edge closed open_
  probe : Edge open_ half_open
  recover : Edge half_open closed
  relapse : Edge half_open open_

-- beforeRequest, and afterRequest with either result, only follow the edges of the diagram: closed
-- to open, open to half-open, half-open to closed or open.
pub request-Edge :
    (cb : CircuitBreaker) (now : Readings) (failed : Bool)
    → Edge cb.state (before_request now cb).0.state
      × Edge cb.state (after_request now failed cb).state
unfolding before_request after_request
request-Edge cb now failed = grind (arith, stay, trip, probe, recover, relapse)

-- IsAvailable answers true exactly when beforeRequest, at the same reading of the clock, admits.
pub is_available_iff :
    (cb : CircuitBreaker) (now : Readings)
    → (is_available now.first cb ≡ true) ↔ ((before_request now cb).1 ≡ none)
unfolding before_request is_available
is_available_iff cb now = (λ h. ground arith, λ h. ground arith)

abbrev pub is_rejected : Outcome → Bool
is_rejected (rejected e) = true
is_rejected (returned failed) = false

-- While IsAvailable answers false, Execute does not run the operation: it returns the breaker's own
-- error, whatever the operation would have done, and only the count of requests has changed.
pub execute_unavailable :
    (cb : CircuitBreaker) (now later : Readings) (failed : Bool)
    → is_available now.first cb ≡ false
    → (is_rejected (execute now later failed cb).1 ≡ true)
      × ((execute now later failed cb).0 ≡ record cb { total_requests = inc64 cb.total_requests })
unfolding execute is_available
execute_unavailable cb now later failed h = ground arith

-- While IsAvailable answers true, Execute runs the operation and returns its result, and exactly
-- one of the two totals has grown, by one.
pub execute_available :
    (cb : CircuitBreaker) (now later : Readings) (failed : Bool)
    → is_available now.first cb ≡ true
    → let cb' = (execute now later failed cb).0 in
      ((execute now later failed cb).1 ≡ returned failed)
      × (cb'.total_failures ≡ (if failed then inc64 cb.total_failures else cb.total_failures))
      × (cb'.total_successes ≡ (if failed then cb.total_successes else inc64 cb.total_successes))
unfolding execute is_available
execute_available cb now later failed h = ground arith
