-- ===== src/Errors/CircuitBreaker.antt =====
-- pkg/errors/circuit_breaker.go: CircuitBreaker. A method that mutates `*CircuitBreaker` returns
-- the new record. Times and durations are integers of nanoseconds; a method that reads the clock
-- takes its readings as an argument, in the order in which it makes them.
pub mod Transitions
pub mod Invariant
pub mod Runs
mod Tests
use gress.Common.{
  ℕ, zero, suc, ◌+◌, ◌-◌, ◌%◌, ◌^◌, String, Bool, true, false, ◌&&◌, Option, none, some, List, [],
  ◌∷◌, ◌++◌, ltb, leb, if◌then◌else◌, ℤ, pos, sub_time, ltb_ℤ,
}

pub data CircuitState : Type 0 where
  closed open_ half_open : CircuitState

-- CircuitState.String
pub state_name : CircuitState → String
state_name closed = "closed"
state_name open_ = "open"
state_name half_open = "half-open"

-- oldState != newState
abbrev pub differs : CircuitState → CircuitState → Bool
differs closed closed = false
differs open_ open_ = false
differs half_open half_open = false
differs _ _ = true

-- `notifies` says that OnStateChange is configured.
pub record CircuitBreakerConfig : Type 0 where
  pub name : String
  pub failure_threshold : ℕ  -- uint32
  pub success_threshold : ℕ  -- uint32
  pub timeout : ℤ
  pub max_concurrent_requests : ℕ  -- uint32
  pub notifies : Bool

pub default_config : String → CircuitBreakerConfig
default_config name = record {
  name = name;
  failure_threshold = 5;
  success_threshold = 2;
  timeout = pos 60000000000;
  max_concurrent_requests = 1;
  notifies = false;
}

-- A call of OnStateChange, which runs in a goroutine of its own.
pub record StateChange : Type 0 where
  pub name : String
  pub from : CircuitState
  pub to : CircuitState

pub record CircuitBreaker : Type 0 where
  pub config : CircuitBreakerConfig
  pub state : CircuitState
  pub failure_count : ℕ  -- uint32
  pub success_count : ℕ  -- uint32
  pub last_failure_time : ℤ
  pub last_state_change : ℤ
  pub half_open_requests : ℕ  -- uint32
  pub total_requests : ℕ  -- uint64
  pub total_failures : ℕ  -- uint64
  pub total_successes : ℕ  -- uint64
  pub changes : List StateChange

-- Go's increments wrap.
abbrev pub inc32 : ℕ → ℕ
inc32 n = (n + 1) % 4294967296

abbrev pub inc64 : ℕ → ℕ
inc64 n = (n + 1) % 18446744073709551616

-- NewCircuitBreaker; Go's zero time is 0.
unfoldable pub new : CircuitBreakerConfig → ℤ → CircuitBreaker
new config now = record {
  config = config;
  state = closed;
  failure_count = 0;
  success_count = 0;
  last_failure_time = pos 0;
  last_state_change = now;
  half_open_requests = 0;
  total_requests = 0;
  total_failures = 0;
  total_successes = 0;
  changes = [];
}

-- ErrCircuitOpen and ErrTooManyRequests. The error for an unknown state does not occur: the field
-- `state` only ever holds the three constants.
pub data RequestError : Type 0 where
  circuit_open : String → ℤ → RequestError
  too_many_requests : String → RequestError

-- The readings of time.Now() in one call.
pub record Readings : Type 0 where
  pub first : ℤ
  pub second : ℤ

pub set_state : CircuitState → ℤ → CircuitBreaker → CircuitBreaker
set_state s now cb = record cb {
  state = s;
  last_state_change = now;
  changes =
      if cb.config.notifies && differs cb.state s
      then cb.changes ++ record { name = cb.config.name; from = cb.state; to = s } ∷ []
      else cb.changes;
}

-- time.Since(cb.lastFailureTime) > cb.config.Timeout
pub timeout_elapsed : CircuitBreaker → ℤ → Bool
unfolding sub_time
timeout_elapsed cb now = ltb_ℤ cb.config.timeout (sub_time now cb.last_failure_time)

-- The switch of beforeRequest, after totalRequests++.
admit : CircuitState → Readings → CircuitBreaker → CircuitBreaker × Option RequestError
unfolding set_state
admit closed now cb = (cb, none)
admit open_ now cb =
    if timeout_elapsed cb now.first
    then (record (set_state half_open now.second cb) { half_open_requests = 1 }, none)
    else (cb, some (circuit_open cb.config.name cb.last_failure_time))
admit half_open now cb =
    if leb cb.config.max_concurrent_requests cb.half_open_requests
    then (cb, some (too_many_requests cb.config.name))
    else (record cb { half_open_requests = inc32 cb.half_open_requests }, none)

pub before_request : Readings → CircuitBreaker → CircuitBreaker × Option RequestError
unfolding admit
before_request now cb = admit cb.state now (record cb { total_requests = inc64 cb.total_requests })

-- The switch of onSuccess, after totalSuccesses++.
succeed : CircuitState → ℤ → CircuitBreaker → CircuitBreaker
unfolding set_state
succeed closed now cb = record cb { failure_count = 0 }
succeed half_open now cb =
    let counted = record cb { success_count = inc32 cb.success_count } in
    if leb cb.config.success_threshold counted.success_count
    then record (set_state closed now counted) {
      failure_count = 0;
      success_count = 0;
      half_open_requests = 0;
    }
    else record counted { half_open_requests = counted.half_open_requests - 1 }
succeed open_ now cb = cb

pub on_success : ℤ → CircuitBreaker → CircuitBreaker
unfolding succeed
on_success now cb = succeed cb.state now (record cb { total_successes = inc64 cb.total_successes })

-- The switch of onFailure, after totalFailures++ and the new lastFailureTime.
fail : CircuitState → ℤ → CircuitBreaker → CircuitBreaker
unfolding set_state
fail closed now cb =
    let counted = record cb { failure_count = inc32 cb.failure_count } in
    if leb cb.config.failure_threshold counted.failure_count
    then record (set_state open_ now counted) { success_count = 0 }
    else counted
fail half_open now cb = record (set_state open_ now cb) {
  success_count = 0;
  half_open_requests = 0;
}
fail open_ now cb = cb

pub on_failure : Readings → CircuitBreaker → CircuitBreaker
unfolding fail
on_failure now cb =
    fail cb.state now.second
      (record cb { total_failures = inc64 cb.total_failures; last_failure_time = now.first })

-- afterRequest; `failed` says that the operation returned an error.
pub after_request : Readings → Bool → CircuitBreaker → CircuitBreaker
unfolding on_success on_failure
after_request now true cb = on_failure now cb
after_request now false cb = on_success now.first cb

-- What Execute returns: the breaker's own error, or whether the operation failed.
pub data Outcome : Type 0 where
  rejected : RequestError → Outcome
  returned : Bool → Outcome

-- Execute, where no other request runs in between: the operation is run only if it is admitted.
abbrev run_operation :
    Readings → Bool → CircuitBreaker × Option RequestError → CircuitBreaker × Outcome
run_operation later failed (cb, some e) = (cb, rejected e)
run_operation later failed (cb, none) = (after_request later failed cb, returned failed)

pub execute : Readings → Readings → Bool → CircuitBreaker → CircuitBreaker × Outcome
unfolding before_request after_request
execute now later failed cb = run_operation later failed (before_request now cb)

unfoldable pub reset : ℤ → CircuitBreaker → CircuitBreaker
reset now cb = record cb {
  state = closed;
  failure_count = 0;
  success_count = 0;
  half_open_requests = 0;
  last_state_change = now;
  changes =
      if cb.config.notifies && differs cb.state closed
      then cb.changes ++ record { name = cb.config.name; from = cb.state; to = closed } ∷ []
      else cb.changes;
}

pub is_available : ℤ → CircuitBreaker → Bool
unfolding timeout_elapsed
is_available now cb = elim cb.state [
  | closed ↦ true
  | half_open ↦ ltb cb.half_open_requests cb.config.max_concurrent_requests
  | open_ ↦ timeout_elapsed cb now
]
