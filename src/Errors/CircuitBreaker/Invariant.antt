-- ===== src/Errors/CircuitBreaker/Invariant.antt =====
-- What holds of a circuit breaker after any interleaving of the calls that goroutines make.
use gress.Common.{◌≤◌, ◌<◌, ◌≡◌, ◌⊎◌, Bool, arith, ℤ, List, [], ◌∷◌, max}
use gress.Errors.CircuitBreaker.{
  closed, half_open, CircuitBreaker, CircuitBreakerConfig, Readings, before_request, after_request,
  reset, new,
}

-- The calls that change a breaker. An `after` stands for the end of any admitted request, however
-- late it comes; the calls interleave freely.
pub data Call : Type 0 where
  before : Readings → Call
  after : Readings → Bool → Call
  reset_at : ℤ → Call

pub step : Call → CircuitBreaker → CircuitBreaker
step (before now) cb = (before_request now cb).0
step (after now failed) cb = after_request now failed cb
step (reset_at now) cb = reset now cb

pub run_calls : List Call → CircuitBreaker → CircuitBreaker
run_calls [] cb = cb
run_calls (c ∷ cs) cb = run_calls cs (step c cb)

-- The two thresholds and the limit are uint32 values; the configuration is never written.
pub record IsConfigured (config : CircuitBreakerConfig) : Type 0 where
  pub failure_fits : config.failure_threshold < 4294967296
  pub success_fits : config.success_threshold < 4294967296
  pub limit_fits : config.max_concurrent_requests < 4294967296

-- The counters that a state uses are below their thresholds (a threshold of 0 acts as 1), and those
-- that it does not use are 0.
pub record Inv (config : CircuitBreakerConfig) (cb : CircuitBreaker) : Type 0 where
  pub same_config : cb.config ≡ config
  pub failures_below : cb.state ≡ closed → cb.failure_count < max 1 config.failure_threshold
  pub successes_below : cb.state ≡ half_open → cb.success_count < max 1 config.success_threshold
  pub no_successes : (cb.state ≡ half_open) ⊎ (cb.success_count ≡ 0)
  pub probes_below : cb.half_open_requests ≤ max 1 config.max_concurrent_requests
  pub no_probes : (cb.state ≡ half_open) ⊎ (cb.half_open_requests ≡ 0)

new-Inv : (config : CircuitBreakerConfig) (now : ℤ) → Inv config (new config now)
unfolding new
new-Inv config now = ground arith

module _ (config : CircuitBreakerConfig) (fits : IsConfigured config) where
  before_request-Inv :
      (cb : CircuitBreaker) (now : Readings) → Inv config cb → Inv config (before_request now cb).0
  unfolding before_request
  before_request-Inv cb now h = ground arith

  after_request-Inv :
      (cb : CircuitBreaker) (now : Readings) (failed : Bool)
      → Inv config cb
      → Inv config (after_request now failed cb)
  unfolding after_request
  after_request-Inv cb now failed h = ground arith

  reset-Inv : (cb : CircuitBreaker) (now : ℤ) → Inv config cb → Inv config (reset now cb)
  unfolding reset
  reset-Inv cb now h = ground arith

  step-Inv : (c : Call) (cb : CircuitBreaker) → Inv config cb → Inv config (step c cb)
  unfolding step
  step-Inv (before now) cb h = before_request-Inv cb now h
  step-Inv (after now failed) cb h = after_request-Inv cb now failed h
  step-Inv (reset_at now) cb h = reset-Inv cb now h

  run_calls_keeps :
      (cs : List Call) (cb : CircuitBreaker) → Inv config cb → Inv config (run_calls cs cb)
  unfolding run_calls
  run_calls_keeps [] cb h = h
  run_calls_keeps (c ∷ cs) cb h = run_calls_keeps cs (step c cb) (step-Inv c cb h)

  -- After any interleaving of beforeRequest, afterRequest and Reset calls on a new breaker whose
  -- configuration fits in uint32: its configuration is the given one; a closed breaker has counted
  -- fewer failures than the failure threshold, a half-open one fewer successes than the success
  -- threshold (0 acting as 1); half-open requests never exceed the limit (0 acting as 1); and
  -- outside half-open the counts of successes and of half-open requests are 0.
  pub run_calls-Inv : (cs : List Call) (now : ℤ) → Inv config (run_calls cs (new config now))
  run_calls-Inv cs now = run_calls_keeps cs (new config now) (new-Inv config now)
