-- ===== src/Errors/CircuitBreaker/Runs.antt =====
-- Requests that follow one another: when a run of failures trips the breaker, and when a run of
-- successes closes it again.
use gress.Common.{
  ℕ, ◌+◌, ◌≤◌, ◌<◌, ◌≡◌, refl, Bool, true, false, arith, ltb, if◌then◌else◌, ℤ, List, [], ◌∷◌, max,
  length, All, ap,
}
use gress.Errors.CircuitBreaker.{
  closed, open_, half_open, CircuitBreaker, CircuitBreakerConfig, Readings, timeout_elapsed,
  execute, new,
}

-- One call of Execute: the clock before and after the operation, and whether it fails.
pub record Attempt : Type 0 where
  pub now : Readings
  pub later : Readings
  pub failed : Bool

unfoldable pub execute_all : List Attempt → CircuitBreaker → CircuitBreaker
execute_all [] cb = cb
execute_all (a ∷ as') cb = execute_all as' (execute a.now a.later a.failed cb).0

abbrev pub Fails : Attempt → Type 0
Fails a = a.failed ≡ true

abbrev pub Succeeds : Attempt → Type 0
Succeeds a = a.failed ≡ false

module _ (threshold : ℕ) (fits : threshold < 4294967296) where
  -- One failure in the closed state.
  fail_below :
      (a : Attempt) (cb : CircuitBreaker)
      → Fails a
      → cb.config.failure_threshold ≡ threshold
      → cb.state ≡ closed
      → cb.failure_count + 1 < max 1 threshold
      → let cb' = (execute a.now a.later a.failed cb).0 in
        (cb'.config.failure_threshold ≡ threshold)
        × (cb'.state ≡ closed)
        × (cb'.failure_count ≡ cb.failure_count + 1)
  unfolding execute
  fail_below a cb f e s h = ground arith

  fail_last :
      (a : Attempt) (cb : CircuitBreaker)
      → Fails a
      → cb.config.failure_threshold ≡ threshold
      → cb.state ≡ closed
      → cb.failure_count + 1 ≡ max 1 threshold
      → (execute a.now a.later a.failed cb).0.state ≡ open_
  unfolding execute
  fail_last a cb f e s h = ground arith

  stays_closed :
      (as' : List Attempt) (cb : CircuitBreaker)
      → All Fails as'
      → cb.config.failure_threshold ≡ threshold
      → cb.state ≡ closed
      → cb.failure_count + length as' < max 1 threshold
      → (execute_all as' cb).state ≡ closed
  unfolding execute_all
  stays_closed [] cb f e s h = s
  stays_closed (a ∷ as') cb f e s h =
      let (e', s', c) = fail_below a cb f.0 e s (omega arith) in
      stays_closed as' _ f.1 e' s' (omega arith)

  trips :
      (a : Attempt) (as' : List Attempt) (cb : CircuitBreaker)
      → All Fails (a ∷ as')
      → cb.config.failure_threshold ≡ threshold
      → cb.state ≡ closed
      → cb.failure_count + length (a ∷ as') ≡ max 1 threshold
      → (execute_all (a ∷ as') cb).state ≡ open_
  unfolding execute_all
  trips a [] cb f e s h = fail_last a cb f.0 e s (omega arith)
  trips a (b ∷ as') cb f e s h =
      let (e', s', c) = fail_below a cb f.0 e s (omega arith) in
      trips b as' _ f.1 e' s' (omega arith)

-- A new breaker stays closed under a run of failing calls shorter than the failure threshold, and
-- is open after a run of exactly that many (a threshold of 0 acting as 1).
pub execute_all_failures :
    (config : CircuitBreakerConfig) (start : ℤ) (as' : List Attempt)
    → config.failure_threshold < 4294967296
    → All Fails as'
    → length as' ≤ max 1 config.failure_threshold
    → (execute_all as' (new config start)).state
      ≡ (if ltb (length as') (max 1 config.failure_threshold) then closed else open_)
unfolding new
execute_all_failures config start [] fits f h =
    ground (arith, stays_closed _ fits [] (new config start) f refl refl)
execute_all_failures config start (a ∷ as') fits f h = ground (
  arith,
  stays_closed _ fits (a ∷ as') (new config start) f refl refl,
  trips _ fits a as' (new config start) f refl refl,
)

module _ (threshold : ℕ) (fits : threshold < 4294967296) where
  -- One success in the half-open state, with no other request in flight.
  succeed_below :
      (a : Attempt) (cb : CircuitBreaker)
      → Succeeds a
      → cb.config.success_threshold ≡ threshold
      → 0 < cb.config.max_concurrent_requests
      → cb.state ≡ half_open
      → cb.half_open_requests ≡ 0
      → cb.success_count + 1 < max 1 threshold
      → let cb' = (execute a.now a.later a.failed cb).0 in
        (cb'.config.success_threshold ≡ threshold)
        × (0 < cb'.config.max_concurrent_requests)
        × (cb'.state ≡ half_open)
        × (cb'.half_open_requests ≡ 0)
        × (cb'.success_count ≡ cb.success_count + 1)
  unfolding execute
  succeed_below a cb f e l s r h = ground arith

  succeed_last :
      (a : Attempt) (cb : CircuitBreaker)
      → Succeeds a
      → cb.config.success_threshold ≡ threshold
      → 0 < cb.config.max_concurrent_requests
      → cb.state ≡ half_open
      → cb.half_open_requests ≡ 0
      → cb.success_count + 1 ≡ max 1 threshold
      → (execute a.now a.later a.failed cb).0.state ≡ closed
  unfolding execute
  succeed_last a cb f e l s r h = ground arith

  recovers :
      (a : Attempt) (as' : List Attempt) (cb : CircuitBreaker)
      → All Succeeds (a ∷ as')
      → cb.config.success_threshold ≡ threshold
      → 0 < cb.config.max_concurrent_requests
      → cb.state ≡ half_open
      → cb.half_open_requests ≡ 0
      → cb.success_count + length (a ∷ as') ≡ max 1 threshold
      → (execute_all (a ∷ as') cb).state ≡ closed
  unfolding execute_all
  recovers a [] cb f e l s r h = succeed_last a cb f.0 e l s r (omega arith)
  recovers a (b ∷ as') cb f e l s r h =
      let (e', l', s', r', c) = succeed_below a cb f.0 e l s r (omega arith) in
      recovers b as' _ f.1 e' l' s' r' (omega arith)

  -- The first success after the timeout: it takes the breaker to half-open and is counted.
  probe_success :
      (a : Attempt) (cb : CircuitBreaker)
      → Succeeds a
      → cb.config.success_threshold ≡ threshold
      → cb.state ≡ open_
      → cb.success_count ≡ 0
      → timeout_elapsed cb a.now.first ≡ true
      → let cb' = (execute a.now a.later a.failed cb).0 in
        (threshold ≤ 1 → cb'.state ≡ closed)
        × (1 < threshold
            → (cb'.config ≡ cb.config)
              × (cb'.state ≡ half_open)
              × (cb'.half_open_requests ≡ 0)
              × (cb'.success_count ≡ 1))
  unfolding execute timeout_elapsed
  probe_success a cb f e s c t = (λ h. ground arith, λ h. ground arith)

pub execute_all_recovers :
    (a : Attempt) (as' : List Attempt) (cb : CircuitBreaker)
    → cb.config.success_threshold < 4294967296
    → 0 < cb.config.max_concurrent_requests
    → cb.state ≡ open_
    → cb.success_count ≡ 0
    → timeout_elapsed cb a.now.first ≡ true
    → All Succeeds (a ∷ as')
    → length (a ∷ as') ≡ max 1 cb.config.success_threshold
    → (execute_all (a ∷ as') cb).state ≡ closed
unfolding execute_all
execute_all_recovers a [] cb fits l s c t f n =
    (probe_success _ fits a cb f.0 refl s c t).0 (omega arith)
execute_all_recovers a (b ∷ as') cb fits l s c t f n =
    let (g, s', r, k) = (probe_success _ fits a cb f.0 refl s c t).1 (omega arith) in
    recovers _ fits b as' _ f.1 (ap (λ x. x.success_threshold) g)
      (rw (ap (λ x. x.max_concurrent_requests) g) l) s' r (omega arith)
