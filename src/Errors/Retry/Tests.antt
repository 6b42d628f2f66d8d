-- ===== src/Errors/Retry/Tests.antt =====
-- Retries at concrete inputs.
use gress.Common.{
  ℕ, zero, suc, ◌≡◌, refl, Bool, true, Option, none, some, ℤ, pos, negsuc, ◌+ℤ◌, add_duration,
}
use gress.Errors.Retry.{RetryPolicy, RetryResult, execute}
use gress.Errors.Retry.Attempts.{Tried, execute-Tried}
use gress.Errors.Retry.Callback.{
  execute_with_callback, outcome_after, EndAlike, execute_with_callback-EndAlike,
}

-- Three retries of an operation that fails twice.
abbrev policy : RetryPolicy Bool
policy = record { max_attempts = pos 3; retriable = some (λ e. e) }

abbrev operation : ℕ → Option Bool
operation zero = some true
operation (suc zero) = some true
operation (suc (suc n)) = none

abbrev never : ℕ → Option Bool
never n = none

abbrev backoff : ℕ → ℤ
backoff n = pos 100

third_attempt :
    execute policy operation never backoff 4
    ≡ some
        (record { success = true; attempts = 3; last_error = some true; total_backoff = pos 200 })
unfolding execute ◌+ℤ◌
third_attempt = refl

-- The total of the backoffs wraps.
wrapped_backoff : add_duration (pos 9223372036854775807) (pos 1) ≡ negsuc 9223372036854775807
unfolding ◌+ℤ◌
wrapped_backoff = refl

execute-Tried_example :
    (r : RetryResult Bool) × (execute policy operation never backoff 4 ≡ some r)
    × Tried policy operation never backoff 3 r
execute-Tried_example = execute-Tried policy operation never backoff 3 refl

-- An operation that counts its calls, and fails in the first two.
abbrev counted : ℕ → ℕ × Option Bool
counted calls = (suc calls, operation calls)

execute_with_callback-EndAlike_example :
    EndAlike policy counted never backoff 0
      (execute_with_callback policy counted never backoff 4 0)
      (execute policy (outcome_after policy counted never backoff 0) never backoff 4)
execute_with_callback-EndAlike_example =
    execute_with_callback-EndAlike policy counted never backoff 0 4
