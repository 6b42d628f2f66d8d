-- ===== src/Errors/Retry.antt =====
-- pkg/errors/retry.go: RetryPolicy.Execute. The operation's error at each attempt, the context's error
-- while it waits after an attempt, and the backoff of each attempt (a floating-point computation with
-- a random part) are arguments; `none` is no error. RetriableFunc is an optional test of an error.
pub mod Attempts
pub mod Callback
mod Tests
use gress.Common.{
  ℕ, zero, suc, ◌+◌, Bool, true, false, ◌||◌, ◌&&◌, not, Option, none, some, if◌then◌else◌, ℤ, pos,
  negsuc, add_duration, ltb_ℤ, leb_ℤ, eqb_ℤ,
}

pub record RetryPolicy (Err : Type 0) : Type 0 where
  pub max_attempts : ℤ
  pub retriable : Option (Err → Bool)

pub record RetryResult (Err : Type 0) : Type 0 where
  pub success : Bool
  pub attempts : ℕ
  pub last_error : Option Err
  pub total_backoff : ℤ

module _ {Err : Type 0} where
  abbrev pub is_retriable : Option (Err → Bool) → Err → Bool
  is_retriable none e = true
  is_retriable (some test) e = test e

  -- The wait after an attempt: the context's error ends the loop.
  abbrev pub wait :
      Option Err → RetryResult Err → Option (RetryResult Err) → Option (RetryResult Err)
  wait none r rest = rest
  wait (some e) r rest = some (record r { last_error = some e })

  -- The result once an attempt has ended.
  abbrev pub attempted : Option Err → RetryResult Err → RetryResult Err
  attempted none r = record r { attempts = suc r.attempts }
  attempted (some e) r = record r { attempts = suc r.attempts; last_error = some e }

  abbrev pub no_result : RetryResult Err
  no_result = record { success = false; attempts = 0; last_error = none; total_backoff = pos 0 }

  abbrev pub is_none : Option Err → Bool
  is_none none = true
  is_none (some e) = false

module _ {Err : Type 0} (policy : RetryPolicy Err) (operation cancelled : ℕ → Option Err)
    (backoff : ℕ → ℤ) where
  abbrev pub waited : ℕ → RetryResult Err → RetryResult Err
  waited attempt r = record r { total_backoff = add_duration r.total_backoff (backoff attempt) }

  -- What the loop does with the outcome of an attempt; `rest` is the loop after the wait.
  abbrev pub settle :
      Option Err → ℕ → RetryResult Err → Option (RetryResult Err) → Option (RetryResult Err)
  settle none attempt r rest = some (record r { success = true })
  settle (some e) attempt r rest =
      if not (is_retriable policy.retriable e)
        || (leb_ℤ (pos 0) policy.max_attempts && leb_ℤ policy.max_attempts (pos attempt))
      then some r
      else wait (cancelled attempt) (waited attempt r) rest

  -- The loop: `none` is fuel that is used up, as in a policy without a bound.
  pub retry : ℕ → ℕ → RetryResult Err → Option (RetryResult Err)
  retry zero attempt r = none
  retry (suc fuel) attempt r =
      let r' = attempted (operation attempt) r in
      let rest = retry fuel (suc attempt) (waited attempt r') in
      if ltb_ℤ policy.max_attempts (pos 0) || leb_ℤ (pos attempt) policy.max_attempts
      then settle (operation attempt) attempt r' rest
      else some r

  -- Execute, with fuel for the loop
  pub execute : ℕ → Option (RetryResult Err)
  unfolding retry
  execute fuel =
      if eqb_ℤ policy.max_attempts (pos 0)
      then some (record {
        success = is_none (operation 0);
        attempts = 1;
        last_error = operation 0;
        total_backoff = pos 0;
      })
      else retry fuel 0 no_result
