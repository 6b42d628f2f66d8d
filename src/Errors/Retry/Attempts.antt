-- ===== src/Errors/Retry/Attempts.antt =====
-- Which attempts a bounded policy makes.
use native.Mathlib.Decide.{dec_lt}
use gress.Common.{
  ℕ, zero, suc, ◌+◌, ◌-◌, ◌≤◌, ◌<◌, ◌≡◌, refl, ap, sym, ◌∙◌, Bool, true, false, ◌||◌, ◌&&◌, not,
  Option, none, some, ℤ, pos, ltb_ℤ, leb_ℤ, eqb_ℤ, arith, Bool-cases, inl, inr,
}
use gress.Errors.Retry.{
  RetryPolicy, RetryResult, is_retriable, wait, attempted, waited, settle, retry, execute,
  no_result, is_none,
}

or_true : (b : Bool) → (b || true) ≡ true
or_true true = refl
or_true false = refl

ended_or : {Err : Type 0} (o : Option Err) → (is_none o || not (is_none o)) ≡ true
ended_or none = refl
ended_or (some e) = refl

module _ {Err : Type 0} where
  attempted-attempts :
      (o : Option Err) (r : RetryResult Err) → (attempted o r).attempts ≡ suc r.attempts
  attempted-attempts none r = refl
  attempted-attempts (some e) r = refl

  attempted-success : (o : Option Err) (r : RetryResult Err) → (attempted o r).success ≡ r.success
  attempted-success none r = refl
  attempted-success (some e) r = refl

module _ {Err : Type 0} (policy : RetryPolicy Err) (operation cancelled : ℕ → Option Err)
    (backoff : ℕ → ℤ) where
  -- The attempts of a result: at least one and at most one more than the retries allowed, all but the
  -- last have failed, the result is a success exactly if the last one has not, and a result that is
  -- not a success has an error.
  pub record Tried (n : ℕ) (r : RetryResult Err) : Type 0 where
    pub made : 0 < r.attempts
    pub bounded : r.attempts ≤ suc n
    pub earlier : (k : ℕ) → k + 1 < r.attempts → is_none (operation k) ≡ false
    pub ended : r.success ≡ is_none (operation (r.attempts - 1))
    pub explained : (r.success || not (is_none r.last_error)) ≡ true

  abbrev Ends : ℕ → Option (RetryResult Err) → Type 0
  Ends n o = (r : RetryResult Err) × (o ≡ some r) × Tried n r

  module _ (n : ℕ) (limit : policy.max_attempts ≡ pos n) where
    -- The attempts of a result whose last attempt had this outcome.
    Tried-last :
        (attempt : ℕ) (o : Option Err) (r : RetryResult Err)
        → operation attempt ≡ o
        → attempt ≤ n
        → r.attempts ≡ suc attempt
        → r.success ≡ is_none o
        → ((k : ℕ) → k < attempt → is_none (operation k) ≡ false)
        → (r.success || not (is_none r.last_error)) ≡ true
        → Tried n r
    Tried-last attempt o r e le same outcome failed why = record {
      made = omega (arith, same);
      bounded = omega (arith, same, le);
      earlier = λ k h. failed k (omega (arith, same, h));
      ended = outcome ∙ sym (ap is_none (ap operation (rw same (omega arith)) ∙ e));
      explained = why;
    }

    wait-Ends :
        (attempt : ℕ) (c o : Option Err) (r : RetryResult Err) (rest : Option (RetryResult Err))
        → operation attempt ≡ o
        → attempt ≤ n
        → r.attempts ≡ suc attempt
        → r.success ≡ is_none o
        → ((k : ℕ) → k < attempt → is_none (operation k) ≡ false)
        → Ends n rest
        → Ends n (wait c r rest)
    wait-Ends attempt none o r rest e le same outcome failed later = later
    wait-Ends attempt (some c) o r rest e le same outcome failed later =
        let stopped = record r { last_error = some c } in
        (stopped, refl, Tried-last attempt o stopped e le same outcome failed (or_true r.success))

    settle-Ends :
        (attempt : ℕ) (o : Option Err) (r : RetryResult Err) (rest : Option (RetryResult Err))
        → operation attempt ≡ o
        → attempt ≤ n
        → r.attempts ≡ attempt
        → r.success ≡ false
        → ((k : ℕ) → k < attempt → is_none (operation k) ≡ false)
        → (is_none o ≡ false → attempt < n → Ends n rest)
        → Ends n (settle policy operation cancelled backoff o attempt (attempted o r) rest)
    settle-Ends attempt none r rest e le same fresh failed later =
        let won = record (attempted none r) { success = true } in
        (won, refl, Tried-last attempt none won e le (ap suc same) refl failed refl)
    settle-Ends attempt (some x) r rest e le same fresh failed later =
        let lost = attempted (some x) r in
        elim (Bool-cases (
          not (is_retriable policy.retriable x)
          || (leb_ℤ (pos 0) policy.max_attempts && leb_ℤ policy.max_attempts (pos attempt)))) [
            | inl stop ↦ rw stop (
              lost,
              refl,
              Tried-last attempt (some x) lost e le (ap suc same) fresh failed (or_true r.success),
            )
            | inr go ↦
                let more : attempt < n = ground (arith, go, limit) in
                rw go (
                  wait-Ends attempt (cancelled attempt) (some x)
                    (waited policy operation cancelled backoff attempt lost) rest e le (ap suc same)
                    fresh failed (later refl more))
          ]

    retry-Ends :
        (fuel attempt : ℕ) (r : RetryResult Err)
        → attempt + fuel ≡ suc n
        → attempt ≤ n
        → r.attempts ≡ attempt
        → r.success ≡ false
        → ((k : ℕ) → k < attempt → is_none (operation k) ≡ false)
        → Ends n (retry policy operation cancelled backoff fuel attempt r)
    unfolding retry
    retry-Ends zero attempt r s le same fresh failed = absurd (omega (arith, s, le))
    retry-Ends (suc fuel) attempt r s le same fresh failed =
        let o = operation attempt in
        let r' = attempted o r in
        let next = waited policy operation cancelled backoff attempt r' in
        let rest = retry policy operation cancelled backoff fuel (suc attempt) next in
        let inside : (ltb_ℤ policy.max_attempts (pos 0) || leb_ℤ (pos attempt) policy.max_attempts)
            ≡ true =
          rw limit (ground (arith, le)) in
        rw inside (
          settle-Ends attempt o r rest refl le same fresh failed (λ e more.
            retry-Ends fuel (suc attempt) next (omega (arith, s)) (omega (arith, more))
              (attempted-attempts o r ∙ ap suc same) (attempted-success o r ∙ fresh)
              (λ k h. elim (dec_lt k attempt) [
                | yes before ↦ failed k before
                | no after ↦ let here : k ≡ attempt = omega (arith, h, after) in rw here e
              ])))

  -- With at most n retries, n + 1 turns of the loop are enough for Execute to return; all attempts but
  -- the last have failed, it makes at most n + 1 of them, and it reports a success exactly if the last
  -- attempt has not failed, and an error otherwise: for any retriable test, backoff and cancellation.
  pub execute-Tried :
      (n : ℕ)
      → policy.max_attempts ≡ pos n
      → (r : RetryResult Err) × (execute policy operation cancelled backoff (suc n) ≡ some r)
        × Tried n r
  unfolding execute
  execute-Tried zero limit = rw limit (
    record {
      success = is_none (operation 0);
      attempts = 1;
      last_error = operation 0;
      total_backoff = pos 0;
    },
    refl,
    record {
      made = omega arith;
      bounded = omega arith;
      earlier = λ k h. absurd (omega arith);
      ended = refl;
      explained = ended_or (operation 0);
    },
  )
  execute-Tried (suc n) limit =
      let some_retries : eqb_ℤ policy.max_attempts (pos 0) ≡ false = rw limit (ground arith) in
      rw some_retries (
        retry-Ends (suc n) limit (suc (suc n)) 0 no_result (omega arith) (omega arith) refl refl
          (λ k h. absurd (omega arith)))
