-- ===== src/Errors/Retry/Callback.antt =====
-- pkg/errors/retry.go: RetryPolicy.ExecuteWithCallback, on an operation that changes a state, and with
-- the calls of the callback. It is Execute, on the outcomes that the operation has one after another.
use gress.Common.{
  ℕ, zero, suc, ◌+◌, ◌≡◌, refl, ap, ◌∙◌, sym, Bool, true, false, ◌||◌, ◌&&◌, not, Option, none,
  some, List, [], ◌∷◌, ◌++◌, if◌then◌else◌, ℤ, pos, add_duration, ltb_ℤ, leb_ℤ, eqb_ℤ, length,
  length-append, arith, Bool-cases, inl, inr,
}
use gress.Errors.Retry.{
  RetryPolicy, RetryResult, is_retriable, attempted, no_result, is_none, wait, settle, retry,
  execute,
}

pub record CallbackCall (Err : Type 0) : Type 0 where
  pub attempt : ℕ
  pub error : Err
  pub next_backoff : ℤ

abbrev pub Ended : Type 0 → Type 0 → Type 0
Ended S Err = S × RetryResult Err × List (CallbackCall Err)

abbrev pub report :
    {Err : Type 0} → ℕ → ℤ → Option Err → List (CallbackCall Err) → List (CallbackCall Err)
report attempt backoff none calls = calls
report attempt backoff (some e) calls =
    calls ++ record { attempt = suc attempt; error = e; next_backoff = backoff } ∷ []

-- The wait after an attempt: the context's error ends the loop.
abbrev pub wait_ended :
    {S Err : Type 0} → Option Err → Ended S Err → Option (Ended S Err) → Option (Ended S Err)
wait_ended none ended rest = rest
wait_ended (some e) (s, r, calls) rest = some (s, record r { last_error = some e }, calls)

module _ {S Err : Type 0} (policy : RetryPolicy Err) (operation : S → S × Option Err)
    (cancelled : ℕ → Option Err) (backoff : ℕ → ℤ) where
  -- A failed attempt after which the loop ends.
  abbrev pub is_last : ℕ → Err → Bool
  is_last attempt e =
      not (is_retriable policy.retriable e)
      || (leb_ℤ (pos 0) policy.max_attempts && leb_ℤ policy.max_attempts (pos attempt))

  abbrev pub paused : ℕ → RetryResult Err → RetryResult Err
  paused attempt r = record r { total_backoff = add_duration r.total_backoff (backoff attempt) }

  abbrev pub settle_call :
      Option Err → ℕ → Ended S Err → Option (Ended S Err) → Option (Ended S Err)
  settle_call none attempt (s, r, calls) rest = some (s, record r { success = true }, calls)
  settle_call (some e) attempt (s, r, calls) rest =
      if is_last attempt e
      then some (s, r, report attempt (pos 0) (some e) calls)
      else wait_ended (cancelled attempt)
          (s, paused attempt r, report attempt (backoff attempt) (some e) calls) rest

  pub retry_calling : ℕ → ℕ → Ended S Err → Option (Ended S Err)
  retry_calling zero attempt ended = none
  retry_calling (suc fuel) attempt (s, r, calls) =
      let (s', outcome) = operation s in
      let r' = attempted outcome r in
      let rest =
        retry_calling fuel (suc attempt)
          (s', paused attempt r', report attempt (backoff attempt) outcome calls) in
      if ltb_ℤ policy.max_attempts (pos 0) || leb_ℤ (pos attempt) policy.max_attempts
      then settle_call outcome attempt (s', r', calls) rest
      else some (s, r, calls)

  -- The call of a policy without retries.
  abbrev pub execute_once : S × Option Err → Ended S Err
  execute_once (s, outcome) = (
    s,
    record { success = is_none outcome; attempts = 1; last_error = outcome; total_backoff = pos 0 },
    report 0 (pos 0) outcome [],
  )

  -- ExecuteWithCallback, with fuel for the loop
  pub execute_with_callback : ℕ → S → Option (Ended S Err)
  unfolding retry_calling
  execute_with_callback fuel s =
      if eqb_ℤ policy.max_attempts (pos 0)
      then some (execute_once (operation s))
      else retry_calling fuel 0 (s, no_result, [])

  -- The state after as many attempts, and the outcome of the attempt after them.
  abbrev pub state_after : S → ℕ → S
  state_after s zero = s
  state_after s (suc attempts) = (operation (state_after s attempts)).0

  abbrev pub outcome_after : S → ℕ → Option Err
  outcome_after s attempt = (operation (state_after s attempt)).1

  abbrev pub count_success : Bool → ℕ
  count_success true = 1
  count_success false = 0

  -- The two loops end alike: with the same result, in the state that the attempts have left, and with
  -- one call of the callback for each failed attempt.
  pub record SameEnd (s : S) (ended : Ended S Err) (r : RetryResult Err) : Type 0 where
    pub result : ended.1 ≡ r
    pub state : ended.0 ≡ state_after s r.attempts
    pub reported : length ended.2 + count_success r.success ≡ r.attempts

  abbrev pub EndAlike : S → Option (Ended S Err) → Option (RetryResult Err) → Type 0
  EndAlike s none none = Unit
  EndAlike s none (some r) = ⊥
  EndAlike s (some ended) none = ⊥
  EndAlike s (some ended) (some r) = SameEnd s ended r

  module _ (s₀ : S) where
    abbrev outcomes : ℕ → Option Err
    outcomes = outcome_after s₀

    length-report :
        (attempt : ℕ) (d : ℤ) (e : Err) (calls : List (CallbackCall Err))
        → length (report attempt d (some e) calls) ≡ length calls + 1
    length-report attempt d e calls =
        length-append calls (record { attempt = suc attempt; error = e; next_backoff = d } ∷ [])

    wait-EndAlike :
        (attempt : ℕ) (c : Option Err) (s : S) (r : RetryResult Err)
        (calls : List (CallbackCall Err)) (rest : Option (Ended S Err))
        (rest' : Option (RetryResult Err))
        → s ≡ state_after s₀ r.attempts
        → length calls + count_success r.success ≡ r.attempts
        → EndAlike s₀ rest rest'
        → EndAlike s₀ (wait_ended c (s, r, calls) rest) (wait c r rest')
    wait-EndAlike attempt none s r calls rest rest' same counted h = h
    wait-EndAlike attempt (some e) s r calls rest rest' same counted h = record {
      result = refl;
      state = same;
      reported = counted;
    }

    settle-EndAlike :
        (attempt : ℕ) (o : Option Err) (s : S) (r : RetryResult Err)
        (calls : List (CallbackCall Err)) (rest : Option (Ended S Err))
        (rest' : Option (RetryResult Err))
        → r.attempts ≡ attempt
        → r.success ≡ false
        → length calls ≡ attempt
        → s ≡ state_after s₀ (suc attempt)
        → (is_none o ≡ false → EndAlike s₀ rest rest')
        → EndAlike s₀
            (settle_call o attempt (s, attempted o r, calls) rest)
            (settle policy outcomes cancelled backoff o attempt (attempted o r) rest')
    settle-EndAlike attempt none s r calls rest rest' count fresh counted same later = record {
      result = refl;
      state = same ∙ ap (λ n. state_after s₀ (suc n)) (sym count);
      reported = omega (arith, counted, count);
    }
    settle-EndAlike attempt (some e) s r calls rest rest' count fresh counted same later =
        elim (Bool-cases (is_last attempt e)) [
          | inl stop ↦ rw stop (record {
            result = refl;
            state = same ∙ ap (λ n. state_after s₀ (suc n)) (sym count);
            reported =
                rw fresh (omega (arith, counted, count, length-report attempt (pos 0) e calls));
          })
          | inr go ↦ rw go (
              wait-EndAlike attempt (cancelled attempt) s (paused attempt (attempted (some e) r))
                (report attempt (backoff attempt) (some e) calls) rest rest'
                (same ∙ ap (λ n. state_after s₀ (suc n)) (sym count))
                (rw fresh
                  (omega (arith, counted, count, length-report attempt (backoff attempt) e calls)))
                (later refl))
        ]

    attempted_fields :
        (o : Option Err) (r : RetryResult Err)
        → ((attempted o r).attempts ≡ suc r.attempts) × ((attempted o r).success ≡ r.success)
    attempted_fields none r = (refl, refl)
    attempted_fields (some e) r = (refl, refl)

    length-report_failed :
        (attempt : ℕ) (d : ℤ) (o : Option Err) (calls : List (CallbackCall Err))
        → is_none o ≡ false
        → length (report attempt d o calls) ≡ length calls + 1
    length-report_failed attempt d none calls h = absurd (ground (arith, h))
    length-report_failed attempt d (some e) calls h = length-report attempt d e calls

    retry-EndAlike :
        (fuel attempt : ℕ) (r : RetryResult Err) (calls : List (CallbackCall Err))
        → r.attempts ≡ attempt
        → r.success ≡ false
        → length calls ≡ attempt
        → EndAlike s₀
            (retry_calling fuel attempt (state_after s₀ attempt, r, calls))
            (retry policy outcomes cancelled backoff fuel attempt r)
    unfolding retry_calling retry
    retry-EndAlike zero attempt r calls count fresh counted = tt
    retry-EndAlike (suc fuel) attempt r calls count fresh counted =
        let o = outcomes attempt in
        let r' = attempted o r in
        let next = paused attempt r' in
        let calls' = report attempt (backoff attempt) o calls in
        let (more, still) = attempted_fields o r in
        elim (Bool-cases
          (ltb_ℤ policy.max_attempts (pos 0) || leb_ℤ (pos attempt) policy.max_attempts)) [
            | inl inside ↦ rw inside (
                settle-EndAlike attempt o (state_after s₀ (suc attempt)) r calls
                  (retry_calling fuel (suc attempt) (state_after s₀ (suc attempt), next, calls'))
                  (retry policy outcomes cancelled backoff fuel (suc attempt) next) count fresh
                  counted refl
                  (λ failed.
                    retry-EndAlike fuel (suc attempt) next calls' (more ∙ ap suc count)
                      (still ∙ fresh)
                      (omega (
                        arith,
                        counted,
                        length-report_failed attempt (backoff attempt) o calls failed,
                      ))))
            | inr outside ↦ rw outside (record {
              result = refl;
              state = ap (state_after s₀) (sym count);
              reported = rw fresh (omega (arith, counted, count));
            })
          ]

    once-SameEnd :
        (o : Option Err)
        → SameEnd s₀
            (execute_once ((operation s₀).0, o))
            (record { success = is_none o; attempts = 1; last_error = o; total_backoff = pos 0 })
    once-SameEnd none = record { result = refl; state = refl; reported = refl }
    once-SameEnd (some e) = record { result = refl; state = refl; reported = refl }

    -- With the same fuel, ExecuteWithCallback and Execute end alike: both run out of it, or they have
    -- the same result, the state is the one that as many attempts leave, and the callback has been
    -- called once for each attempt that has failed.
    pub execute_with_callback-EndAlike :
        (fuel : ℕ)
        → EndAlike s₀
            (execute_with_callback fuel s₀)
            (execute policy (outcome_after s₀) cancelled backoff fuel)
    unfolding execute_with_callback execute
    execute_with_callback-EndAlike fuel = elim (Bool-cases (eqb_ℤ policy.max_attempts (pos 0))) [
      | inl e ↦ rw e (once-SameEnd (outcomes 0))
      | inr e ↦ rw e (retry-EndAlike fuel 0 no_result [] refl refl refl)
    ]
