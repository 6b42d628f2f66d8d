-- ===== src/ErrorHandler/Handled.antt =====
-- What an operator with error handling returns and where a failed event goes.
use gress.Common.{
  not, ◌||◌, ℕ, suc, String, ◌≡◌, refl, sym, Bool, true, false, Option, none, some, List, [], ℤ,
  pos, arith, Bool-cases, inl, inr,
}
use gress.Stream.{Event}
use gress.Errors.Classification.{Error}
use gress.Errors.Retry.{RetryResult, is_none}
use gress.Errors.Retry.Attempts.{Tried, execute-Tried}
use gress.Errors.Retry.Callback.{
  Ended, CallbackCall, execute_with_callback, state_after, outcome_after, EndAlike,
  execute_with_callback-EndAlike,
}
use gress.Errors.Dlq.{InMemoryDlq, in_memory, write}
use gress.Errors.SideOutput.{SideOutputCollector, emit}
use gress.ErrorHandler.{
  ErrorHandlingConfig, Outlets, failed_event, error_event, attempt, conclude, handle_error,
  process_handled,
}

module _ {V W St : Type 0} (config : ErrorHandlingConfig) (text : Error → String) (done : Bool)
    (now : ℤ) (operator : Event V → St → St × List (Event W) × Option Error)
    (cancelled : ℕ → Option Error) (backoff : ℕ → ℤ) where
  -- The state and the events that as many attempts leave, one after another, and the outcome of the
  -- attempt after them.
  abbrev pub left_by : Event V → St → ℕ → St × List (Event W)
  left_by event st =
      state_after config.retry_policy (attempt operator event) cancelled backoff (st, [])

  abbrev pub outcomes : Event V → St → ℕ → Option Error
  outcomes event st =
      outcome_after config.retry_policy (attempt operator event) cancelled backoff (st, [])

  -- The answer of Process after retries that ended with this result: the events of the last attempt,
  -- with nothing written; or no events and the last error, with one event more in the queue and one
  -- emitted.
  pub data Answered (event : Event V) (st : St) (q : InMemoryDlq V)
      (c : SideOutputCollector V (Option Error)) (r : RetryResult Error)
      (o : Option (St × Outlets (in_memory {V = V}) × List (Event W) × Option Error)) : Type 0 where
    delivered :
        r.success ≡ true
        → o
          ≡ some (
            (left_by event st r.attempts).0,
            record { dlq = some q; side_outputs = some c },
            (left_by event st r.attempts).1,
            none,
          )
        → Answered event st q c r o
    dead_lettered :
        (e : Error)
        → r.success ≡ false
        → r.last_error ≡ some e
        → o
          ≡ some (
            (left_by event st r.attempts).0,
            record {
              dlq = some (
                  write
                    (failed_event config.operator_name now event (some e) (text e) r.attempts)
                    q);
              side_outputs =
                  some (emit done (error_event config.operator_name event (some e) r.attempts) c);
            },
            [],
            some e,
          )
        → Answered event st q c r o

  module _ (event : Event V) (st : St) (q : InMemoryDlq V)
      (c : SideOutputCollector V (Option Error)) where
    abbrev outlets : Outlets (in_memory {V = V})
    outlets = record { dlq = some q; side_outputs = some c }

    conclude-Answered :
        (sr : St × List (Event W)) (r : RetryResult Error) (calls : List (CallbackCall Error))
        (l : Option Error)
        → config.enable_dlq ≡ true
        → config.enable_side_outputs ≡ true
        → left_by event st r.attempts ≡ sr
        → r.last_error ≡ l
        → (r.success || not (is_none l)) ≡ true
        → Answered event st q c r (
            conclude in_memory config text done now operator cancelled backoff event outlets
              (some (sr, r, calls)))
    unfolding handle_error
    conclude-Answered (st', result) r calls none dlq_on side_on same last why =
        elim (Bool-cases r.success) [
          | inl won ↦ delivered won (rw won (rw same refl))
          | inr lost ↦ absurd (ground (arith, why, lost))
        ]
    conclude-Answered (st', result) r calls (some e) dlq_on side_on same last why =
        elim (Bool-cases r.success) [
          | inl won ↦ delivered won (rw won (rw same refl))
          | inr lost ↦
              dead_lettered e lost last (rw lost (rw last (rw dlq_on (rw side_on (rw same refl)))))
        ]

    ended-Answered :
        (n : ℕ) (r : RetryResult Error) (o : Option (Ended (St × List (Event W)) Error))
        → config.enable_dlq ≡ true
        → config.enable_side_outputs ≡ true
        → Tried config.retry_policy (outcomes event st) cancelled backoff n r
        → EndAlike config.retry_policy
            (attempt operator event)
            cancelled
            backoff
            (st, [])
            o
            (some r)
        → Answered event st q c r
            (conclude in_memory config text done now operator cancelled backoff event outlets o)
    ended-Answered n r none dlq_on side_on tried same = absurd same
    ended-Answered n r (some (sr, r', calls)) dlq_on side_on tried same =
        let back : r' ≡ r = same.result in
        rw back (
          conclude-Answered sr r calls r.last_error dlq_on side_on (sym same.state) refl
            tried.explained)

  pub process_handled-Answered :
      (n : ℕ) (event : Event V) (st : St) (q : InMemoryDlq V)
      (c : SideOutputCollector V (Option Error))
      → config.retry_policy.max_attempts ≡ pos n
      → config.enable_dlq ≡ true
      → config.enable_side_outputs ≡ true
      → (r : RetryResult Error) × Tried config.retry_policy
          (outcomes event st)
          cancelled
          backoff
          n
          r
        × Answered event st q c r (
            process_handled in_memory config text done now operator cancelled backoff
              (suc n)
              event
              st
              (record { dlq = some q; side_outputs = some c }))
  unfolding process_handled
  process_handled-Answered n event st q c limit dlq_on side_on =
      let (r, ends, tried) =
        execute-Tried config.retry_policy (outcomes event st) cancelled backoff n limit in
      (
        r,
        tried,
        ended-Answered event st q c n r
            (execute_with_callback config.retry_policy (attempt operator event) cancelled backoff
              (suc n) (st, []))
            dlq_on side_on tried
            (rw⁻¹ ends (
              execute_with_callback-EndAlike config.retry_policy (attempt operator event) cancelled
                backoff (st, []) (suc n))),
      )
