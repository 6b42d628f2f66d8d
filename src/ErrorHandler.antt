-- ===== src/ErrorHandler.antt =====
-- pkg/stream/error_handler.go: ErrorHandlingOperator, an operator with retries around it, a dead letter
-- queue and side outputs behind it. The operator changes a state and returns its events and its error;
-- a queue or a collector that is nil is `none`. `text` is the Error method of an error.

pub mod Handled
mod Tests
use gress.Common.{
  ℕ, String, Bool, true, false, ◌&&◌, Option, none, some, List, [], if◌then◌else◌, ℤ, pos,
}
use gress.Common.Dict.{Dict}
use gress.Stream.{Event}
use gress.Errors.Classification.{Error, classify_error, category_name}
use gress.Errors.Retry.{RetryPolicy, RetryResult}
use gress.Errors.Retry.Callback.{Ended, execute_with_callback}
use gress.Errors.Dlq.{DeadLetterQueue, FailedEvent}
use gress.Errors.SideOutput.{SideOutputCollector, SideOutputEvent, emit, error_side_output}

pub record ErrorHandlingConfig : Type 0 where
  pub retry_policy : RetryPolicy Error
  pub enable_dlq : Bool
  pub enable_side_outputs : Bool
  pub operator_name : String

-- What an operator with error handling writes to.
pub record Outlets {V : Type 0} (Q : DeadLetterQueue V) : Type 0 where
  pub dlq : Option Q.State
  pub side_outputs : Option (SideOutputCollector V (Option Error))

module _ {V : Type 0} where
  -- The failed event of handleError; `now` is time.Now.
  abbrev pub failed_event : String → ℤ → Event V → Option Error → String → ℕ → FailedEvent V
  failed_event operator_name now event e reason retry_count = record {
    key = event.key;
    value = event.value;
    event_time = event.event_time;
    headers = event.headers;
    offset = event.offset;
    partition = event.partition;
    failure_reason = reason;
    failure_category = category_name (classify_error e);
    operator_name = operator_name;
    failure_time = now;
    retry_count = pos retry_count;
    stack_trace = "";
    metadata = [];
  }

  -- The side output event of handleError
  abbrev pub error_event : String → Event V → Option Error → ℕ → SideOutputEvent V (Option Error)
  error_event operator_name event e retry_count = record {
    key = event.key;
    value = event.value;
    event_time = event.event_time;
    headers = event.headers;
    offset = event.offset;
    partition = event.partition;
    error = e;
    error_category = classify_error e;
    operator_name = operator_name;
    retry_count = retry_count;
    tag = error_side_output;
  }

-- The closure that is retried: it assigns the result of each attempt.
abbrev pub attempt :
    {V W St : Type 0}
    → (Event V → St → St × List (Event W) × Option Error)
    → Event V
    → St × List (Event W)
    → (St × List (Event W)) × Option Error
attempt operator event (st, result) =
    let (st', result', e) = operator event st in ((st', result'), e)

module _ {V : Type 0} (Q : DeadLetterQueue V) (config : ErrorHandlingConfig) (text : Error → String)
    (done : Bool) (now : ℤ) where
  abbrev pub emit_to :
      SideOutputEvent V (Option Error)
      → Option (SideOutputCollector V (Option Error))
      → Option (SideOutputCollector V (Option Error))
  emit_to event none = none
  emit_to event (some collector) = some (emit done event collector)

  -- The second half of handleError
  abbrev pub emit_error : Event V → Option Error → ℕ → Outlets Q → Outlets Q
  emit_error event e retry_count out =
      if config.enable_side_outputs
      then record out {
        side_outputs =
            emit_to (error_event config.operator_name event e retry_count) out.side_outputs;
      }
      else out

  -- handleError goes on to the side outputs only if the queue has taken the event.
  abbrev pub after_write :
      Event V → Option Error → ℕ → Outlets Q → Q.State × Option Q.Err → Outlets Q × Option Q.Err
  after_write event e retry_count out (q, some failure) =
      (record out { dlq = some q }, some failure)
  after_write event e retry_count out (q, none) =
      (emit_error event e retry_count (record out { dlq = some q }), none)

  -- A queue that is not nil: the Error method of a nil error panics.
  abbrev pub write_failed :
      Event V → Option Error → ℕ → Outlets Q → Q.State → Option (Outlets Q × Option Q.Err)
  write_failed event none retry_count out q = none
  write_failed event (some e) retry_count out q = some (
      after_write event (some e) retry_count out
        (Q.write_to (failed_event config.operator_name now event (some e) (text e) retry_count) q))

  abbrev pub handle_with :
      Option Q.State → Event V → Option Error → ℕ → Outlets Q → Option (Outlets Q × Option Q.Err)
  handle_with none event e retry_count out = some (emit_error event e retry_count out, none)
  handle_with (some q) event e retry_count out =
      if config.enable_dlq
      then write_failed event e retry_count out q
      else some (emit_error event e retry_count out, none)

  -- handleError; `none` is a panic.
  unfoldable pub handle_error :
      Event V → Option Error → ℕ → Outlets Q → Option (Outlets Q × Option Q.Err)
  handle_error event e retry_count out = handle_with out.dlq event e retry_count out

  module _ {W St : Type 0} (operator : Event V → St → St × List (Event W) × Option Error)
      (cancelled : ℕ → Option Error) (backoff : ℕ → ℤ) where
    -- The error of handleError is only logged.
    abbrev pub failed :
        St
        → Option Error
        → Option (Outlets Q × Option Q.Err)
        → Option (St × Outlets Q × List (Event W) × Option Error)
    failed st e none = none
    failed st e (some (out, failure)) = some (st, out, [], e)

    abbrev pub conclude :
        Event V
        → Outlets Q
        → Option (Ended (St × List (Event W)) Error)
        → Option (St × Outlets Q × List (Event W) × Option Error)
    conclude event out none = none
    conclude event out (some ((st, result), r, calls)) =
        if r.success
        then some (st, out, result, none)
        else failed st r.last_error (handle_error event r.last_error r.attempts out)

    -- ErrorHandlingOperator.Process, with fuel for the retries; `none` is fuel that is used up, or a
    -- panic.
    unfoldable pub process_handled :
        ℕ → Event V → St → Outlets Q → Option (St × Outlets Q × List (Event W) × Option Error)
    process_handled fuel event st out = conclude event out (
        execute_with_callback config.retry_policy (attempt operator event) cancelled backoff fuel
          (st, []))
