-- ===== src/ErrorHandler/Tests.antt =====
-- Error handling at concrete inputs.
use gress.Common.{
  codes, ℕ, suc, String, ◌≡◌, refl, true, false, Option, none, some, List, [], ℤ, pos,
}
use gress.Stream.{Event}
use gress.Errors.Classification.{Error}
use gress.Errors.Retry.{RetryResult}
use gress.Errors.Retry.Attempts.{Tried}
use gress.Errors.Dlq.{InMemoryDlq, DlqError, event_not_found, DeadLetterQueue, in_memory}
use gress.Errors.SideOutput.{SideOutputCollector, create_collector, default_side_output_config}
use gress.ErrorHandler.{ErrorHandlingConfig, process_handled, handle_error}
use gress.ErrorHandler.Handled.{outcomes, Answered, process_handled-Answered}

abbrev config : ErrorHandlingConfig
config = record {
  retry_policy = record { max_attempts = pos 1; retriable = none };
  enable_dlq = true;
  enable_side_outputs = true;
  operator_name = "map";
}

abbrev broken : Error
broken = record {
  classified = none;
  is_canceled = false;
  is_deadline_exceeded = false;
  is_eof = false;
  is_unexpected_eof = false;
  net_error = none;
  errno = none;
  message = codes "parse error";
}

abbrev text : Error → String
text e = "parse error"

-- An operator that counts its calls and always fails.
abbrev failing : Event ℕ → ℕ → ℕ × List (Event ℕ) × Option Error
failing event calls = (suc calls, [], some broken)

abbrev never : ℕ → Option Error
never n = none

abbrev backoff : ℕ → ℤ
backoff n = pos 100

abbrev event : Event ℕ
event = record {
  key = "k";
  value = 7;
  event_time = pos 5;
  headers = [];
  offset = pos 1;
  partition = pos 0;
}

abbrev queue : InMemoryDlq ℕ
queue = record { events = []; max_size = pos 10 }

abbrev collector : SideOutputCollector ℕ (Option Error)
collector = create_collector default_side_output_config

process_handled-Answered_example :
    (r : RetryResult Error) × Tried config.retry_policy
      (outcomes config text false (pos 9) failing never backoff event 0)
      never
      backoff
      1
      r
    × Answered config text false (pos 9) failing never backoff event 0 queue collector r (
        process_handled in_memory config text false
          (pos 9)
          failing
          never
          backoff
          2
          event
          0
          (record { dlq = some queue; side_outputs = some collector }))
process_handled-Answered_example =
    process_handled-Answered config text false (pos 9) failing never backoff 1 event 0 queue
      collector refl refl refl

-- A queue that refuses every event.
abbrev refusing : DeadLetterQueue ℕ
refusing = record {
  State = ℕ;
  Err = DlqError;
  write_to = λ failed writes. (suc writes, some (event_not_found "k" (pos 0)));
  read_from = λ limit writes. (none, []);
  delete_from = λ key offset writes. (writes, none);
  size = λ writes. 0;
}

-- A refused write keeps the event from the side outputs.
refused_write :
    handle_error refusing config text false
      (pos 9)
      event
      (some broken)
      2
      (record { dlq = some 0; side_outputs = some collector })
    ≡ some
        (record { dlq = some 1; side_outputs = some collector }, some (event_not_found "k" (pos 0)))
unfolding handle_error
refused_write = refl
