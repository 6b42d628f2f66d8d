-- ===== src/Lib.antt =====
-- gress is a stream processing library in Go. This library models the parts that hold its own
-- logic: the assignment of events to windows and their firing, watermarks, the joins of two
-- streams, the error handling around an operation that may fail (a circuit breaker, retries and a
-- dead letter queue), the state backend in memory, checkpoints, and the detection of event
-- patterns.
--
-- The parts and how they interact: events (pkg/stream/types.go) carry a key and an event time. The
-- watermark manager follows the event times of each partition and sends watermarks. The window
-- operator asks its assigner for the windows of an event, adds the event to the state of each,
-- asks its trigger whether to emit, and fires the ended windows at a watermark. The join operators
-- keep the events of both streams in a state and look for partners of each event that comes. The
-- circuit breaker stands in front of a sink or another operation; events that fail end in a dead
-- letter queue and a side output, once an operator with error handling has retried them. Operators
-- keep values by key in a state backend. The engine for event patterns follows partial matches of
-- the patterns that are registered. The checkpoint manager collects the states of operators and
-- backends in files.
--
-- The files:
--
-- - Common, and the files below it: native numbers, integers, lists, texts, times, Go channels
--   without a reader (Common/Channel) and Go maps as association lists in the order in which an
--   iteration happens to visit them.
-- - Stream: pkg/stream/types.go (Event, Watermark, Window).
-- - Window/Assign, Window/Trigger and Window/Operator: pkg/window/window.go. tumbling_at,
--   sliding_at and session_at are the AssignWindows methods at the timestamp that assign_windows
--   has chosen; process is WindowOperator.Process and on_watermark is OnWatermark.
--   Window/Assign/Tumbling and Window/Assign/Sliding are about the windows of an event,
--   Window/Trigger/Counting about the count trigger, Window/Operator/Contents about what a window
--   holds and Window/Operator/Firing about what is emitted.
-- - Watermark: pkg/watermark/manager.go. update_event_time, is_late and generate_watermarks are
--   the methods of Manager. Watermark/Lateness is about late events, Watermark/Global about the
--   global watermark, Watermark/Idle about the marks that a generation leaves.
-- - Join/Config: pkg/join/types.go. Join/State: pkg/join/state.go, with Join/State/Size about the
--   counted size. Join/Operator: pkg/join/join.go (process_left and process_right), with
--   Join/Operator/Reference for the abstract view that remembers both streams as lists and
--   Join/Operator/Outer about outer joins. Join/Interval: pkg/join/interval_join.go, with
--   Join/Interval/Symmetry. Join/Window: pkg/join/window_join.go, with Join/Window/Pairs for the
--   pairs of two lists, Join/Window/Complete for what a window holds and Join/Window/Fired for
--   what it fires; events are told apart by their pointers there. Join/Temporal:
--   pkg/join/temporal_join.go, with Join/Temporal/Lookup for lookups in any table,
--   Join/Temporal/History for ordered reference events and Join/Temporal/Cleanup.
-- - Errors/CircuitBreaker and Errors/Registry: pkg/errors/circuit_breaker.go. before_request,
--   after_request, execute, reset and is_available are the methods of CircuitBreaker.
--   Errors/CircuitBreaker/Transitions, Errors/CircuitBreaker/Invariant and
--   Errors/CircuitBreaker/Runs state what single calls, interleaved calls and runs of calls do;
--   Errors/Registry/Laws is about the registry.
-- - Errors/Retry: pkg/errors/retry.go (execute is RetryPolicy.Execute), with Errors/Retry/Attempts
--   about the attempts that are made; Errors/Retry/Callback is ExecuteWithCallback, on an
--   operation with a state.
-- - Errors/Classification: pkg/errors/classification.go, with Errors/Classification/Substring
--   about the search in a message and Errors/Classification/Fatal about the errors that are not
--   tried again. Errors/SideOutput: pkg/errors/side_output.go, with Errors/SideOutput/Emitted
--   about what waits in the channels.
-- - Operators: pkg/stream/operators.go, with Operators/Keyed about the operators with a state for
--   each key and Operators/Branches about the branches. ErrorHandler: pkg/stream/error_handler.go
--   (process_handled is ErrorHandlingOperator.Process), which composes the retries, the
--   classification, the dead letter queue and the side outputs; ErrorHandler/Handled is about what
--   it returns and writes.
-- - Errors/Dlq and Errors/Dlq/Manager: pkg/errors/dlq.go, with Errors/Dlq/Queue about the queue in
--   memory and Errors/Dlq/Manager/Sizes about the statistics of the manager.
-- - Cep/Value, Cep/Pattern, Cep/Match and Cep/Engine: pkg/cep/engine.go, with the types of
--   pattern.go and dsl.go. try_advance is tryAdvanceMatch on the steps that are left,
--   process_event is ProcessEvent. Cep/Match/Explained says what the events of a partial match
--   have to do with the steps, and Cep/Match/Advance that an event keeps it so;
--   Cep/Engine/Soundness, Cep/Engine/Matches, Cep/Engine/Upkeep and Cep/Engine/Runs carry it
--   through the loops and the calls of the engine.
-- - Checkpoint: pkg/checkpoint/manager.go (create_checkpoint is CreateCheckpoint), with
--   Checkpoint/Retention about the checkpoints that are kept and Checkpoint/Barriers about the
--   alignment of partitions. Checkpoint/Restore is RestoreFromCheckpoint, and
--   Checkpoint/Restore/Encoded is about what the backends are restored from.
-- - State: pkg/state/memory.go. get_value, put_with_ttl, delete, snapshot and restore are the
--   methods of MemoryStateBackend, run_deletion is a Delete that a Get has started; State/Expiry
--   is about what Get answers.
-- - The Tests modules hold the runs at concrete inputs.
--
-- How the code is modelled: a method that holds the lock of its object for its whole body is one
-- function from the state to the state, and goroutines that share the object are sequences of such
-- calls in any order. A call that waits for a lock that its own goroutine holds is an Option
-- result none. Every reading of the clock is an argument. A time is a whole number of nanoseconds
-- after the zero time of Go, a duration an integer; a difference of two times saturates at the
-- bounds of int64, a sum of durations wraps, and the sum of a time and a duration has no bound.
-- Counters wrap at their width where the source gives one (uint32 in the breaker, int64 in the
-- metrics). Configuration records that are shared through pointers are objects on a heap in
-- Errors/Registry. The conditions of joins, the aggregate functions, the formatting of times,
-- JSON, the outcomes and backoffs of a retried operation, the operation in front of which a
-- breaker stands, floating point and fmt in the event patterns, and the text of an error are
-- arguments. The operator under an operator with error handling changes a state of its own and is
-- an argument too.
--
-- Bounds and fuel: the loop over sliding windows makes at most 1001 of them, as its break does,
-- and slide_from counts them down. The binary search of the temporal join has the number of
-- versions as its fuel: each turn makes the range shorter. The loop of Execute has fuel; a policy
-- with at most n retries is given n + 1, and a policy without a bound may use up any fuel. The
-- recursion of tryAdvanceMatch goes down the steps that are left. All other loops are structural.
--
-- Not modelled: goroutines that only call the modelled methods on a ticker, logging, the dead
-- letter queue in files, and the packages for input and output, the RocksDB backend, SQL, schemas,
-- analytics and deployment.
pub mod Common
pub mod Cep
pub mod Checkpoint
pub mod ErrorHandler
pub mod Errors
pub mod Join
pub mod Operators
pub mod State
pub mod Stream
pub mod Watermark
pub mod Window
