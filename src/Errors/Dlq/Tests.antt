-- ===== src/Errors/Dlq/Tests.antt =====
-- A queue of two places, with numbers for payloads.
use gress.Common.{ℕ, ◌≤◌, ◌≡◌, refl, some, List, [], ◌∷◌, pos, arith}
use gress.Errors.Dlq.{
  FailedEvent, InMemoryDlq, new_dlq, write, read, delete, count, in_memory, event_not_found,
  matches,
}
use gress.Errors.Dlq.Queue.{write_all, write_all_recent, DeleteEffect, delete-DeleteEffect}
use gress.Errors.Dlq.Manager.{
  Counted, ManagerCall, write_call, read_call, delete_call, manage_all, new_manager, write_event,
}
use gress.Errors.Dlq.Manager.Sizes.{current_size_at_least, current_size_exact, current_size_drifts}

abbrev failed_at : ℕ → FailedEvent ℕ
failed_at n = record {
  key = "k";
  value = n;
  event_time = pos n;
  headers = [];
  offset = pos n;
  partition = pos 0;
  failure_reason = "timeout";
  failure_category = "retriable";
  operator_name = "map";
  failure_time = pos (n);
  retry_count = pos 0;
  stack_trace = "";
  metadata = [];
}

abbrev three : List (FailedEvent ℕ)
three = failed_at 1 ∷ failed_at 2 ∷ failed_at 3 ∷ []

abbrev full : InMemoryDlq ℕ
full = record { events = failed_at 2 ∷ failed_at 3 ∷ []; max_size = pos 2 }

write_all-three : write_all three (new_dlq (pos 2)) ≡ full
unfolding write_all write new_dlq
write_all-three = refl

read_one : read (pos 1) full ≡ failed_at 2 ∷ []
unfolding read
read_one = refl

delete_missing : (delete "k" (pos 9) full).1 ≡ some (event_not_found "k" (pos 9))
unfolding delete matches
delete_missing = refl

write_all_recent_example :
    (write_all three (new_dlq (pos 2))).events ≡ failed_at 2 ∷ failed_at 3 ∷ []
write_all_recent_example = write_all_recent (pos 2) three

delete-DeleteEffect_example :
    DeleteEffect "k" (pos 3) full (delete "k" (pos 3) full).0 (delete "k" (pos 3) full).1
delete-DeleteEffect_example = delete-DeleteEffect "k" (pos 3) full

abbrev calls : List (ManagerCall ℕ)
calls =
    write_call (failed_at 1)
    ∷ write_call (failed_at 2)
    ∷ delete_call "k" (pos 1)
    ∷ read_call (pos 5)
    ∷ write_call (failed_at 3)
    ∷ []

current_size_at_least_example :
    let m = manage_all calls (new_manager in_memory (new_dlq (pos 1))) in
    count m.dlq ≤ m.stats.current_size
current_size_at_least_example = current_size_at_least calls (pos 1) (omega arith)

current_size_exact_example :
    let m = manage_all calls (new_manager in_memory (new_dlq (pos 0))) in
    count m.dlq ≡ m.stats.current_size
current_size_exact_example = current_size_exact calls (pos 0) (omega arith) (omega arith)

abbrev full_manager : Counted ℕ
full_manager = record {
  dlq = full;
  stats = record {
    total_written = 2;
    total_read = 0;
    total_deleted = 0;
    current_size = 2;
    oldest_event = some (pos 2);
    newest_event = some (pos 3);
  };
}

current_size_drifts_example :
    let m' = (write_event in_memory (failed_at 4) full_manager).0 in
    (count m'.dlq ≡ count full) × (m'.stats.current_size ≡ 3)
current_size_drifts_example =
    current_size_drifts (failed_at 4) full_manager (omega arith) (unfold count in refl)
