-- ===== src/Errors/Dlq.antt =====
-- pkg/errors/dlq.go: the dead letter queues and the manager that counts what passes through them.
-- `V` is the type of a failed event's payload (an interface{}). An int64 counter is the bit pattern
-- of its value.
pub mod Queue
pub mod Manager
mod Tests
use gress.Common.{
  ℕ, zero, suc, ◌+◌, ◌-◌, ◌%◌, String, Bool, true, false, ◌&&◌, ◌||◌, Option, none, some, List, [],
  ◌∷◌, ◌++◌, ltb, leb, if◌then◌else◌, ℤ, pos, ltb_ℤ, leb_ℤ, eqb_ℤ, length, take, pos_part, Key,
  string_key, int_key,
}
use gress.Common.Dict.{Dict}

pub record FailedEvent (V : Type 0) : Type 0 where
  pub key : String
  pub value : V
  pub event_time : ℤ
  pub headers : Dict String String
  pub offset : ℤ
  pub partition : ℤ
  pub failure_reason : String
  pub failure_category : String
  pub operator_name : String
  pub failure_time : ℤ
  pub retry_count : ℤ
  pub stack_trace : String
  pub metadata : Dict String String

pub record InMemoryDlq (V : Type 0) : Type 0 where
  pub events : List (FailedEvent V)
  pub max_size : ℤ

-- `event not found`
pub data DlqError : Type 0 where
  event_not_found : String → ℤ → DlqError

-- dlq.events[1:], of a slice that is not empty where it is used
abbrev pub rest {ℓ} : {A : Type ℓ} → List A → List A
rest [] = []
rest (x ∷ xs) = xs

module _ {V : Type 0} where
  pub new_dlq : ℤ → InMemoryDlq V
  new_dlq max_size = record { events = []; max_size = max_size }

  -- InMemoryDLQ.Write
  pub write : FailedEvent V → InMemoryDlq V → InMemoryDlq V
  write event dlq =
      let kept =
        if ltb_ℤ (pos 0) dlq.max_size && leb_ℤ dlq.max_size (pos (length dlq.events))
        then rest dlq.events
        else dlq.events in
      record dlq { events = kept ++ event ∷ [] }

  -- InMemoryDLQ.Read
  pub read : ℤ → InMemoryDlq V → List (FailedEvent V)
  read limit dlq =
      if leb_ℤ limit (pos 0) || ltb_ℤ (pos (length dlq.events)) limit
      then dlq.events
      else take (pos_part limit) dlq.events

  pub matches : String → ℤ → FailedEvent V → Bool
  matches key offset event = string_key.beq event.key key && eqb_ℤ event.offset offset

  abbrev pub prepend : FailedEvent V → Option (List (FailedEvent V)) → Option (List (FailedEvent V))
  prepend event none = none
  prepend event (some events) = some (event ∷ events)

  -- The loop of Delete: `none` if it ends without a match.
  pub delete_first : String → ℤ → List (FailedEvent V) → Option (List (FailedEvent V))
  unfolding matches
  delete_first key offset [] = none
  delete_first key offset (event ∷ events) =
      let later = delete_first key offset events in
      if matches key offset event then some events else prepend event later

  abbrev pub after_loop :
      String → ℤ → InMemoryDlq V → Option (List (FailedEvent V)) → InMemoryDlq V × Option DlqError
  after_loop key offset dlq none = (dlq, some (event_not_found key offset))
  after_loop key offset dlq (some events) = (record dlq { events = events }, none)

  -- InMemoryDLQ.Delete
  pub delete : String → ℤ → InMemoryDlq V → InMemoryDlq V × Option DlqError
  unfolding delete_first
  delete key offset dlq = after_loop key offset dlq (delete_first key offset dlq.events)

  -- InMemoryDLQ.Count
  pub count : InMemoryDlq V → ℕ
  count dlq = length dlq.events

  -- InMemoryDLQ.Close
  pub close : InMemoryDlq V → InMemoryDlq V
  close dlq = record dlq { events = [] }

-- The interface DeadLetterQueue, as far as the manager calls it; `Err` is its type of errors.
pub record DeadLetterQueue (V : Type 0) : Type 1 where
  pub State : Type 0
  pub Err : Type 0
  pub write_to : FailedEvent V → State → State × Option Err
  pub read_from : ℤ → State → Option Err × List (FailedEvent V)
  pub delete_from : String → ℤ → State → State × Option Err
  pub size : State → ℕ

-- The in-memory queue as an implementation.
abbrev pub in_memory : {V : Type 0} → DeadLetterQueue V
in_memory {V} = record {
  State = InMemoryDlq V;
  Err = DlqError;
  write_to = λ event dlq. (write event dlq, none);
  read_from = λ limit dlq. (none, read limit dlq);
  delete_from = delete;
  size = count;
}

-- NullDLQ: it drops every event and reports success.
abbrev pub null_dlq : {V : Type 0} → DeadLetterQueue V
null_dlq {V} = record {
  State = Unit {0};
  Err = DlqError;
  write_to = λ event dlq. (dlq, none);
  read_from = λ limit dlq. (none, []);
  delete_from = λ key offset dlq. (dlq, none);
  size = λ dlq. 0;
}
