-- ===== src/Window/Trigger.antt =====
-- pkg/window/window.go: the triggers, as implementations of one interface. A trigger is shared by
-- all the windows of its operator; its state is passed along.
pub mod Counting
use gress.Common.{
  ℕ, zero, suc, ◌+◌, Bool, true, false, ◌||◌, if◌then◌else◌, ℤ, pos, ltb_ℤ, leb_ℤ, eqb_ℤ, ◌+ℤ◌,
}
use gress.Stream.{Event, Window}

pub data TriggerResult : Type 0 where
  continue_ fire purge fire_and_purge : TriggerResult

-- The interface Trigger.
pub record Trigger (V : Type 0) : Type 1 where
  pub State : Type 0
  pub on_element : Event V → Window → State → State × TriggerResult
  pub on_event_time : ℤ → Window → State → State × TriggerResult
  pub on_processing_time : ℤ → Window → State → State × TriggerResult

-- watermark.After(window.End) || watermark.Equal(window.End)
unfoldable pub has_ended : ℤ → Window → Bool
has_ended time window = ltb_ℤ window.end time || eqb_ℤ time window.end

abbrev pub fire_if : Bool → TriggerResult
fire_if ended = if ended then fire else continue_

abbrev pub event_time_trigger : {V : Type 0} → Trigger V
event_time_trigger = record {
  State = Unit {0};
  on_element = λ event window s. (s, continue_);
  on_event_time = λ watermark window s. (s, fire_if (has_ended watermark window));
  on_processing_time = λ time window s. (s, continue_);
}

abbrev pub processing_time_trigger : {V : Type 0} → Trigger V
processing_time_trigger = record {
  State = Unit {0};
  on_element = λ event window s. (s, continue_);
  on_event_time = λ time window s. (s, continue_);
  on_processing_time = λ now window s. (s, fire_if (has_ended now window));
}

pub record CountState : Type 0 where
  pub max_count : ℤ
  pub count : ℤ

pub new_count_trigger : ℤ → CountState
new_count_trigger max_count = record { max_count = max_count; count = pos 0 }

-- CountTrigger.OnElement; the count is an int below its limit, and does not overflow.
pub count_element : CountState → CountState × TriggerResult
unfolding ◌+ℤ◌
count_element s =
    let counted = s.count +ℤ pos 1 in
    if leb_ℤ s.max_count counted
    then (record s { count = pos 0 }, fire)
    else (record s { count = counted }, continue_)

abbrev pub count_trigger : {V : Type 0} → Trigger V
count_trigger = record {
  State = CountState;
  on_element = λ event window s. count_element s;
  on_event_time = λ time window s. (s, continue_);
  on_processing_time = λ time window s. (s, continue_);
}
