-- ===== src/Window/Tests.antt =====
-- Windows of ten units, with numbers for payloads and their sum for an accumulator.
use gress.Common.{
  ℕ, ◌+◌, ◌*◌, ◌≤◌, ◌≡◌, refl, String, true, none, some, List, [], ◌∷◌, ℤ, pos, negsuc, arith, ◌≤ℤ◌,
  ◌+ℤ◌, ◌-ℤ◌, All, length, get_elem?, ◌/◌, ◌%◌, string_key,
}
use gress.Common.Dict.{Dict, get}
use gress.Stream.{Event, Window, tumbling_window}
use gress.Window.Assign.{
  tumbling, tumbling_at, sliding_at, new_tumbling_window, remainder, last_start,
}
use gress.Window.Assign.Tumbling.{
  Holds, tumbling_of, tumbling_at-Holds, tumbling_at_disjoint, tumbling_at_negative_offset,
}
use gress.Window.Assign.Sliding.{sliding_of, reaching, sliding_at-Holds, get_elem?-sliding_at}
use gress.Window.Trigger.{
  Trigger, fire_and_purge, continue_, event_time_trigger, processing_time_trigger,
  new_count_trigger,
}
use gress.Window.Trigger.Counting.{count_elements, count_elements_div}
use gress.Window.Operator.{Format, WindowState, WindowOperator, new_operator, process, on_watermark}
use gress.Window.Operator.Contents.{total, process_all, select, Records, Records-process_new}
use gress.Window.Operator.Firing.{
  on_watermark-ended, ended, on_watermark_again, up_to, on_watermark_blocks,
  processing_time_never_fires,
}

abbrev event_at : ℕ → ℕ → Event ℕ
event_at t n = record {
  key = "k";
  value = n;
  event_time = pos t;
  headers = [];
  offset = pos 0;
  partition = pos 0;
}

abbrev decade : ℕ → Window
decade n = record { start = pos (n * 10); end = pos (n * 10 + 10); kind = tumbling_window }

tumbling_runs : tumbling_at (pos 25) (new_tumbling_window (pos 10)) ≡ decade 2
unfolding tumbling_at ◌+ℤ◌ ◌-ℤ◌
tumbling_runs = refl

tumbling_before_zero : (tumbling_at (negsuc 2) (new_tumbling_window (pos 10))).start ≡ negsuc 9
unfolding tumbling_at ◌+ℤ◌ ◌-ℤ◌
tumbling_before_zero = refl

sliding_runs : length (sliding_at (pos 25) (sliding_of 10 5 0 true)) ≡ 2
unfolding sliding_at ◌+ℤ◌ ◌-ℤ◌
sliding_runs = refl

tumbling_at-Holds_example : Holds (tumbling_at (negsuc 2) (tumbling_of 10 3 true)) (negsuc 2)
tumbling_at-Holds_example = tumbling_at-Holds (negsuc 2) 10 3 true (omega arith)

tumbling_at_disjoint_example :
    tumbling_at (pos 28) (tumbling_of 10 3 true) ≡ tumbling_at (pos 25) (tumbling_of 10 3 true)
tumbling_at_disjoint_example =
    tumbling_at_disjoint (pos 25) (pos 28) 10 3 true (omega arith)
      (unfold tumbling_at ◌+ℤ◌ ◌-ℤ◌ in omega arith)

tumbling_at_negative_offset_example :
    (tumbling_at (pos 28) (record { size = pos 10; offset = negsuc 2; event_time = true })).end
    ≤ℤ pos 28
tumbling_at_negative_offset_example =
    tumbling_at_negative_offset (pos 28) 9 2 true (unfold remainder in omega arith)

sliding_at-Holds_example :
    All (λ w. Holds w (pos 25)) (sliding_at (pos 25) (sliding_of 10 5 1 true))
    × (length (sliding_at (pos 25) (sliding_of 10 5 1 true)) ≤ 1001)
sliding_at-Holds_example = sliding_at-Holds (pos 25) 10 5 1 true (omega arith)

get_elem?-sliding_at_example :
    get_elem? (sliding_at (pos 25) (sliding_of 10 5 0 true)) 1
    ≡ reaching (pos 25) 10 (last_start (pos 25) (pos 5) (pos 0) -ℤ pos (1 * 5))
get_elem?-sliding_at_example = get_elem?-sliding_at (pos 25) 10 5 0 1 true (omega arith)

count_elements_div_example :
    count_elements 7 (new_count_trigger (pos 3)) 0
    ≡ (record { max_count = pos 3; count = pos (7 % 3) }, 7 / 3)
count_elements_div_example = count_elements_div 7 3 (omega arith)

-- A rendering that tells small numbers apart.
abbrev plain : Format
plain = record { int = λ n. elim n [ pos k ↦ "n" | negsuc k ↦ "-" ]; time = λ t. "t" }

abbrev sum : ℕ → Event ℕ → ℕ
sum a e = a + e.value

abbrev events : List (ℤ × Event ℕ)
events = (pos 0, event_at 1 5) ∷ (pos 0, event_at 2 7) ∷ []

Records-process_new_example :
    Records 0 sum plain event_time_trigger none
      (select plain (new_tumbling_window (pos 10)) "k----" events)
      (get
        (process_all 0 sum plain event_time_trigger events
          (new_operator (tumbling (new_tumbling_window (pos 10))) tt)).windows
        "k----")
Records-process_new_example =
    Records-process_new 0 sum plain event_time_trigger (λ event window s. refl)
      (new_tumbling_window (pos 10)) refl events tt "k----"

abbrev held : Dict String (WindowState ℕ ℕ)
held =
    ("a", record { window = decade 0; events = []; accumulator = 12; count = 2 })
    ∷ ("b", record { window = decade 1; events = []; accumulator = 3; count = 1 })
    ∷ []

abbrev operator : WindowOperator ℕ ℕ event_time_trigger
operator = record {
  assigner = tumbling (new_tumbling_window (pos 10));
  trigger_state = tt;
  windows = held;
}

on_watermark-ended_example :
    on_watermark plain event_time_trigger (pos 10) operator
    ≡ some (operator, ended plain (pos 10) held)
on_watermark-ended_example = on_watermark-ended plain (pos 10) operator

on_watermark_again_example :
    (results : List (Event ℕ)) × (on_watermark plain event_time_trigger (pos 20) operator
      ≡ some (operator, results))
    × (on_watermark plain event_time_trigger (pos 10) operator
        ≡ some (operator, up_to (pos 10) results))
on_watermark_again_example = on_watermark_again plain (pos 10) (pos 20) operator (omega arith)

abbrev purging : Trigger ℕ
purging = record {
  State = Unit {0};
  on_element = λ event window s. (s, continue_);
  on_event_time = λ watermark window s. (s, fire_and_purge);
  on_processing_time = λ now window s. (s, continue_);
}

on_watermark_blocks_example :
    on_watermark plain purging (pos 10) (record {
      assigner = tumbling (new_tumbling_window (pos 10));
      trigger_state = tt;
      windows = held;
    })
    ≡ none
on_watermark_blocks_example =
    on_watermark_blocks plain purging (pos 10)
      (record {
        assigner = tumbling (new_tumbling_window (pos 10));
        trigger_state = tt;
        windows = held;
      })
      [] (("b", record { window = decade 1; events = []; accumulator = 3; count = 1 }) ∷ []) "a"
      (record { window = decade 0; events = []; accumulator = 12; count = 2 }) refl (λ s. refl)

abbrev waiting : WindowOperator ℕ ℕ processing_time_trigger
waiting = record {
  assigner = tumbling (new_tumbling_window (pos 10));
  trigger_state = tt;
  windows = held;
}

processing_time_never_fires_example :
    ((process 0 (total sum) plain processing_time_trigger (pos 99) (event_at 3 4) waiting).1 ≡ [])
    × (on_watermark plain processing_time_trigger (pos 50) waiting ≡ some (waiting, []))
processing_time_never_fires_example =
    processing_time_never_fires 0 (total sum) plain (pos 99) (pos 50) (event_at 3 4) waiting
