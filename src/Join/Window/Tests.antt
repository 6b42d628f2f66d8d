-- ===== src/Join/Window/Tests.antt =====
-- Window joins at concrete events.
use mathlib.Core.List.{Perm}
use gress.Common.{ℕ, string_key, ◌≡◌, refl, false, some, List, [], ◌∷◌, map, ℤ, pos, ◌+ℤ◌, ◌-ℤ◌}
use gress.Common.Dict.{get, put}
use gress.Stream.{Event, tumbling_window}
use gress.Window.Assign.{Assigner, tumbling, new_tumbling_window, assign_windows}
use gress.Window.Operator.{Format, window_key}
use gress.Join.Config.{left_outer_join, equality_condition}
use gress.Join.Window.{
  WindowJoinState, window_results, process_left, process_right, process_windows,
}
use gress.Join.Window.Complete.{Call, left_call, right_call, sides, test, run_call, run_calls}
use gress.Join.Window.Fired.{joined, fired-joined}

abbrev event : ℕ → Event ℕ
event p = record {
  key = "k";
  value = p;
  event_time = pos 12;
  headers = [];
  offset = pos p;
  partition = pos 0;
}

abbrev format : Format
format = record { int = λ n. "0"; time = λ t. "t" }

abbrev assigner : Assigner
assigner = tumbling (new_tumbling_window (pos 10))

abbrev calls : List Call
calls = left_call (pos 0) 1 ∷ right_call (pos 0) 2 ∷ left_call (pos 0) 3 ∷ []

abbrev end : ℤ
end = pos 20

abbrev state : WindowJoinState
state = record {
  window = record { start = pos 10; end = end; kind = tumbling_window };
  left_events = 1 ∷ 3 ∷ [];
  right_events = 2 ∷ [];
  matches =
      record { left = 1; right = 2; event_time = end; join_key = "k" }
      ∷ record { left = 3; right = 2; event_time = end; join_key = "k" }
      ∷ [];
  fired = false;
}

held :
    get (run_calls event left_outer_join equality_condition assigner format calls []) "k-0-0"
    ≡ some state
unfolding run_calls run_call process_left process_right process_windows get put assign_windows
    window_key ◌+ℤ◌ ◌-ℤ◌
held = refl

fired-joined_example : Perm (map sides (window_results event left_outer_join state)) (
    joined
      (test event left_outer_join equality_condition assigner format)
      left_outer_join
      (1 ∷ 3 ∷ [])
      (2 ∷ []))
fired-joined_example =
    fired-joined event left_outer_join equality_condition assigner format calls "k-0-0" state held
