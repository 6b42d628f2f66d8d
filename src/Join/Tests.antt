-- ===== src/Join/Tests.antt =====
-- The join operators at concrete inputs.
use gress.Common.{
  ◌≡◌, refl, String, Bool, true, false, none, some, List, [], ◌∷◌, ℤ, pos, negsuc, arith, ◌%◌, ◌-ℤ◌,
  sub_time, string_key,
}
use gress.Common.Dict.{get, put}
use gress.Stream.{Event}
use gress.Join.Config.{JoinConfig, default_join_config, left_outer_join, equality_condition}
use gress.Join.State.{new_join_state, size}
use gress.Join.State.Size.{StateCall, add_left, add_right, expire, call_all, state_size-eq-size}
use gress.Join.Operator
use gress.Join.Operator.{matches_condition, create_join_result}
use gress.Join.Operator.Reference.{Arrival, on_left, on_right, run, expected, run-expected, of_key}
use gress.Join.Operator.Outer.{run_later_match}
use gress.Join.Temporal.{lookup_version, versions_of, cleanup, binary_search}
use gress.Join.Temporal.Lookup.{FindsEvent, lookup_version-FindsEvent, binary_search_more}
use gress.Join.Temporal.History.{
  update_all, chain, last_at, lookup_version-last_at, late_reference_hides,
}
use gress.Join.Temporal.Cleanup.{lookup_version-cleanup}
use gress.Join.Interval.{matches_left, matches_right, interval_config}
use gress.Join.Interval.Symmetry.{
  matches_left-eq-matches_right, left_first, right_first, left_first-eq-right_first,
}

abbrev order : String → Bool → ℤ → Event Bool
order key value time = record {
  key = key;
  value = value;
  event_time = time;
  headers = [];
  offset = pos 0;
  partition = pos 0;
}

abbrev a : Event Bool
a = order "k" true (pos 1000000000)

abbrev b : Event Bool
b = order "k" false (pos 3000000000)

abbrev outer_config : JoinConfig
outer_config = record default_join_config { kind = left_outer_join }

abbrev interval : JoinConfig
interval = interval_config default_join_config (negsuc 999999999) (pos 5000000000)

abbrev calls : List (StateCall Bool)
calls =
    add_left (pos 1) a (pos 9)
    ∷ add_left (pos 2) b (pos 3)
    ∷ add_right (pos 2) b (pos 4)
    ∷ add_left (pos 3) a (pos 12)
    ∷ expire (pos 10)
    ∷ []

state_size-eq-size_example :
    (call_all calls (new_join_state (pos 2))).metrics.state_size
    ≡ size (call_all calls (new_join_state (pos 2))) % 18446744073709551616
state_size-eq-size_example = state_size-eq-size calls (pos 2)

abbrev arrivals : List (Arrival Bool)
arrivals = on_left (pos 1) a ∷ on_right (pos 2) b ∷ on_left (pos 3) b ∷ []

run-expected_example :
    run default_join_config equality_condition arrivals (new_join_state (pos 0))
    ≡ expected default_join_config equality_condition [] [] arrivals
run-expected_example =
    run-expected default_join_config equality_condition arrivals (pos 0) refl (omega arith)

run_pairs :
    run default_join_config equality_condition arrivals (new_join_state (pos 0))
    ≡ create_join_result (some a) (some b) ∷ create_join_result (some b) (some b) ∷ []
unfolding run matches_condition sub_time Operator.process_left Operator.process_right get put
    new_join_state
run_pairs = refl

run_later_match_example :
    run outer_config equality_condition
      (on_left (pos 1) a ∷ on_right (pos 2) b ∷ [])
      (new_join_state (pos 0))
    ≡ create_join_result (some a) none ∷ create_join_result (some a) (some b) ∷ []
unfolding matches_condition sub_time
run_later_match_example =
    run_later_match outer_config equality_condition (pos 1) (pos 2) a b (pos 0) refl (omega arith)
      refl refl refl

lookup_version-FindsEvent_example :
    FindsEvent
      (pos 2000000000)
      (versions_of (get (update_all (b ∷ a ∷ []) []) "k"))
      (lookup_version "k" (pos 2000000000) (update_all (b ∷ a ∷ []) []))
lookup_version-FindsEvent_example =
    lookup_version-FindsEvent "k" (pos 2000000000) (update_all (b ∷ a ∷ []) [])

binary_search_more_example :
    binary_search 9 (pos 2) (chain (a ∷ b ∷ [])) 0 2
    ≡ binary_search 2 (pos 2) (chain (a ∷ b ∷ [])) 0 2
binary_search_more_example =
    binary_search_more 2 9 (pos 2) (chain (a ∷ b ∷ [])) 0 2 (omega arith) (omega arith)

lookup_version-last_at_example :
    lookup_version "k" (pos 2000000000) (update_all (a ∷ b ∷ []) [])
    ≡ last_at (pos 2000000000) (of_key "k" (a ∷ b ∷ []))
lookup_version-last_at_example =
    lookup_version-last_at (a ∷ b ∷ []) "k" (pos 2000000000) (omega arith, (omega arith, tt))

late_reference_hides_example :
    lookup_version "k" (pos 4000000000) (update_all (b ∷ a ∷ []) []) ≡ some a
late_reference_hides_example =
    late_reference_hides b a (pos 4000000000) refl (omega arith) (omega arith) (omega arith)

lookup_version-cleanup_example :
    lookup_version "k"
      (pos 4000000000)
      (cleanup default_join_config (pos 602000000000) (update_all (a ∷ b ∷ []) []))
    ≡ lookup_version "k" (pos 4000000000) (update_all (a ∷ b ∷ []) [])
unfolding ◌-ℤ◌
lookup_version-cleanup_example =
    lookup_version-cleanup default_join_config (pos 602000000000) (a ∷ b ∷ []) "k" (pos 4000000000)
      (omega arith, (omega arith, tt)) (omega arith)

matches_left-eq-matches_right_example :
    matches_left interval equality_condition b a ≡ matches_right interval equality_condition a b
matches_left-eq-matches_right_example =
    matches_left-eq-matches_right interval equality_condition a b (omega arith) (omega arith)

left_first-eq-right_first_example :
    left_first interval equality_condition (pos 0) a b
    ≡ right_first interval equality_condition (pos 0) a b
left_first-eq-right_first_example =
    left_first-eq-right_first interval equality_condition a b (pos 0) (omega arith) (omega arith)
      refl (omega arith)
