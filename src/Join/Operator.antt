-- ===== src/Join/Operator.antt =====
-- pkg/join/join.go: JoinOperator. One call of ProcessLeft or ProcessRight runs to its end here. The
-- results are the JoinResults, which the source turns into events by ToEvent (in Config) as it
-- collects them.
pub mod Reference
pub mod Outer
use gress.Common.{
  ℕ, suc, ◌+◌, String, Bool, true, false, ◌&&◌, Option, none, some, List, [], ◌∷◌, ◌++◌,
  if◌then◌else◌, ℤ, pos, negsuc, ◌+ℤ◌, ltb_ℤ, eqb_ℤ, neg, sub_time, length, string_key,
}
use gress.Common.Dict.{Dict, get, put}
use gress.Stream.{Event}
use gress.Join.Config.{
  JoinConfig, JoinResult, JoinStrategy, hash_join, sort_merge_join, nested_loop_join, keeps_left,
  keeps_right, StoredEvent,
}
use gress.Join.State.{
  JoinState, JoinMetrics, Table, add_left_event, add_right_event, events_at, add64,
  remove_expired_events, clear,
}

-- -d on an int64: the least duration is its own negation.
abbrev pub neg64 : ℤ → ℤ
neg64 d = if eqb_ℤ d (negsuc 9223372036854775807) then d else neg d

-- The time-window part of matchesCondition, of the difference right - left.
pub within_window : ℤ → ℤ → Bool
within_window window diff =
    if ltb_ℤ (pos 0) window
    then (let distance = if ltb_ℤ diff (pos 0) then neg64 diff else diff in
        if ltb_ℤ window distance then false else true)
    else true

-- createJoinResult
unfoldable pub create_join_result :
    {V : Type 0} → Option (Event V) → Option (Event V) → JoinResult V
create_join_result (some left) (some right) = record {
  left = some left;
  right = some right;
  event_time = if ltb_ℤ left.event_time right.event_time then right.event_time else left.event_time;
  join_key = left.key;
}
create_join_result (some left) none = record {
  left = some left;
  right = none;
  event_time = left.event_time;
  join_key = left.key;
}
create_join_result none (some right) = record {
  left = none;
  right = some right;
  event_time = right.event_time;
  join_key = right.key;
}
create_join_result none none = record {
  left = none;
  right = none;
  event_time = pos 0;
  join_key = "";
}

-- IncrementMatchCount; a match count is an int of events seen, and does not overflow.
abbrev pub bump : {V : Type 0} → StoredEvent V → StoredEvent V
bump stored = record stored { match_count = stored.match_count + 1 }

abbrev pub if_empty {ℓ} : {A : Type ℓ} → Bool → A → List A → List A
if_empty true a [] = a ∷ []
if_empty _ a results = results

module _ {V : Type 0} where
  -- The loop over the stored events of the other side: the events with their match counts, and the
  -- results. `pair` makes the result of a stored event, `test` says that it matches.
  unfoldable pub scan :
      (Event V → Bool)
      → (Event V → JoinResult V)
      → List (StoredEvent V)
      → List (StoredEvent V) × List (JoinResult V)
  scan test pair [] = ([], [])
  scan test pair (stored ∷ events) =
      let (later, results) = scan test pair events in
      if test stored.event
      then (bump stored ∷ later, pair stored.event ∷ results)
      else (stored ∷ later, results)

  abbrev pub write_back :
      Table V → String → Option (List (StoredEvent V)) → List (StoredEvent V) → Table V
  write_back table key none events = table
  write_back table key (some old) events = put table key events

  -- The loop over the stored events of one key.
  unfoldable pub scan_key :
      (Event V → Bool) → (Event V → JoinResult V) → String → Table V → Table V × List (JoinResult V)
  unfolding scan events_at
  scan_key test pair key table =
      let (events, results) = scan test pair (events_at table key) in
      (write_back table key (get table key) events, results)

  -- The loop over all keys.
  pub scan_all :
      (Event V → Bool) → (Event V → JoinResult V) → Table V → Table V × List (JoinResult V)
  unfolding scan
  scan_all test pair [] = ([], [])
  scan_all test pair ((key, events) ∷ table) =
      let (events', results) = scan test pair events in
      let (table', more) = scan_all test pair table in ((key, events') ∷ table', results ++ more)

  abbrev pub found : List (JoinResult V) → JoinMetrics → JoinMetrics
  found results metrics = record metrics {
    matches_found = add64 metrics.matches_found (length results);
  }

  -- The table of the other side, by strategy: a sort-merge join is a hash join in the source.
  pub search_table :
      JoinStrategy
      → (Event V → Bool)
      → (Event V → JoinResult V)
      → String
      → Table V
      → Table V × List (JoinResult V)
  unfolding scan_key scan_all
  search_table hash_join test pair key table = scan_key test pair key table
  search_table sort_merge_join test pair key table = scan_key test pair key table
  search_table nested_loop_join test pair key table = scan_all test pair table

module _ {V : Type 0} (config : JoinConfig) (condition : Event V → Event V → Bool) where
  -- matchesCondition
  unfoldable pub matches_condition : Event V → Event V → Bool
  unfolding within_window
  matches_condition left right =
      condition left right
      && within_window config.time_window (sub_time right.event_time left.event_time)

  -- hashJoinLeft, sortMergeJoinLeft and nestedLoopJoinLeft
  pub join_left : Event V → JoinState V → JoinState V × List (JoinResult V)
  unfolding search_table create_join_result matches_condition
  join_left left js =
      let (table, results) =
        search_table config.strategy (matches_condition left)
          (λ right. create_join_result (some left) (some right)) left.key js.right_state in
      (
        record js { right_state = table; metrics = found results js.metrics },
        if_empty (keeps_left config.kind) (create_join_result (some left) none) results,
      )

  -- hashJoinRight, sortMergeJoinRight and nestedLoopJoinRight
  pub join_right : Event V → JoinState V → JoinState V × List (JoinResult V)
  unfolding search_table create_join_result matches_condition
  join_right right js =
      let (table, results) =
        search_table config.strategy (λ left. matches_condition left right)
          (λ left. create_join_result (some left) (some right)) right.key js.left_state in
      (
        record js { left_state = table; metrics = found results js.metrics },
        if_empty (keeps_right config.kind) (create_join_result none (some right)) results,
      )

  -- ProcessLeft
  unfoldable pub process_left : ℤ → Event V → JoinState V → JoinState V × List (JoinResult V)
  unfolding join_left add_left_event
  process_left now event js =
      join_left event (add_left_event now event (event.event_time +ℤ config.state_retention) js)

  -- ProcessRight
  unfoldable pub process_right : ℤ → Event V → JoinState V → JoinState V × List (JoinResult V)
  unfolding join_right add_right_event
  process_right now event js =
      join_right event (add_right_event now event (event.event_time +ℤ config.state_retention) js)

-- cleanup: what it does to the state. It logs the unmatched events of an outer join, and emits none.
pub cleanup : {V : Type 0} → ℤ → JoinState V → JoinState V
unfolding remove_expired_events
cleanup now js = (remove_expired_events now js).0

-- Close
pub close : {V : Type 0} → JoinState V → JoinState V
unfolding clear
close js = clear js
