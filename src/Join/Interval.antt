-- ===== src/Join/Interval.antt =====
-- pkg/join/interval_join.go: IntervalJoinOperator, a JoinOperator with its own ProcessLeft and
-- ProcessRight. A time plus a duration is a time, without a bound.
pub mod Symmetry
use gress.Common.{
  String, Bool, true, false, ◌&&◌, ◌||◌, Option, none, some, List, [], ◌∷◌, if◌then◌else◌, ℤ,
  negsuc, pos, ◌+ℤ◌, ltb_ℤ, eqb_ℤ, string_key,
}
use gress.Stream.{Event}
use gress.Join.Config.{
  JoinConfig, JoinResult, JoinType, keeps_right, StoredEvent, default_join_config,
}
use gress.Join.State.{JoinState, add_left_event, add_right_event}
use gress.Join.Operator.{neg64, create_join_result, if_empty, scan_key, found}

-- A time is not before the first and not after the second.
abbrev pub is_between : ℤ → ℤ → ℤ → Bool
is_between time least greatest =
    (ltb_ℤ least time || eqb_ℤ time least) && (ltb_ℤ time greatest || eqb_ℤ time greatest)

-- NewIntervalJoinOperator: the configuration with the bounds.
abbrev pub interval_config : JoinConfig → ℤ → ℤ → JoinConfig
interval_config config lower upper = record config { lower_bound = lower; upper_bound = upper }

-- NewIntervalJoin
abbrev pub new_interval_join : JoinConfig
new_interval_join = interval_config default_join_config (negsuc 299999999999) (pos 300000000000)

module _ {V : Type 0} where
  -- isWithinInterval, of the bounds on the right event's time
  pub is_within_interval : Event V → ℤ → ℤ → Bool
  is_within_interval right min_time max_time = is_between right.event_time min_time max_time

  -- isLeftEventValid, of the bounds on the left event's time
  pub is_left_event_valid : Event V → ℤ → ℤ → Bool
  is_left_event_valid left min_left_time max_left_time =
      is_between left.event_time min_left_time max_left_time

  module _ (config : JoinConfig) (condition : Event V → Event V → Bool) where
    -- The tests of the loops of ProcessLeft and of ProcessRight.
    pub matches_right : Event V → Event V → Bool
    unfolding is_within_interval
    matches_right left right =
        is_within_interval right (left.event_time +ℤ config.lower_bound)
          (left.event_time +ℤ config.upper_bound)
        && condition left right

    pub matches_left : Event V → Event V → Bool
    unfolding is_left_event_valid
    matches_left right left =
        is_left_event_valid left (right.event_time +ℤ neg64 config.upper_bound)
          (right.event_time +ℤ neg64 config.lower_bound)
        && condition left right

    -- ProcessLeft: an unmatched left event has no result, whatever the type of the join.
    unfoldable pub process_left : ℤ → Event V → JoinState V → JoinState V × List (JoinResult V)
    unfolding add_left_event scan_key create_join_result matches_right
    process_left now event js =
        let js' =
          add_left_event now event
            (event.event_time +ℤ config.upper_bound +ℤ config.allowed_lateness) js in
        let (table, results) =
          scan_key (matches_right event) (λ right. create_join_result (some event) (some right))
            event.key js'.right_state in
        (record js' { right_state = table; metrics = found results js'.metrics }, results)

    -- ProcessRight
    unfoldable pub process_right : ℤ → Event V → JoinState V → JoinState V × List (JoinResult V)
    unfolding add_right_event scan_key create_join_result matches_left
    process_right now event js =
        let js' = add_right_event now event (event.event_time +ℤ config.state_retention) js in
        let (table, results) =
          scan_key (matches_left event) (λ left. create_join_result (some left) (some event))
            event.key js'.left_state in
        (
          record js' { left_state = table; metrics = found results js'.metrics },
          if_empty (keeps_right config.kind) (create_join_result none (some event)) results,
        )
