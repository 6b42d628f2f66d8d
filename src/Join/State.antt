-- ===== src/Join/State.antt =====
-- pkg/join/state.go: JoinState. Each method holds the state's lock. An int64 counter is the bit
-- pattern of its value. A stored event is reached through its place in the state.
pub mod Size
use gress.Common.{
  ℕ, suc, ◌+◌, ◌-◌, ◌%◌, String, Bool, true, false, Option, none, some, List, [], ◌∷◌, ◌++◌, ltb,
  if◌then◌else◌, ℤ, pos, negsuc, ltb_ℤ, leb_ℤ, length, drop, pos_part, string_key, zero,
}
use gress.Common.Dict.{Dict, get, put}
use gress.Stream.{Event}
use gress.Join.Config.{Side, left_side, right_side, StoredEvent, is_expired}

abbrev pub add64 : ℕ → ℕ → ℕ
add64 n k = (n + k) % 18446744073709551616

-- n - k, where k is below 2 ^ 64
abbrev pub sub64 : ℕ → ℕ → ℕ
sub64 n k = (n + (18446744073709551616 - k % 18446744073709551616)) % 18446744073709551616

pub record JoinMetrics : Type 0 where
  pub left_events_received : ℕ  -- int64
  pub right_events_received : ℕ  -- int64
  pub matches_found : ℕ  -- int64
  pub left_unmatched : ℕ  -- int64
  pub right_unmatched : ℕ  -- int64
  pub state_size : ℕ  -- int64
  pub expired_events : ℕ  -- int64
  pub cleanup_runs : ℕ  -- int64

abbrev pub no_metrics : JoinMetrics
no_metrics = record {
  left_events_received = 0;
  right_events_received = 0;
  matches_found = 0;
  left_unmatched = 0;
  right_unmatched = 0;
  state_size = 0;
  expired_events = 0;
  cleanup_runs = 0;
}

-- The events of one stream, by key.
abbrev pub Table : Type 0 → Type 0
Table V = Dict String (List (StoredEvent V))

pub record JoinState (V : Type 0) : Type 0 where
  pub left_state : Table V
  pub right_state : Table V
  pub max_state_size : ℤ
  pub metrics : JoinMetrics

module _ {V : Type 0} where
  unfoldable pub new_join_state : ℤ → JoinState V
  new_join_state max_state_size = record {
    left_state = [];
    right_state = [];
    max_state_size = max_state_size;
    metrics = no_metrics;
  }

  abbrev pub or_empty : Option (List (StoredEvent V)) → List (StoredEvent V)
  or_empty none = []
  or_empty (some events) = events

  -- GetLeftEvents and GetRightEvents, on the table of the side
  unfoldable pub events_at : Table V → String → List (StoredEvent V)
  events_at table key = or_empty (get table key)

  -- len(events) - MaxStateSize, if the size is bounded and exceeded
  unfoldable pub excess : ℤ → List (StoredEvent V) → ℕ
  excess (pos zero) events = 0
  excess (pos (suc bound)) events = length events - suc bound
  excess (negsuc n) events = 0

  -- The table after an event is appended and enforceMaxStateSize has dropped the oldest.
  unfoldable pub store : ℤ → StoredEvent V → Table V → Table V
  unfolding excess events_at
  store max_state_size stored table =
      let key = stored.event.key in
      let events = events_at table key ++ stored ∷ [] in
      put table key (drop (excess max_state_size events) events)

  -- What enforceMaxStateSize takes off the size.
  pub dropped : ℤ → StoredEvent V → Table V → ℕ
  unfolding excess events_at
  dropped max_state_size stored table =
      excess max_state_size (events_at table stored.event.key ++ stored ∷ [])

  abbrev pub new_stored : Side → ℤ → Event V → ℤ → StoredEvent V
  new_stored side now event expires_at = record {
    event = event;
    side = side;
    stored_at = now;
    expires_at = expires_at;
    match_count = 0;
  }

  -- AddLeftEvent
  unfoldable pub add_left_event : ℤ → Event V → ℤ → JoinState V → JoinState V
  unfolding store dropped
  add_left_event now event expires_at js =
      let stored = new_stored left_side now event expires_at in
      record js {
        left_state = store js.max_state_size stored js.left_state;
        metrics = record (js.metrics) {
          left_events_received = add64 js.metrics.left_events_received 1;
          state_size =
              sub64 (add64 js.metrics.state_size 1)
                (dropped js.max_state_size stored js.left_state);
        };
      }

  -- AddRightEvent
  unfoldable pub add_right_event : ℤ → Event V → ℤ → JoinState V → JoinState V
  unfolding store dropped
  add_right_event now event expires_at js =
      let stored = new_stored right_side now event expires_at in
      record js {
        right_state = store js.max_state_size stored js.right_state;
        metrics = record (js.metrics) {
          right_events_received = add64 js.metrics.right_events_received 1;
          state_size =
              sub64 (add64 js.metrics.state_size 1)
                (dropped js.max_state_size stored js.right_state);
        };
      }

  -- The loop of removeExpiredFromSide over the events of one key.
  pub expired_of : ℤ → List (StoredEvent V) → List (StoredEvent V)
  unfolding is_expired
  expired_of now [] = []
  expired_of now (stored ∷ events) =
      let rest = expired_of now events in if is_expired now stored then stored ∷ rest else rest

  pub kept_of : ℤ → List (StoredEvent V) → List (StoredEvent V)
  unfolding is_expired
  kept_of now [] = []
  kept_of now (stored ∷ events) =
      let rest = kept_of now events in if is_expired now stored then rest else stored ∷ rest

  abbrev pub keep_key : String → List (StoredEvent V) → Table V → Table V
  keep_key key [] table = table
  keep_key key (stored ∷ events) table = (key, stored ∷ events) ∷ table

  -- removeExpiredFromSide: the table that is left and the events that it returns.
  pub remove_expired : ℤ → Table V → Table V × List (StoredEvent V)
  unfolding expired_of kept_of
  remove_expired now [] = ([], [])
  remove_expired now ((key, events) ∷ table) =
      let (left, expired) = remove_expired now table in
      (keep_key key (kept_of now events) left, expired_of now events ++ expired)

  -- RemoveExpiredEvents
  unfoldable pub remove_expired_events :
      ℤ → JoinState V → JoinState V × List (StoredEvent V) × List (StoredEvent V)
  unfolding remove_expired
  remove_expired_events now js =
      let (left_state, left) = remove_expired now js.left_state in
      let (right_state, right) = remove_expired now js.right_state in
      (
        record js {
          left_state = left_state;
          right_state = right_state;
          metrics = record (js.metrics) {
            state_size = sub64 (sub64 js.metrics.state_size (length left)) (length right);
            expired_events = add64 js.metrics.expired_events (length left + length right);
            cleanup_runs = add64 js.metrics.cleanup_runs 1;
          };
        },
        left,
        right,
      )

  -- Clear
  unfoldable pub clear : JoinState V → JoinState V
  clear js = record js {
    left_state = [];
    right_state = [];
    metrics = record (js.metrics) { state_size = 0 };
  }

  abbrev pub table_size : Table V → ℕ
  table_size [] = 0
  table_size ((key, events) ∷ table) = length events + table_size table

  -- Size
  pub size : JoinState V → ℕ
  size js = table_size js.left_state + table_size js.right_state
