-- ===== src/Join/Config.antt =====
-- pkg/join/types.go. A join's condition is a function argument of the code that uses it.
use gress.Common.{
  ℕ, String, Bool, true, false, Option, none, some, [], ◌∷◌, ℤ, pos, ltb_ℤ, string_key, ◌++◌,
}
use gress.Common.Dict.{Dict}
use gress.Stream.{Event}

pub data JoinType : Type 0 where
  inner_join left_outer_join right_outer_join full_outer_join : JoinType

pub data JoinStrategy : Type 0 where
  hash_join sort_merge_join nested_loop_join : JoinStrategy

-- JoinType.String and JoinStrategy.String
pub type_name : JoinType → String
type_name inner_join = "INNER"
type_name left_outer_join = "LEFT_OUTER"
type_name right_outer_join = "RIGHT_OUTER"
type_name full_outer_join = "FULL_OUTER"

pub strategy_name : JoinStrategy → String
strategy_name hash_join = "HASH"
strategy_name sort_merge_join = "SORT_MERGE"
strategy_name nested_loop_join = "NESTED_LOOP"

-- The tests on the type of a join by which an unmatched event is emitted.
abbrev pub keeps_left : JoinType → Bool
keeps_left left_outer_join = true
keeps_left full_outer_join = true
keeps_left _ = false

abbrev pub keeps_right : JoinType → Bool
keeps_right right_outer_join = true
keeps_right full_outer_join = true
keeps_right _ = false

pub record JoinConfig : Type 0 where
  pub kind : JoinType
  pub strategy : JoinStrategy
  pub time_window : ℤ
  pub lower_bound : ℤ
  pub upper_bound : ℤ
  pub allowed_lateness : ℤ
  pub state_retention : ℤ
  pub max_state_size : ℤ
  pub enable_cleanup : Bool
  pub cleanup_interval : ℤ

abbrev pub default_join_config : JoinConfig
default_join_config = record {
  kind = inner_join;
  strategy = hash_join;
  time_window = pos 300000000000;
  lower_bound = pos 0;
  upper_bound = pos 0;
  allowed_lateness = pos 30000000000;
  state_retention = pos 600000000000;
  max_state_size = pos 10000;
  enable_cleanup = true;
  cleanup_interval = pos 60000000000;
}

-- EqualityCondition
abbrev pub equality_condition : {V : Type 0} → Event V → Event V → Bool
equality_condition left right = string_key.beq left.key right.key

pub record JoinResult (V : Type 0) : Type 0 where
  pub left : Option (Event V)
  pub right : Option (Event V)
  pub event_time : ℤ
  pub join_key : String

-- The value of a joined event: a map with the entries "left" and "right" that are there.
pub record Joined (V : Type 0) : Type 0 where
  pub left : Option V
  pub right : Option V

abbrev pub value_of : {V : Type 0} → Option (Event V) → Option V
value_of none = none
value_of (some event) = some event.value

abbrev pub headers_of :
    {V : Type 0} → (ℤ → String) → String → String → Option (Event V) → Dict String String
headers_of format_time key_name time_name none = []
headers_of format_time key_name time_name (some event) =
    (key_name, event.key) ∷ (time_name, format_time event.event_time) ∷ []

-- JoinResult.ToEvent; `format_time` is time.Time.Format at RFC3339.
pub to_event : {V : Type 0} → (ℤ → String) → JoinResult V → Event (Joined V)
to_event format_time r = record {
  key = r.join_key;
  value = record { left = value_of r.left; right = value_of r.right };
  event_time = r.event_time;
  headers =
      headers_of format_time "left_key" "left_time" r.left
      ++ headers_of format_time "right_key" "right_time" r.right;
  offset = pos 0;
  partition = pos 0;
}

pub data Side : Type 0 where
  left_side right_side : Side

pub record StoredEvent (V : Type 0) : Type 0 where
  pub event : Event V
  pub side : Side
  pub stored_at : ℤ
  pub expires_at : ℤ
  pub match_count : ℕ

-- IsExpired
unfoldable pub is_expired : {V : Type 0} → ℤ → StoredEvent V → Bool
is_expired now stored = ltb_ℤ stored.expires_at now
