-- ===== src/Watermark.antt =====
-- pkg/watermark/manager.go: Manager. Each method holds the manager's lock, so that methods follow
-- one another. The output channel is a buffered queue with a capacity; a send that finds it full
-- is skipped, as in the source's select with a default.
pub mod Lateness
pub mod Global
pub mod Idle
mod Tests
use gress.Common.{
  ℕ, Bool, true, false, ◌&&◌, ◌||◌, Option, none, some, List, [], ◌∷◌, ◌++◌, ltb, if◌then◌else◌, ℤ,
  pos, ◌-ℤ◌, ◌+ℤ◌, ltb_ℤ, length, zero_time, is_zero, sub_time, int_key, negsuc,
}
use gress.Common.Dict.{Dict, get, put}
use gress.Stream.{Event, Watermark}

pub record Manager : Type 0 where
  pub partition_marks : Dict ℤ ℤ
  pub global_watermark : ℤ
  pub idle_timeout : ℤ
  pub last_event_time : Dict ℤ ℤ
  pub interval : ℤ

-- NewManager
pub new_manager : ℤ → Manager
new_manager interval = record {
  partition_marks = [];
  global_watermark = zero_time;
  idle_timeout = pos 30000000000;
  last_event_time = [];
  interval = interval;
}

-- !exists || watermarkTime.After(current)
abbrev pub advances : ℤ → Option ℤ → Bool
advances mark none = true
advances mark (some current) = ltb_ℤ current mark

-- eventTime.Add(-5 * time.Second)
pub mark_of : ℤ → ℤ
mark_of event_time = event_time -ℤ pos 5000000000

-- UpdateEventTime
pub update_event_time : ℤ → ℤ → Manager → Manager
update_event_time partition event_time m = record m {
  last_event_time = put m.last_event_time partition event_time;
  partition_marks =
      if advances (mark_of event_time) (get m.partition_marks partition)
      then put m.partition_marks partition (mark_of event_time)
      else m.partition_marks;
}

abbrev pub or_zero : Option ℤ → ℤ
or_zero none = zero_time
or_zero (some t) = t

-- GetPartitionWatermark
pub get_partition_watermark : ℤ → Manager → ℤ
get_partition_watermark partition m = or_zero (get m.partition_marks partition)

abbrev pub before_mark : ℤ → Option ℤ → Bool
before_mark event_time none = false
before_mark event_time (some mark) = ltb_ℤ event_time mark

-- IsLate
pub is_late : ℤ → ℤ → Manager → Bool
is_late event_time partition m = before_mark event_time (get m.partition_marks partition)

pub record Channel : Type 0 where
  pub sent : List Watermark
  pub capacity : ℕ

pub send : Watermark → Channel → Channel
send w ch = if ltb (length ch.sent) ch.capacity then record ch { sent = ch.sent ++ w ∷ [] } else ch

-- The mark of a partition after the test for idleness, whose last event was at `last`.
pub refresh : ℤ → ℤ → ℤ → ℤ → ℤ
refresh now idle_timeout last mark =
    if ltb_ℤ idle_timeout (sub_time now last) then now -ℤ idle_timeout else mark

-- minWatermark.IsZero() || watermark.Before(minWatermark)
pub lower : ℤ → ℤ → ℤ
lower least mark = if is_zero least || ltb_ℤ mark least then mark else least

-- What the loop of generateWatermarks carries: the marks, the least of them, and the channel.
pub record Scan : Type 0 where
  pub marks : Dict ℤ ℤ
  pub least : ℤ
  pub output : Channel

-- The loop of generateWatermarks over the partitions, in the order in which the map is visited.
pub scan : ℤ → ℤ → Dict ℤ ℤ → Dict ℤ ℤ → ℤ → Channel → Scan
unfolding refresh lower send
scan now idle_timeout last [] least output = record { marks = []; least = least; output = output }
scan now idle_timeout last ((partition, old) ∷ marks) least output =
    let mark = refresh now idle_timeout (or_zero (get last partition)) old in
    let later =
      scan now idle_timeout last marks (lower least mark)
        (send (record { timestamp = mark; partition = partition }) output) in
    record later { marks = (partition, mark) ∷ later.marks }

abbrev pub is_empty : Dict ℤ ℤ → Bool
is_empty [] = true
is_empty (_ ∷ _) = false

-- The end of generateWatermarks.
pub raise_global : Bool → ℤ → ℤ → ℤ
raise_global empty least global =
    if empty then global else if is_zero global || ltb_ℤ global least then least else global

-- generateWatermarks
pub generate_watermarks : ℤ → Manager → Channel → Manager × Channel
unfolding scan raise_global
generate_watermarks now m output =
    let done = scan now m.idle_timeout m.last_event_time m.partition_marks zero_time output in
    (
      record m {
        partition_marks = done.marks;
        global_watermark = raise_global (is_empty m.partition_marks) done.least m.global_watermark;
      },
      done.output,
    )

-- DropLateEvents and SideOutputLateEvents: the handler drops the event, or sends it where the side
-- channel has room; neither returns an error.
pub data LatenessHandler (V : Type 0) : Type 0 where
  drop_late : LatenessHandler V
  side_output : List (Event V) → ℕ → LatenessHandler V

pub handle_late_event : {V : Type 0} → Event V → LatenessHandler V → LatenessHandler V
handle_late_event event drop_late = drop_late
handle_late_event event (side_output sent capacity) =
    if ltb (length sent) capacity
    then side_output (sent ++ event ∷ []) capacity
    else side_output sent capacity
