-- ===== src/Window/Assign.antt =====
-- pkg/window/window.go: the three window assigners. An assigner that uses processing time reads the
-- clock once for each event; the reading is the argument `now`.
pub mod Tumbling
pub mod Sliding
use gress.Common.{
  ℕ, zero, suc, ◌+◌, ◌-◌, ◌%◌, Bool, true, false, List, [], ◌∷◌, if◌then◌else◌, ℤ, pos, negsuc,
  ◌+ℤ◌, ◌-ℤ◌, ltb_ℤ, leb_ℤ, pos_part,
}
use gress.Stream.{Event, Window, tumbling_window, sliding_window, session_window}

-- What t is past the last multiple of d, counted from the zero time; for 0 < d.
unfoldable pub remainder : ℤ → ℕ → ℕ
remainder (pos n) d = n % d
remainder (negsuc n) d = (d - (n + 1) % d) % d

-- time.Time.Truncate
pub truncate : ℤ → ℤ → ℤ
unfolding remainder
truncate t (pos zero) = t
truncate t (pos (suc d)) = t -ℤ pos (remainder t (suc d))
truncate t (negsuc d) = t

pub record TumblingWindowAssigner : Type 0 where
  pub size : ℤ
  pub offset : ℤ
  pub event_time : Bool

pub record SlidingWindowAssigner : Type 0 where
  pub size : ℤ
  pub slide : ℤ
  pub offset : ℤ
  pub event_time : Bool

pub record SessionWindowAssigner : Type 0 where
  pub gap : ℤ
  pub event_time : Bool

abbrev pub new_tumbling_window : ℤ → TumblingWindowAssigner
new_tumbling_window size = record { size = size; offset = pos 0; event_time = true }

abbrev pub new_sliding_window : ℤ → ℤ → SlidingWindowAssigner
new_sliding_window size slide = record {
  size = size;
  slide = slide;
  offset = pos 0;
  event_time = true;
}

abbrev pub new_session_window : ℤ → SessionWindowAssigner
new_session_window gap = record { gap = gap; event_time = true }

-- The last start of a window, by steps of `step` from `offset`, before the timestamp.
pub last_start : ℤ → ℤ → ℤ → ℤ
unfolding truncate
last_start t step offset =
    let start = truncate t step +ℤ offset in if ltb_ℤ t start then start -ℤ step else start

-- TumblingWindowAssigner.AssignWindows, at the timestamp that it has chosen
unfoldable pub tumbling_at : ℤ → TumblingWindowAssigner → Window
unfolding last_start
tumbling_at t w =
    let start = last_start t w.size w.offset in
    record { start = start; end = start +ℤ w.size; kind = tumbling_window }

-- The loop of SlidingWindowAssigner.AssignWindows. It ends by itself when a window no longer reaches
-- past the timestamp, and by its break once it has made more than 1000: `rounds` is the number of
-- windows that it may still make.
pub slide_from : ℕ → ℤ → ℤ → ℤ → ℤ → List Window
slide_from zero t size step start = []
slide_from (suc rounds) t size step start =
    let more = slide_from rounds t size step (start -ℤ step) in
    if ltb_ℤ t (start +ℤ size)
    then record { start = start; end = start +ℤ size; kind = sliding_window } ∷ more
    else []

-- SlidingWindowAssigner.AssignWindows, at the timestamp that it has chosen
unfoldable pub sliding_at : ℤ → SlidingWindowAssigner → List Window
unfolding slide_from last_start
sliding_at t w = slide_from 1001 t w.size w.slide (last_start t w.slide w.offset)

-- SessionWindowAssigner.AssignWindows, at the timestamp that it has chosen
pub session_at : ℤ → SessionWindowAssigner → Window
session_at t w = record { start = t; end = t +ℤ w.gap; kind = session_window }

-- The interface Assigner, by its three implementations.
pub data Assigner : Type 0 where
  tumbling : TumblingWindowAssigner → Assigner
  sliding : SlidingWindowAssigner → Assigner
  session : SessionWindowAssigner → Assigner

-- IsEventTime
pub is_event_time : Assigner → Bool
is_event_time (tumbling w) = w.event_time
is_event_time (sliding w) = w.event_time
is_event_time (session w) = w.event_time

-- AssignWindows
unfoldable pub assign_windows : {V : Type 0} → ℤ → Event V → Assigner → List Window
unfolding tumbling_at sliding_at session_at
assign_windows now event (tumbling w) =
    tumbling_at (if w.event_time then event.event_time else now) w ∷ []
assign_windows now event (sliding w) = sliding_at (if w.event_time then event.event_time else now) w
assign_windows now event (session w) =
    session_at (if w.event_time then event.event_time else now) w ∷ []
