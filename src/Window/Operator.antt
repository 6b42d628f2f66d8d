-- ===== src/Window/Operator.antt =====
-- pkg/window/window.go: WindowOperator. `A` is the type of an accumulator, whose value before the
-- first event is `nil`; the aggregate function returns an accumulator and perhaps an error. What
-- fmt and time.Format print is a parameter. A window's count is an int below the number of events
-- that it holds in memory, and does not overflow.
pub mod Contents
pub mod Firing
use Prim.Native.String.{◌++◌ as join}
use gress.Common.{
  ℕ, suc, ◌+◌, ◌/◌, String, Bool, true, false, ◌||◌, Option, none, some, List, [], ◌∷◌, ◌++◌,
  if◌then◌else◌, ℤ, pos, negsuc, ◌-ℤ◌, string_key,
}
use gress.Common.Dict.{Dict, get, put, remove}
use gress.Stream.{Event, Window}
use gress.Window.Assign.{Assigner, assign_windows}
use gress.Window.Trigger.{Trigger, TriggerResult, continue_, fire, purge, fire_and_purge}

-- fmt's %d, and time.Time.Format at RFC3339.
pub record Format : Type 0 where
  pub int : ℤ → String
  pub time : ℤ → String

-- Whole seconds, rounded down.
pub floor_seconds : ℤ → ℤ
floor_seconds (pos n) = pos (n / 1000000000)
floor_seconds (negsuc n) = negsuc (n / 1000000000)

-- time.Time.Unix: the zero time is 62135596800 seconds before 1970.
pub unix : ℤ → ℤ
unfolding floor_seconds
unix t = floor_seconds (t -ℤ pos 62135596800000000000)

pub record WindowState (V A : Type 0) : Type 0 where
  pub window : Window
  pub events : List (Event V)
  pub accumulator : A
  pub count : ℕ

pub record WindowOperator (V A : Type 0) (T : Trigger V) : Type 0 where
  pub assigner : Assigner
  pub trigger_state : T.State
  pub windows : Dict String (WindowState V A)

module _ (format : Format) where
  -- windowKey
  unfoldable pub window_key : String → Window → String
  unfolding unix
  window_key key window =
      join key
        (join "-" (join (format.int (unix window.start)) (join "-" (format.int (unix window.end)))))

  -- fireWindow
  pub fire_window : {V A : Type 0} → String → WindowState V A → Event A
  fire_window key state = record {
    key = key;
    value = state.accumulator;
    event_time = state.window.end;
    headers =
        ("window_start", format.time state.window.start)
        ∷ ("window_end", format.time state.window.end)
        ∷ ("window_count", format.int (pos state.count))
        ∷ [];
    offset = pos 0;
    partition = pos 0;
  }

abbrev pub fires : TriggerResult → Bool
fires fire = true
fires fire_and_purge = true
fires _ = false

abbrev pub purges : TriggerResult → Bool
purges fire_and_purge = true
purges _ = false

module _ {V A : Type 0} where
  -- The state of a window, which is made if it is not there.
  abbrev pub state_or_new : A → Window → Option (WindowState V A) → WindowState V A
  state_or_new nil window none = record {
    window = window;
    events = [];
    accumulator = nil;
    count = 0;
  }
  state_or_new nil window (some state) = state

  -- Append the event, count it, and store the accumulator that the aggregate function returns.
  abbrev pub add_event : Event V → A → WindowState V A → WindowState V A
  add_event event accumulator state = record state {
    events = state.events ++ event ∷ [];
    count = state.count + 1;
    accumulator = accumulator;
  }

  abbrev pub drop_if : Bool → String → Dict String (WindowState V A) → Dict String (WindowState V A)
  drop_if purged key windows = if purged then remove windows key else windows

-- NewWindowOperator
pub new_operator : {V A : Type 0} {T : Trigger V} → Assigner → T.State → WindowOperator V A T
new_operator assigner s = record { assigner = assigner; trigger_state = s; windows = [] }

module _ {V A Err : Type 0} (nil : A) (aggregate : A → Event V → A × Option Err) (format : Format)
    (T : Trigger V) where
  -- What Process does with one window: the operator, the results, and the error that ends the loop.
  pub process_window :
      Event V → Window → WindowOperator V A T → WindowOperator V A T × List (Event A) × Option Err
  process_window event window op =
      let key = window_key format event.key window in
      let state = state_or_new nil window (get op.windows key) in
      let (accumulator, err) = aggregate state.accumulator event in
      let added = add_event event accumulator state in
      let stored = put op.windows key added in
      let (s, result) = T.on_element event window op.trigger_state in
      elim err [
        | some e ↦ (record op { windows = stored }, [], some e)
        | none ↦ (
          record op { trigger_state = s; windows = drop_if (purges result) key stored },
          if fires result then fire_window format key added ∷ [] else [],
          none,
        )
      ]

  -- The loop of Process: an error ends it and the results so far are lost.
  pub process_windows :
      Event V
      → List Window
      → WindowOperator V A T
      → List (Event A)
      → WindowOperator V A T × List (Event A) × Option Err
  unfolding process_window
  process_windows event [] op results = (op, results, none)
  process_windows event (window ∷ windows) op results =
      let (op', more, err) = process_window event window op in
      elim err [
        | some e ↦ (op', [], some e)
        | none ↦ process_windows event windows op' (results ++ more)
      ]

  -- Process
  pub process :
      ℤ → Event V → WindowOperator V A T → WindowOperator V A T × List (Event A) × Option Err
  unfolding process_windows
  process now event op = process_windows event (assign_windows now event op.assigner) op []

module _ {V A : Type 0} (format : Format) (T : Trigger V) where
  -- The loop of OnWatermark over the windows, in the order in which the map is visited. purgeWindow
  -- takes the lock that OnWatermark holds: `none` is a call that does not return.
  pub fire_ended :
      ℤ
      → Dict String (WindowState V A)
      → T.State
      → List (Event A)
      → Option (T.State × List (Event A))
  fire_ended watermark [] s results = some (s, results)
  fire_ended watermark ((key, state) ∷ windows) s results =
      let (s', result) = T.on_event_time watermark state.window s in
      let later =
        fire_ended watermark windows s'
          (if fires result then results ++ fire_window format key state ∷ [] else results) in
      if purges result then none else later

  abbrev pub with_trigger :
      WindowOperator V A T
      → Option (T.State × List (Event A))
      → Option (WindowOperator V A T × List (Event A))
  with_trigger op none = none
  with_trigger op (some (s, results)) = some (record op { trigger_state = s }, results)

  -- OnWatermark
  pub on_watermark : ℤ → WindowOperator V A T → Option (WindowOperator V A T × List (Event A))
  unfolding fire_ended
  on_watermark watermark op = with_trigger op (fire_ended watermark op.windows op.trigger_state [])

-- GetState
abbrev pub accumulators : {V A : Type 0} → Dict String (WindowState V A) → Dict String A
accumulators [] = []
accumulators ((key, state) ∷ windows) = (key, state.accumulator) ∷ accumulators windows

pub get_state : {V A : Type 0} {T : Trigger V} → WindowOperator V A T → Dict String A
get_state op = accumulators op.windows

abbrev pub restore_one :
    {V A : Type 0}
    → String
    → A
    → Option (WindowState V A)
    → Dict String (WindowState V A)
    → Dict String (WindowState V A)
restore_one key accumulator none windows = windows
restore_one key accumulator (some state) windows =
    put windows key (record state { accumulator = accumulator })

-- RestoreState: an accumulator of a window that is not there is passed over.
pub restore_windows :
    {V A : Type 0} → Dict String A → Dict String (WindowState V A) → Dict String (WindowState V A)
restore_windows [] windows = windows
restore_windows ((key, accumulator) ∷ state) windows =
    restore_windows state (restore_one key accumulator (get windows key) windows)

pub restore_state :
    {V A : Type 0} {T : Trigger V} → Dict String A → WindowOperator V A T → WindowOperator V A T
unfolding restore_windows
restore_state state op = record op { windows = restore_windows state op.windows }
