-- ===== src/Window/Operator/Firing.antt =====
-- What a watermark makes an operator emit, with each of the program's triggers and with one that
-- purges.
use mathlib.Core.List.{append_assoc, append-nil}
use gress.Common.{
  ◌≡◌, refl, ◌∙◌, String, true, Option, none, some, List, [], ◌∷◌, ◌++◌, if◌then◌else◌, ℤ, leb_ℤ,
  ◌≤ℤ◌, arith, Bool-cases, Option-cases, inl, inr, string_key,
}
use gress.Common.Dict.{Dict, get}
use gress.Stream.{Event, Window}
use gress.Window.Assign.{assign_windows}
use gress.Window.Trigger.{Trigger, event_time_trigger, processing_time_trigger, has_ended}
use gress.Window.Operator.{
  Format, WindowState, WindowOperator, window_key, process, process_windows, process_window, purges,
  fires, fire_window, on_watermark, fire_ended, state_or_new,
}

has_ended_leb : (t : ℤ) (w : Window) → has_ended t w ≡ leb_ℤ w.end t
unfolding has_ended
has_ended_leb t w = ground arith

-- Those of the results whose event time is at or before the time.
abbrev pub up_to : {A : Type 0} → ℤ → List (Event A) → List (Event A)
up_to t [] = []
up_to t (event ∷ events) =
    let rest = up_to t events in if leb_ℤ event.event_time t then event ∷ rest else rest

module _ {V A : Type 0} (format : Format) where
  -- The results of the windows that end at or before the watermark, in the order of the table.
  abbrev pub ended : ℤ → Dict String (WindowState V A) → List (Event A)
  ended watermark [] = []
  ended watermark ((key, state) ∷ windows) =
      let rest = ended watermark windows in
      if leb_ℤ state.window.end watermark then fire_window format key state ∷ rest else rest

  fire_ended-ended :
      (watermark : ℤ) (windows : Dict String (WindowState V A)) (results : List (Event A))
      → fire_ended format event_time_trigger watermark windows tt results
        ≡ some (tt, results ++ ended watermark windows)
  unfolding fire_ended
  fire_ended-ended watermark [] results = rw append-nil
  fire_ended-ended watermark ((key, state) ∷ windows) results =
      rw (has_ended_leb watermark state.window)
        (elim (Bool-cases (leb_ℤ state.window.end watermark)) [
          | inl e ↦ rw e (
              fire_ended-ended watermark windows (results ++ fire_window format key state ∷ [])
              ∙ rw append_assoc)
          | inr e ↦ rw e (fire_ended-ended watermark windows results)
        ])

  -- With the event-time trigger a watermark emits the result of every window that ends at or before
  -- it, in the order of the table, and of no other, and leaves the operator as it is.
  pub on_watermark-ended :
      (watermark : ℤ) (op : WindowOperator V A event_time_trigger)
      → on_watermark format event_time_trigger watermark op ≡ some (op, ended watermark op.windows)
  unfolding on_watermark
  on_watermark-ended watermark op = rw (fire_ended-ended watermark op.windows [])

  up_to-ended :
      (t u : ℤ) (windows : Dict String (WindowState V A))
      → t ≤ℤ u
      → up_to t (ended u windows) ≡ ended t windows
  unfolding fire_window
  up_to-ended t u [] h = refl
  up_to-ended t u ((key, state) ∷ windows) h = ground (arith, up_to-ended t u windows h)

  pub on_watermark_again :
      (t u : ℤ) (op : WindowOperator V A event_time_trigger)
      → t ≤ℤ u
      → (results : List (Event A)) × (on_watermark format event_time_trigger u op
          ≡ some (op, results))
        × (on_watermark format event_time_trigger t op ≡ some (op, up_to t results))
  on_watermark_again t u op h = (
    ended u op.windows,
    on_watermark-ended u op,
    rw (up_to-ended t u op.windows h) (on_watermark-ended t op),
  )

  module _ (T : Trigger V) where
    fire_ended_blocks :
        (watermark : ℤ) (before after : Dict String (WindowState V A)) (key : String)
        (state : WindowState V A) (s : T.State) (results : List (Event A))
        → ((s : T.State) → purges (T.on_event_time watermark state.window s).1 ≡ true)
        → fire_ended format T watermark (before ++ (key, state) ∷ after) s results ≡ none
    unfolding fire_ended
    fire_ended_blocks watermark [] after key state s results purging = rw (purging s)
    fire_ended_blocks watermark ((k, st) ∷ before) after key state s results purging = ground (
      arith,
      fire_ended_blocks watermark before after key state (T.on_event_time watermark st.window s).0
          (if fires (T.on_event_time watermark st.window s).1
            then results ++ fire_window format k st ∷ []
            else results)
          purging,
    )

    -- If the trigger answers a watermark for some window by FireAndPurge, OnWatermark does not
    -- return: it holds the lock for reading that purgeWindow then waits for.
    pub on_watermark_blocks :
        (watermark : ℤ) (op : WindowOperator V A T) (before after : Dict String (WindowState V A))
        (key : String) (state : WindowState V A)
        → op.windows ≡ before ++ (key, state) ∷ after
        → ((s : T.State) → purges (T.on_event_time watermark state.window s).1 ≡ true)
        → on_watermark format T watermark op ≡ none
    unfolding on_watermark
    on_watermark_blocks watermark op before after key state e purging =
        rw e (rw (fire_ended_blocks watermark before after key state op.trigger_state [] purging))

module _ {V A Err : Type 0} (nil : A) (aggregate : A → Event V → A × Option Err)
    (format : Format) where
  process_window_silent :
      (event : Event V) (window : Window) (op : WindowOperator V A processing_time_trigger)
      → (process_window nil aggregate format processing_time_trigger event window op).1 ≡ []
  unfolding process_window
  process_window_silent event window op =
      let key = window_key format event.key window in
      let state = state_or_new nil window (get op.windows key) in
      elim (Option-cases (aggregate state.accumulator event).1) [
        | inl e ↦ rw (e, process_window)
        | inr (x, e) ↦ rw (e, process_window)
      ]

  silent :
      (event : Event V) (windows : List Window) (op : WindowOperator V A processing_time_trigger)
      → (process_windows nil aggregate format processing_time_trigger event windows op []).1 ≡ []
  unfolding process_windows
  silent event [] op = refl
  silent event (window ∷ windows) op =
      let key = window_key format event.key window in
      let state = state_or_new nil window (get op.windows key) in
      elim (Option-cases (aggregate state.accumulator event).1) [
        | inl e ↦
            rw (e, process_windows)
              (rw (process_window_silent event window op) (
                silent event windows
                  (process_window nil aggregate format processing_time_trigger event window op).0))
        | inr (x, e) ↦ rw (e, process_windows)
      ]

  fire_ended_silent :
      (watermark : ℤ) (windows : Dict String (WindowState V A))
      → fire_ended format processing_time_trigger watermark windows tt [] ≡ some (tt, [])
  unfolding fire_ended
  fire_ended_silent watermark [] = refl
  fire_ended_silent watermark ((key, state) ∷ windows) = fire_ended_silent watermark windows

  -- With the processing-time trigger the operator never emits anything, neither when an event comes
  -- nor at a watermark: nothing calls OnProcessingTime.
  pub processing_time_never_fires :
      (now watermark : ℤ) (event : Event V) (op : WindowOperator V A processing_time_trigger)
      → ((process nil aggregate format processing_time_trigger now event op).1 ≡ [])
        × (on_watermark format processing_time_trigger watermark op ≡ some (op, []))
  unfolding process on_watermark
  processing_time_never_fires now watermark event op = (
    silent event (assign_windows now event op.assigner) op,
    rw (fire_ended_silent watermark op.windows),
  )
