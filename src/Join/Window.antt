-- ===== src/Join/Window.antt =====
-- pkg/join/window_join.go: WindowJoinOperator. It tells events apart by their pointers, which are
-- numbers here; `event` is what stands at a pointer, and no event changes.
pub mod Pairs
pub mod Complete
pub mod Fired
mod Tests
use gress.Common.{
  ℕ, String, Bool, true, false, ◌&&◌, ◌||◌, not, Option, none, some, List, [], ◌∷◌, ◌++◌, map, ◌==◌,
  if◌then◌else◌, ℤ, ltb_ℤ, eqb_ℤ, string_key,
}
use gress.Common.Dict.{Dict, get, put}
use gress.Stream.{Event, Window}
use gress.Window.Assign.{Assigner, assign_windows}
use gress.Window.Operator.{Format, window_key}
use gress.Join.Config.{
  JoinType, JoinResult, Joined, keeps_left, keeps_right, to_event, Side, left_side, right_side,
}

-- A JoinResult, by the pointers of its events.
pub record PointerResult : Type 0 where
  pub left : Option ℕ
  pub right : Option ℕ
  pub event_time : ℤ
  pub join_key : String

-- A result in Matches: both events are there.
pub record Match : Type 0 where
  pub left : ℕ
  pub right : ℕ
  pub event_time : ℤ
  pub join_key : String

pub record WindowJoinState : Type 0 where
  pub window : Window
  pub left_events : List ℕ
  pub right_events : List ℕ
  pub matches : List Match
  pub fired : Bool

abbrev pub state_or_new : Window → Option WindowJoinState → WindowJoinState
state_or_new window none = record {
  window = window;
  left_events = [];
  right_events = [];
  matches = [];
  fired = false;
}
state_or_new window (some state) = state

-- The set of matched events: is the pointer among the left, or the right, events of the matches?
abbrev pub is_matched_left : List Match → ℕ → Bool
is_matched_left [] p = false
is_matched_left (m ∷ matches) p = m.left == p || is_matched_left matches p

abbrev pub is_matched_right : List Match → ℕ → Bool
is_matched_right [] p = false
is_matched_right (m ∷ matches) p = m.right == p || is_matched_right matches p

abbrev pub matched_result : Match → PointerResult
matched_result m = record {
  left = some m.left;
  right = some m.right;
  event_time = m.event_time;
  join_key = m.join_key;
}

-- OnWatermark's test of a window.
abbrev pub should_fire : ℤ → WindowJoinState → Bool
should_fire watermark state =
    not state.fired && (ltb_ℤ state.window.end watermark || eqb_ℤ watermark state.window.end)

module _ {V : Type 0} (event : ℕ → Event V) where
  abbrev pub alone_left : ℤ → ℕ → PointerResult
  alone_left end p = record {
    left = some p;
    right = none;
    event_time = end;
    join_key = (event p).key;
  }

  abbrev pub alone_right : ℤ → ℕ → PointerResult
  alone_right end p = record {
    left = none;
    right = some p;
    event_time = end;
    join_key = (event p).key;
  }

  -- The loops of fireWindow over the events of a side.
  abbrev pub unmatched_left : ℤ → List Match → List ℕ → List PointerResult
  unmatched_left end matches [] = []
  unmatched_left end matches (p ∷ ps) =
      let rest = unmatched_left end matches ps in
      if not (is_matched_left matches p) then alone_left end p ∷ rest else rest

  abbrev pub unmatched_right : ℤ → List Match → List ℕ → List PointerResult
  unmatched_right end matches [] = []
  unmatched_right end matches (p ∷ ps) =
      let rest = unmatched_right end matches ps in
      if not (is_matched_right matches p) then alone_right end p ∷ rest else rest

  -- The results of fireWindow before ToEvent
  pub window_results : JoinType → WindowJoinState → List PointerResult
  window_results kind state =
      map matched_result state.matches
      ++ ((if keeps_left kind
            then unmatched_left state.window.end state.matches state.left_events
            else [])
          ++ (if keeps_right kind
              then unmatched_right state.window.end state.matches state.right_events
              else []))

  abbrev pub event_at : Option ℕ → Option (Event V)
  event_at none = none
  event_at (some p) = some (event p)

  abbrev pub join_result : PointerResult → JoinResult V
  join_result r = record {
    left = event_at r.left;
    right = event_at r.right;
    event_time = r.event_time;
    join_key = r.join_key;
  }

  module _ (kind : JoinType) (condition : Event V → Event V → Bool) (assigner : Assigner)
      (format : Format) where
    -- fireWindow
    pub fire_window : WindowJoinState → List (Event (Joined V))
    unfolding window_results
    fire_window state = map (λ r. to_event format.time (join_result r)) (window_results kind state)

    -- The loops of matchInWindow
    abbrev pub match_left : ℤ → ℕ → List ℕ → List Match
    match_left end p [] = []
    match_left end p (q ∷ rights) =
        let rest = match_left end p rights in
        if condition (event p) (event q)
        then record { left = p; right = q; event_time = end; join_key = (event p).key } ∷ rest
        else rest

    abbrev pub match_right : ℤ → ℕ → List ℕ → List Match
    match_right end p [] = []
    match_right end p (q ∷ lefts) =
        let rest = match_right end p lefts in
        if condition (event q) (event p)
        then record { left = q; right = p; event_time = end; join_key = (event p).key } ∷ rest
        else rest

    -- The body of the loops of ProcessLeft and ProcessRight: the event is added and matched.
    abbrev pub add_to : Side → ℕ → WindowJoinState → WindowJoinState
    add_to left_side p state = record state {
      left_events = state.left_events ++ p ∷ [];
      matches = state.matches ++ match_left state.window.end p state.right_events;
    }
    add_to right_side p state = record state {
      right_events = state.right_events ++ p ∷ [];
      matches = state.matches ++ match_right state.window.end p state.left_events;
    }

    pub process_windows :
        Side → ℕ → List Window → Dict String WindowJoinState → Dict String WindowJoinState
    process_windows side p [] states = states
    process_windows side p (window ∷ windows) states =
        let key = window_key format (event p).key window in
        process_windows side p windows
          (put states key (add_to side p (state_or_new window (get states key))))

    -- ProcessLeft and ProcessRight; `now` is the reading of the clock.
    pub process_left : ℤ → ℕ → Dict String WindowJoinState → Dict String WindowJoinState
    unfolding process_windows
    process_left now p states =
        process_windows left_side p (assign_windows now (event p) assigner) states

    pub process_right : ℤ → ℕ → Dict String WindowJoinState → Dict String WindowJoinState
    unfolding process_windows
    process_right now p states =
        process_windows right_side p (assign_windows now (event p) assigner) states

    -- OnWatermark, with the windows in the order in which the map is visited: the windows that are
    -- left, and the results.
    pub on_watermark :
        ℤ → Dict String WindowJoinState → Dict String WindowJoinState × List (Event (Joined V))
    unfolding fire_window
    on_watermark watermark [] = ([], [])
    on_watermark watermark ((key, state) ∷ states) =
        let (left, results) = on_watermark watermark states in
        if should_fire watermark state
        then (left, fire_window state ++ results)
        else ((key, state) ∷ left, results)
