-- ===== src/Join/Window/Complete.antt =====
-- What a window of the join holds, and the results that it fires, against the pairs of its events.
use mathlib.Core.List.{Perm}
use mathlib.Core.List.Perm
use gress.Common.{
  ℕ, ◌≡◌, refl, ap, String, Bool, Option, some, List, [], ◌∷◌, ◌++◌, map, ℤ, arith, All, string_key,
  Bool-cases, inl, inr,
}
use gress.Common.Dict.{Dict, get, put}
use gress.Stream.{Event, Window}
use gress.Window.Assign.{Assigner, assign_windows}
use gress.Window.Operator.{Format, window_key}
use gress.Join.Config.{JoinType, Side, left_side, right_side}
use gress.Join.Window.{
  PointerResult, Match, WindowJoinState, state_or_new, match_left, match_right, add_to,
  process_windows, process_left, process_right, on_watermark, should_fire,
}
use gress.Join.Window.Pairs.{partners, partners_of, all_pairs, all_pairs-left, all_pairs-right}

pub map-append :
    {A B : Type 0} (f : A → B) (xs ys : List A) → map f (xs ++ ys) ≡ map f xs ++ map f ys
map-append f [] ys = refl
map-append f (x ∷ xs) ys = ap (λ zs. f x ∷ zs) (map-append f xs ys)

abbrev pub pair_of : Match → ℕ × ℕ
pair_of m = (m.left, m.right)

-- The events of a result.
abbrev pub sides : PointerResult → Option ℕ × Option ℕ
sides r = (r.left, r.right)

abbrev pub both : ℕ × ℕ → Option ℕ × Option ℕ
both (l, r) = (some l, some r)

-- A call of one of the methods that change the operator.
pub data Call : Type 0 where
  left_call right_call : ℤ → ℕ → Call
  watermark_call : ℤ → Call

module _ {V : Type 0} (event : ℕ → Event V) (kind : JoinType) (condition : Event V → Event V → Bool)
    (assigner : Assigner) (format : Format) where
  abbrev pub test : ℕ → ℕ → Bool
  test l r = condition (event l) (event r)

  unfoldable pub run_call : Call → Dict String WindowJoinState → Dict String WindowJoinState
  run_call (left_call now p) states = process_left event kind condition assigner format now p states
  run_call (right_call now p) states =
      process_right event kind condition assigner format now p states
  run_call (watermark_call watermark) states =
      (on_watermark event kind condition assigner format watermark states).0

  unfoldable pub run_calls : List Call → Dict String WindowJoinState → Dict String WindowJoinState
  run_calls [] states = states
  run_calls (c ∷ calls) states = run_calls calls (run_call c states)

  -- The matches of a window are the pairs of its events, each as often as the pair occurs.
  abbrev pub IsComplete : WindowJoinState → Type 0
  IsComplete state =
      Perm (map pair_of state.matches) (all_pairs test state.left_events state.right_events)

  match_left-partners :
      (end : ℤ) (p : ℕ) (rights : List ℕ)
      → map pair_of (match_left event kind condition assigner format end p rights)
        ≡ partners test p rights
  match_left-partners end p [] = refl
  match_left-partners end p (r ∷ rights) = ground (arith, match_left-partners end p rights)

  match_right-partners_of :
      (end : ℤ) (p : ℕ) (lefts : List ℕ)
      → map pair_of (match_right event kind condition assigner format end p lefts)
        ≡ partners_of test lefts p
  match_right-partners_of end p [] = refl
  match_right-partners_of end p (l ∷ lefts) = ground (arith, match_right-partners_of end p lefts)

  add_to-IsComplete :
      (side : Side) (p : ℕ) (state : WindowJoinState)
      → IsComplete state
      → IsComplete (add_to event kind condition assigner format side p state)
  add_to-IsComplete left_side p state h =
      rw
        (map-append pair_of state.matches
          (match_left event kind condition assigner format state.window.end p state.right_events))
        (rw (match_left-partners state.window.end p state.right_events) (
          rw (all_pairs-left test state.left_events state.right_events p)
            (Perm.append_right (partners test p state.right_events) h)))
  add_to-IsComplete right_side p state h =
      rw
        (map-append pair_of state.matches
          (match_right event kind condition assigner format state.window.end p state.left_events))
        (rw (match_right-partners_of state.window.end p state.left_events) (
          Perm.trans (Perm.append_right (partners_of test state.left_events p) h)
            (Perm.symm (all_pairs-right test state.left_events state.right_events p))))

  abbrev AllComplete : Dict String WindowJoinState → Type 0
  AllComplete states = All (λ (e : String × WindowJoinState). IsComplete e.1) states

  put-AllComplete :
      (states : Dict String WindowJoinState) (key : String) (state : WindowJoinState)
      → AllComplete states
      → IsComplete state
      → AllComplete (put states key state)
  unfolding put
  put-AllComplete [] key state h c = (c, tt)
  put-AllComplete ((j, st) ∷ states) key state h c = elim (Bool-cases (string_key.beq j key)) [
    | inl e ↦ rw e (c, h.1)
    | inr e ↦ rw e (h.0, put-AllComplete states key state h.1 c)
  ]

  get-IsComplete :
      (states : Dict String WindowJoinState) (key : String) (window : Window)
      → AllComplete states
      → IsComplete (state_or_new window (get states key))
  unfolding get
  get-IsComplete [] key window h = Perm.nil
  get-IsComplete ((j, st) ∷ states) key window h = elim (Bool-cases (string_key.beq j key)) [
    | inl e ↦ rw e h.0
    | inr e ↦ rw e (get-IsComplete states key window h.1)
  ]

  pub found-IsComplete :
      (states : Dict String WindowJoinState) (key : String) (state : WindowJoinState)
      → AllComplete states
      → get states key ≡ some state
      → IsComplete state
  found-IsComplete states key state h found =
      let held : IsComplete (state_or_new state.window (get states key)) =
        get-IsComplete states key state.window h in
      rw found at held

  process_windows-AllComplete :
      (side : Side) (p : ℕ) (windows : List Window) (states : Dict String WindowJoinState)
      → AllComplete states
      → AllComplete (process_windows event kind condition assigner format side p windows states)
  unfolding process_windows
  process_windows-AllComplete side p [] states h = h
  process_windows-AllComplete side p (window ∷ windows) states h =
      let key = window_key format (event p).key window in
      let old = state_or_new window (get states key) in
      let new = add_to event kind condition assigner format side p old in
      process_windows-AllComplete side p windows (put states key new) (
        put-AllComplete states key new h
          (add_to-IsComplete side p old (get-IsComplete states key window h)))

  on_watermark-AllComplete :
      (watermark : ℤ) (states : Dict String WindowJoinState)
      → AllComplete states
      → AllComplete (on_watermark event kind condition assigner format watermark states).0
  unfolding on_watermark
  on_watermark-AllComplete watermark [] h = tt
  on_watermark-AllComplete watermark ((key, state) ∷ states) h =
      elim (Bool-cases (should_fire watermark state)) [
        | inl e ↦ rw e (on_watermark-AllComplete watermark states h.1)
        | inr e ↦ rw e (h.0, on_watermark-AllComplete watermark states h.1)
      ]

  pub run_calls-AllComplete :
      (calls : List Call) (states : Dict String WindowJoinState)
      → AllComplete states
      → AllComplete (run_calls calls states)
  unfolding run_calls run_call process_left process_right
  run_calls-AllComplete [] states h = h
  run_calls-AllComplete (left_call now p ∷ calls) states h =
      run_calls-AllComplete calls (process_left event kind condition assigner format now p states)
        (process_windows-AllComplete left_side p (assign_windows now (event p) assigner) states h)
  run_calls-AllComplete (right_call now p ∷ calls) states h =
      run_calls-AllComplete calls (process_right event kind condition assigner format now p states)
        (process_windows-AllComplete right_side p (assign_windows now (event p) assigner) states h)
  run_calls-AllComplete (watermark_call watermark ∷ calls) states h =
      run_calls-AllComplete calls
        (on_watermark event kind condition assigner format watermark states).0
        (on_watermark-AllComplete watermark states h)
