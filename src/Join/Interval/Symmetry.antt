-- ===== src/Join/Interval/Symmetry.antt =====
-- The two sides of an interval join agree on which events belong together.
use gress.Common.{
  ◌+◌, ◌≡◌, refl, ap, ◌∙◌, sym, Bool, false, some, List, [], ◌∷◌, ◌++◌, ℤ, pos, negsuc, ◌+ℤ◌,
  +ℤ_parts, ◌≤ℤ◌, ◌<ℤ◌, arith, string_key, leb_ℤ, ◌&&◌, pos_part, neg_part,
}
use text.Mathlib.TextEquality.{eq_iff}
use gress.Common.Dict.{get}
use gress.Stream.{Event}
use gress.Join.Config.{JoinConfig, JoinResult, left_side, right_side, inner_join, keeps_right}
use gress.Join.State.{new_join_state, add_left_event, add_right_event, events_at, store, new_stored}
use gress.Join.Operator.{neg64, create_join_result, scan_key, scan}
use gress.Join.Operator.Reference.{Holds, Holds-store, Holds-scan_key, pairs, of_key, events_of}
use gress.Join.Interval.{
  is_between, is_within_interval, is_left_event_valid, matches_right, matches_left, process_left,
  process_right,
}

-- Where b is not the least duration, t + (-b) is t - b.
add_neg64 :
    (t b : ℤ)
    → negsuc 9223372036854775807 <ℤ b
    → pos_part (t +ℤ neg64 b) + neg_part t + pos_part b
      ≡ neg_part (t +ℤ neg64 b) + pos_part t + neg_part b
add_neg64 t b h = ground (arith, h, +ℤ_parts t (neg64 b))

between_tests :
    (time least greatest : ℤ)
    → is_between time least greatest ≡ (leb_ℤ least time && leb_ℤ time greatest)
between_tests time least greatest = ground arith

below_shift :
    (l r upper : ℤ)
    → negsuc 9223372036854775807 <ℤ upper
    → leb_ℤ (r +ℤ neg64 upper) l ≡ leb_ℤ r (l +ℤ upper)
below_shift l r upper k = ground (arith, add_neg64 r upper k, +ℤ_parts l upper)

above_shift :
    (l r lower : ℤ)
    → negsuc 9223372036854775807 <ℤ lower
    → leb_ℤ l (r +ℤ neg64 lower) ≡ leb_ℤ (l +ℤ lower) r
above_shift l r lower h = ground (arith, add_neg64 r lower h, +ℤ_parts l lower)

and_swap : (a b : Bool) → (a && b) ≡ (b && a)
and_swap a b = ground arith

between_sides :
    (l r lower upper : ℤ)
    → negsuc 9223372036854775807 <ℤ lower
    → negsuc 9223372036854775807 <ℤ upper
    → is_between l (r +ℤ neg64 upper) (r +ℤ neg64 lower) ≡ is_between r (l +ℤ lower) (l +ℤ upper)
between_sides l r lower upper h k = rw (between_tests l (r +ℤ neg64 upper) (r +ℤ neg64 lower)) (
    rw (between_tests r (l +ℤ lower) (l +ℤ upper)) (
      rw (below_shift l r upper k)
        (rw (above_shift l r lower h) (and_swap (leb_ℤ r (l +ℤ upper)) (leb_ℤ (l +ℤ lower) r)))))

Holds-nil : (V : Type 0) → Holds {V = V} [] []
unfolding Holds events_at get events_of
Holds-nil V key = refl

module _ {V : Type 0} (config : JoinConfig) (condition : Event V → Event V → Bool) where
  -- A right event accepts a left one exactly when the left one accepts the right one, for bounds other
  -- than the least duration.
  pub matches_left-eq-matches_right :
      (left right : Event V)
      → negsuc 9223372036854775807 <ℤ config.lower_bound
      → negsuc 9223372036854775807 <ℤ config.upper_bound
      → matches_left config condition right left ≡ matches_right config condition left right
  unfolding matches_left matches_right is_within_interval is_left_event_valid
  matches_left-eq-matches_right left right h k =
      ap (λ b. b && condition left right)
        (between_sides left.event_time right.event_time config.lower_bound config.upper_bound h k)

  -- The results of two events that a new operator processes one after the other.
  pub left_first : ℤ → Event V → Event V → List (JoinResult V)
  unfolding process_left process_right
  left_first bound left right =
      let (js, results) = process_left config condition (pos 0) left (new_join_state bound) in
      results ++ (process_right config condition (pos 0) right js).1

  pub right_first : ℤ → Event V → Event V → List (JoinResult V)
  unfolding process_left process_right
  right_first bound left right =
      let (js, results) = process_right config condition (pos 0) right (new_join_state bound) in
      results ++ (process_left config condition (pos 0) left js).1

  keeps_none : config.kind ≡ inner_join → keeps_right config.kind ≡ false
  keeps_none e = rw e refl

  one_left :
      (left right : Event V) (bound : ℤ)
      → config.kind ≡ inner_join
      → bound ≤ℤ pos 0
      → left_first bound left right
        ≡ pairs
            (matches_left config condition right)
            (λ l. create_join_result (some l) (some right))
            (of_key right.key (left ∷ []))
  unfolding left_first process_left process_right add_left_event scan_key events_at new_join_state
      get scan
  one_left left right bound inner b = rw (keeps_none inner) (
      (Holds-scan_key (matches_left config condition right)
        (λ l. create_join_result (some l) (some right)) right.key
        (store bound
          (new_stored left_side (pos 0) left
            (left.event_time +ℤ config.upper_bound +ℤ config.allowed_lateness))
          [])
        (left ∷ [])
        (Holds-store bound
          (new_stored left_side (pos 0) left
            (left.event_time +ℤ config.upper_bound +ℤ config.allowed_lateness))
          [] [] b (Holds-nil V))).1)

  one_right :
      (left right : Event V) (bound : ℤ)
      → config.kind ≡ inner_join
      → bound ≤ℤ pos 0
      → right_first bound left right
        ≡ pairs
            (matches_right config condition left)
            (λ r. create_join_result (some left) (some r))
            (of_key left.key (right ∷ []))
  unfolding right_first process_left process_right add_right_event scan_key events_at new_join_state
      get scan
  one_right left right bound inner b = rw (keeps_none inner) (
      (Holds-scan_key (matches_right config condition left)
        (λ r. create_join_result (some left) (some r)) left.key
        (store bound
          (new_stored right_side (pos 0) right (right.event_time +ℤ config.state_retention)) [])
        (right ∷ [])
        (Holds-store bound
          (new_stored right_side (pos 0) right (right.event_time +ℤ config.state_retention)) [] [] b
          (Holds-nil V))).1)

  -- An inner interval join of one event of each stream has the same results in both orders, with no
  -- bound on the state and interval bounds other than the least duration.
  pub left_first-eq-right_first :
      (left right : Event V) (bound : ℤ)
      → negsuc 9223372036854775807 <ℤ config.lower_bound
      → negsuc 9223372036854775807 <ℤ config.upper_bound
      → config.kind ≡ inner_join
      → bound ≤ℤ pos 0
      → left_first bound left right ≡ right_first bound left right
  left_first-eq-right_first left right bound h k inner b =
      one_left left right bound inner b
      ∙ (ground (
        arith,
        matches_left-eq-matches_right left right h k,
        eq_iff left.key right.key,
        eq_iff right.key left.key,
      )
          ∙ sym (one_right left right bound inner b))
