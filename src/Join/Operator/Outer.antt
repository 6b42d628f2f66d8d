-- ===== src/Join/Operator/Outer.antt =====
-- What an outer join emits for an event whose match comes later.
use text.Mathlib.TextEquality.{eq_iff}
use gress.Common.{◌≡◌, ◌∙◌, true, none, some, [], ◌∷◌, ℤ, pos, ◌≤ℤ◌, Bool, arith, string_key}
use gress.Stream.{Event}
use gress.Join.Config.{JoinConfig, hash_join, left_outer_join}
use gress.Join.State.{new_join_state}
use gress.Join.Operator.{matches_condition, create_join_result}
use gress.Join.Operator.Reference.{on_left, on_right, run, expected, run-expected}

module _ {V : Type 0} (config : JoinConfig) (condition : Event V → Event V → Bool) where
  expected_later :
      (now later : ℤ) (left right : Event V)
      → config.kind ≡ left_outer_join
      → left.key ≡ right.key
      → matches_condition config condition left right ≡ true
      → expected config condition [] [] (on_left now left ∷ on_right later right ∷ [])
        ≡ create_join_result (some left) none ∷ create_join_result (some left) (some right) ∷ []
  unfolding expected
  expected_later now later left right outer same match =
      ground (arith, outer, same, match, eq_iff left.key right.key)

  -- A left outer hash join without a bound on the state emits a left event alone when it comes, and
  -- once more, paired, when a right event that matches it comes later.
  pub run_later_match :
      (now later : ℤ) (left right : Event V) (bound : ℤ)
      → config.strategy ≡ hash_join
      → bound ≤ℤ pos 0
      → config.kind ≡ left_outer_join
      → left.key ≡ right.key
      → matches_condition config condition left right ≡ true
      → run config condition (on_left now left ∷ on_right later right ∷ []) (new_join_state bound)
        ≡ create_join_result (some left) none ∷ create_join_result (some left) (some right) ∷ []
  run_later_match now later left right bound hash unbounded outer same match =
      run-expected config condition (on_left now left ∷ on_right later right ∷ []) bound hash
        unbounded
      ∙ expected_later now later left right outer same match
