-- ===== src/Cep/Value.antt =====
-- pkg/cep: the values of an event and their comparisons in engine.go and pattern.go. An interface{}
-- value has one of the types that the code tests for, or is a bool. Floating-point numbers and the
-- functions of fmt are parameters.
use Prim.Native.Char.{code}
use gress.Common.{
  ℕ, String, Bool, true, false, ◌&&◌, ◌||◌, not, Option, none, some, List, [], ◌∷◌, ltb, ◌==◌,
  if◌then◌else◌, codes, ℤ, pos, negsuc, ltb_ℤ, eqb_ℤ, string_key,
}
use gress.Common.Dict.{Dict}

-- What the code uses of float64 and fmt: the order and equality of floats, the conversion of an
-- integer, the float that Sscanf reads from a text, the name `event_%d` and the identifier `%s-%d` that
-- Sprintf makes, and a number of events over the minutes of a duration.
pub record Floats : Type 1 where
  pub F : Type 0
  pub zero : F
  pub less : F → F → Bool
  pub equal : F → F → Bool
  pub of_int : ℤ → F
  pub scan : String → F
  pub event_name : ℕ → String
  pub rate : ℕ → ℤ → F
  pub match_id : String → ℤ → String

pub data Value (F : Type 0) : Type 0 where
  string_value : String → Value F
  float_value : F → Value F
  int_value : ℤ → Value F
  int64_value : ℤ → Value F
  time_value : ℤ → Value F
  bool_value : Bool → Value F

abbrev pub EventMap : Type 0 → Type 0
EventMap F = Dict String (Value F)

-- The type assertions of an entry of an event.
abbrev pub as_string : {F : Type 0} → Option (Value F) → Option String
as_string (some (string_value s)) = some s
as_string _ = none

abbrev pub as_time : {F : Type 0} → Option (Value F) → Option ℤ
as_time (some (time_value t)) = some t
as_time _ = none

abbrev pub eq_bool : Bool → Bool → Bool
eq_bool true b = b
eq_bool false b = not b

-- The order of texts by their bytes, for ASCII texts.
abbrev pub less_codes : List ℕ → List ℕ → Bool
less_codes xs [] = false
less_codes [] (y ∷ ys) = true
less_codes (x ∷ xs) (y ∷ ys) = ltb x y || (x == y && less_codes xs ys)

-- The result of compareValues: -1, 0 or 1.
abbrev pub order : Bool → Bool → ℤ
order less greater = if less then negsuc 0 else if greater then pos 1 else pos 0

module _ (N : Floats) where
  -- The == of two values of an interface type
  abbrev pub same_value : Value N.F → Value N.F → Bool
  same_value (string_value a) (string_value b) = string_key.beq a b
  same_value (float_value a) (float_value b) = N.equal a b
  same_value (int_value a) (int_value b) = eqb_ℤ a b
  same_value (int64_value a) (int64_value b) = eqb_ℤ a b
  same_value (time_value a) (time_value b) = eqb_ℤ a b
  same_value (bool_value a) (bool_value b) = eq_bool a b
  same_value _ _ = false

  abbrev pub same_entry : Option (Value N.F) → Option (Value N.F) → Bool
  same_entry none none = true
  same_entry (some a) (some b) = same_value a b
  same_entry _ _ = false

  -- The second operand of compareValues, or the zero value of its type.
  abbrev pub float_or_zero : Option (Value N.F) → N.F
  float_or_zero (some (float_value b)) = b
  float_or_zero _ = N.zero

  abbrev pub int_or_zero : Option (Value N.F) → ℤ
  int_or_zero (some (int_value b)) = b
  int_or_zero _ = pos 0

  abbrev pub string_or_empty : Option (Value N.F) → String
  string_or_empty (some (string_value b)) = b
  string_or_empty _ = ""

  abbrev pub time_or_zero : Option (Value N.F) → ℤ
  time_or_zero (some (time_value b)) = b
  time_or_zero _ = pos 0

  -- compareValues, on two entries of events
  pub compare_values : Option (Value N.F) → Option (Value N.F) → ℤ
  compare_values (some (float_value a)) o =
      let b = float_or_zero o in order (N.less a b) (N.less b a)
  compare_values (some (int_value a)) o = let b = int_or_zero o in order (ltb_ℤ a b) (ltb_ℤ b a)
  compare_values (some (string_value a)) o =
      let b = string_or_empty o in
      order (less_codes (codes a) (codes b)) (less_codes (codes b) (codes a))
  compare_values (some (time_value a)) o = let b = time_or_zero o in order (ltb_ℤ a b) (ltb_ℤ b a)
  compare_values _ o = pos 0

  -- evaluatePredicateOperator, by the operator's byte and the text after it
  abbrev pub as_float : Value N.F → Option N.F
  as_float (float_value v) = some v
  as_float (int_value v) = some (N.of_int v)
  as_float (int64_value v) = some (N.of_int v)
  as_float _ = none

  abbrev pub compare_with : ℕ → N.F → Option N.F → Bool
  compare_with operator operand none = false
  compare_with operator operand (some v) =
      if operator == 62
      then N.less operand v
      else if operator == 60
      then N.less v operand
      else false

  pub evaluate_predicate_operator : Value N.F → ℕ → String → Bool
  evaluate_predicate_operator value operator String.[] = false
  evaluate_predicate_operator value operator (String.◌∷◌ c s) =
      compare_with operator (N.scan (String.◌∷◌ c s)) (as_float value)

  -- The test of one predicate in matchesEventPattern, on the entry's value.
  abbrev pub matches_text : Value N.F → String → Bool
  matches_text actual String.[] = same_value actual (string_value String.[])
  matches_text actual (String.◌∷◌ c s) =
      if code c == 62 || code c == 60
      then evaluate_predicate_operator actual (code c) s
      else same_value actual (string_value (String.◌∷◌ c s))

  abbrev pub matches_value : Value N.F → Option (Value N.F) → Bool
  matches_value expected none = false
  matches_value (string_value s) (some actual) = matches_text actual s
  matches_value expected (some actual) = same_value actual expected
