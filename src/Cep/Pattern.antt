-- ===== src/Cep/Pattern.antt =====
-- pkg/cep/pattern.go and dsl.go: patterns, and the tests of an event and of the conditions that the
-- engine makes in engine.go. The order in which a map of predicates is visited does not matter.
use gress.Common.{
  ℕ, suc, String, Bool, true, false, ◌&&◌, Option, none, some, List, [], ◌∷◌, if◌then◌else◌, ℤ, pos,
  ltb_ℤ, leb_ℤ, leb, string_key,
}
use gress.Common.Dict.{Dict, get, put}
use gress.Cep.Value.{Floats, Value, EventMap, as_string, same_entry, compare_values, matches_value}

pub data Quantifier : Type 0 where
  exactly_one exactly at_least at_most range one_or_more zero_or_more : Quantifier

pub data TemporalConstraintType : Type 0 where
  temporal_within temporal_after temporal_before : TemporalConstraintType

pub record TemporalConstraint : Type 0 where
  pub kind : TemporalConstraintType
  pub duration : ℤ

pub record EventPattern (F : Type 0) : Type 0 where
  pub name : String
  pub kind : String
  pub predicates : Dict String (Value F)
  pub optional : Bool
  pub negated : Bool
  pub quantifier : Quantifier
  pub min_occurrences : ℤ
  pub max_occurrences : ℤ
  pub temporal_constraint : Option TemporalConstraint

pub record Condition : Type 0 where
  pub left_event : String
  pub right_event : String
  pub operator : String
  pub field : String

pub record Pattern (F : Type 0) : Type 0 where
  pub id : String
  pub name : String
  pub description : String
  pub events : List (EventPattern F)
  pub time_window : ℤ
  pub conditions : List Condition

-- isQuantifierSatisfied
unfoldable pub is_quantifier_satisfied : {F : Type 0} → EventPattern F → ℕ → Bool
is_quantifier_satisfied p count = elim p.quantifier [
  | exactly_one ↦ leb 1 count
  | exactly ↦ leb_ℤ p.min_occurrences (pos count)
  | at_least ↦ leb_ℤ p.min_occurrences (pos count)
  | at_most ↦ leb 1 count && leb_ℤ (pos count) p.max_occurrences
  | range ↦ leb_ℤ p.min_occurrences (pos count)
  | one_or_more ↦ leb 1 count
  | zero_or_more ↦ true
]

module _ (N : Floats) where
  abbrev pub has_type : String → Option String → Bool
  has_type kind none = false
  has_type kind (some s) = string_key.beq s kind

  abbrev pub matches_predicates : EventMap N.F → Dict String (Value N.F) → Bool
  matches_predicates event [] = true
  matches_predicates event ((key, expected) ∷ predicates) =
      matches_value N expected (get event key) && matches_predicates event predicates

  -- matchesEventPattern of the engine
  unfoldable pub matches_event_pattern : EventMap N.F → EventPattern N.F → Bool
  matches_event_pattern event p =
      has_type p.kind (as_string (get event "type")) && matches_predicates event p.predicates

  -- evaluateCondition
  pub evaluate_condition : EventMap N.F → EventMap N.F → Condition → Bool
  evaluate_condition left right c =
      let a = get left c.field in
      let b = get right c.field in
      if string_key.beq c.operator "eq"
      then same_entry N a b
      else if string_key.beq c.operator "ne"
      then (if same_entry N a b then false else true)
      else if string_key.beq c.operator "gt"
      then ltb_ℤ (pos 0) (compare_values N a b)
      else if string_key.beq c.operator "lt"
      then ltb_ℤ (compare_values N a b) (pos 0)
      else if string_key.beq c.operator "gte"
      then leb_ℤ (pos 0) (compare_values N a b)
      else if string_key.beq c.operator "lte"
      then leb_ℤ (compare_values N a b) (pos 0)
      else false

  -- The name of the matched event at a place: its entry "name", or "event_" and the place.
  abbrev pub name_or : String → Option String → String
  name_or default none = default
  name_or default (some name) = name

  abbrev pub event_map :
      ℕ → List (EventMap N.F) → Dict String (EventMap N.F) → Dict String (EventMap N.F)
  event_map i [] names = names
  event_map i (event ∷ events) names =
      event_map (suc i) events
        (put names (name_or (N.event_name i) (as_string (get event "name"))) event)

  abbrev pub holds_between : Condition → Option (EventMap N.F) → Option (EventMap N.F) → Bool
  holds_between c (some left) (some right) = evaluate_condition left right c
  holds_between c _ _ = false

  abbrev pub check_all : Dict String (EventMap N.F) → List Condition → Bool
  check_all names [] = true
  check_all names (c ∷ conditions) =
      holds_between c (get names c.left_event) (get names c.right_event)
      && check_all names conditions

  -- checkConditions
  unfoldable pub check_conditions : List (EventMap N.F) → List Condition → Bool
  check_conditions events conditions = check_all (event_map 0 events []) conditions
