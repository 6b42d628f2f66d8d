-- ===== src/Operators.antt =====
-- pkg/stream/operators.go. A function of the user returns its Go pair: the result and the error, where
-- `none` is no error. The error that an operator returns wraps the one of the function.
pub mod Keyed
pub mod Branches
mod Tests
use gress.Common.{
  ℕ, String, Bool, true, false, Option, none, some, List, [], ◌∷◌, ◌++◌, ltb, if◌then◌else◌, ℤ, pos,
  length, string_key,
}
use gress.Common.Dict.{Dict, get, put}
use gress.Common.Channel.{Channel, new_channel, offer}
use gress.Stream.{Event}

-- An error of an operator: the operator's prefix and the error of its function.
pub data OperatorError (Err : Type 0) : Type 0 where
  map_transform flatmap_transform aggregate_failed reduce_failed : Err → OperatorError Err

module _ {W Err : Type 0} where
  abbrev pub map_result :
      Option (Event W) × Option Err → List (Event W) × Option (OperatorError Err)
  map_result (o, some e) = ([], some (map_transform e))
  map_result (none, none) = ([], none)
  map_result (some event, none) = (event ∷ [], none)

  -- MapOperator.Process
  pub map_process :
      {V : Type 0}
      → (Event V → Option (Event W) × Option Err)
      → Event V
      → List (Event W) × Option (OperatorError Err)
  map_process transform event = map_result (transform event)

  abbrev pub flat_map_result :
      List (Event W) × Option Err → List (Event W) × Option (OperatorError Err)
  flat_map_result (events, some e) = ([], some (flatmap_transform e))
  flat_map_result (events, none) = (events, none)

  -- FlatMapOperator.Process
  pub flat_map_process :
      {V : Type 0}
      → (Event V → List (Event W) × Option Err)
      → Event V
      → List (Event W) × Option (OperatorError Err)
  flat_map_process transform event = flat_map_result (transform event)

-- An event without a key belongs to the key "default".
abbrev pub key_or_default : String → String
key_or_default key = if string_key.beq key "" then "default" else key

module _ {V : Type 0} where
  -- FilterOperator.Process
  pub filter_process : (Event V → Bool) → Event V → List (Event V)
  filter_process predicate event = if predicate event then event ∷ [] else []

  -- KeyByOperator.Process and TimestampAssignerOperator.Process: the event as it is after the call
  pub key_by_process : (Event V → String) → Event V → List (Event V)
  key_by_process selector event = record event { key = selector event } ∷ []

  pub assign_timestamp : (Event V → ℤ) → Event V → List (Event V)
  assign_timestamp extractor event = record event { event_time = extractor event } ∷ []

  -- The output event of the stateful operators.
  abbrev pub output_event : {A : Type 0} → String → A → Event V → Event A
  output_event key value event = record {
    key = key;
    value = value;
    event_time = event.event_time;
    headers = event.headers;
    offset = pos 0;
    partition = pos 0;
  }

abbrev pub or_nil : {A : Type 0} → A → Option A → A
or_nil nil none = nil
or_nil nil (some a) = a

-- The value of a key that ReduceOperator goes on from: a value of an interface type may be nil.
abbrev pub current : {V : Type 0} → (V → Bool) → Option V → Option V
current is_nil none = none
current is_nil (some v) = if is_nil v then none else some v

module _ {V A Err : Type 0} where
  -- The end of Process of a stateful operator: an error keeps the state.
  abbrev pub stored :
      (Err → OperatorError Err)
      → String
      → Event V
      → Dict String A
      → A × Option Err
      → Dict String A × List (Event A) × Option (OperatorError Err)
  stored failure key event state (a, some e) = (state, [], some (failure e))
  stored failure key event state (a, none) = (put state key a, output_event key a event ∷ [], none)

  -- AggregateOperator.Process: `nil` is the accumulator of a key that is not there.
  pub aggregate_process :
      A
      → (A → Event V → A × Option Err)
      → Event V
      → Dict String A
      → Dict String A × List (Event A) × Option (OperatorError Err)
  aggregate_process nil aggregate event state =
      let key = key_or_default event.key in
      stored aggregate_failed key event state (aggregate (or_nil nil (get state key)) event)

module _ {V Err : Type 0} where
  abbrev pub reduce_step :
      (V → V → V × Option Err)
      → String
      → Event V
      → Dict String V
      → Option V
      → Dict String V × List (Event V) × Option (OperatorError Err)
  reduce_step reduce key event state none = (put state key event.value, event ∷ [], none)
  reduce_step reduce key event state (some v) =
      stored reduce_failed key event state (reduce v event.value)

  -- ReduceOperator.Process
  pub reduce_process :
      (V → Bool)
      → (V → V → V × Option Err)
      → Event V
      → Dict String V
      → Dict String V × List (Event V) × Option (OperatorError Err)
  reduce_process is_nil reduce event state =
      let key = key_or_default event.key in
      reduce_step reduce key event state (current is_nil (get state key))

-- A branch: its predicate and its output channel.
pub record Branch (V : Type 0) : Type 0 where
  pub predicate : Event V → Bool
  pub output : Channel (Event V)

module _ {V : Type 0} where
  -- NewBranchOperator
  pub new_branches : Dict String (Event V → Bool) → Dict String (Branch V)
  new_branches [] = []
  new_branches ((name, predicate) ∷ branches) =
      (name, record { predicate = predicate; output = new_channel 100 }) ∷ new_branches branches

  -- The send to a branch, which is skipped when its channel is full.
  pub route : Event V → Branch V → Branch V
  route event branch =
      if branch.predicate event
      then record branch { output = offer event branch.output }
      else branch

  pub route_all : Event V → Dict String (Branch V) → Dict String (Branch V)
  unfolding route
  route_all event [] = []
  route_all event ((name, branch) ∷ branches) =
      (name, route event branch) ∷ route_all event branches

  -- BranchOperator.Process
  pub branch_process : Event V → Dict String (Branch V) → Dict String (Branch V) × List (Event V)
  unfolding route_all
  branch_process event branches = (route_all event branches, event ∷ [])

  -- UnionOperator.Process
  pub union_process : Event V → List (Event V)
  union_process event = event ∷ []
