-- ===== src/Operators/Keyed.antt =====
-- What the stateful operators hold for a key, and what they emit.
use mathlib.Core.Option.{some-injective}
use text.Mathlib.TextEquality.{eq_iff}
use gress.Common.{
  ◌≡◌, refl, ap, ◌∙◌, String, Bool, Option, none, some, List, [], ◌∷◌, ◌++◌, if◌then◌else◌, arith,
  string_key, Bool-cases, inl, inr, sym,
}
use gress.Common.Dict.{Dict, get, get-put}
use gress.Stream.{Event}
use gress.Operators.{
  OperatorError, key_or_default, output_event, or_nil, stored, aggregate_process, aggregate_failed,
  current, reduce_failed, reduce_step, reduce_process,
}

-- The result of a function, or what was there before if it returns an error.
abbrev pub kept : {A Err : Type 0} → A → A × Option Err → A
kept old (a, none) = a
kept old (a, some e) = old

module _ {V : Type 0} where
  -- The events of a key.
  abbrev pub select : String → List (Event V) → List (Event V)
  select key [] = []
  select key (event ∷ events) =
      let rest = select key events in
      if string_key.beq (key_or_default event.key) key then event ∷ rest else rest

  select-append :
      (key : String) (xs ys : List (Event V))
      → select key (xs ++ ys) ≡ select key xs ++ select key ys
  select-append key [] ys = refl
  select-append key (x ∷ xs) ys = ground (arith, select-append key xs ys)

module _ {V A Err : Type 0} (nil : A) (aggregate : A → Event V → A × Option Err) where
  pub aggregate_all : List (Event V) → Dict String A → Dict String A
  aggregate_all [] state = state
  aggregate_all (event ∷ events) state =
      aggregate_all events (aggregate_process nil aggregate event state).0

  -- The fold of the events for which the function returns no error.
  abbrev pub fold : A → List (Event V) → A
  fold a [] = a
  fold a (event ∷ events) = fold (kept a (aggregate a event)) events

  fold-append : (a : A) (xs ys : List (Event V)) → fold a (xs ++ ys) ≡ fold (fold a xs) ys
  fold-append a [] ys = refl
  fold-append a (x ∷ xs) ys = fold-append (kept a (aggregate a x)) xs ys

  get-stored :
      (failure : Err → OperatorError Err) (key j : String) (event : Event V) (state : Dict String A)
      (r : A × Option Err)
      → or_nil nil (get (stored failure key event state r).0 j) ≡ (
          if string_key.beq key j
          then kept (or_nil nil (get state j)) r
          else or_nil nil (get state j))
  get-stored failure key j event state (a, none) = rw get-put (ground arith)
  get-stored failure key j event state (a, some e) = ground arith

  get-aggregate_process :
      (event : Event V) (j : String) (state : Dict String A)
      → or_nil nil (get (aggregate_process nil aggregate event state).0 j)
        ≡ fold (or_nil nil (get state j)) (select j (event ∷ []))
  unfolding aggregate_process
  get-aggregate_process event j state =
      let key = key_or_default event.key in
      get-stored aggregate_failed key j event state (aggregate (or_nil nil (get state key)) event)
      ∙ elim (Bool-cases (string_key.beq key j)) [
        | inl e ↦ rw e (rw ((eq_iff key j).0 e) refl)
        | inr e ↦ rw e refl
      ]

  get-aggregate_all :
      (events : List (Event V)) (key : String) (state : Dict String A)
      → or_nil nil (get (aggregate_all events state) key)
        ≡ fold (or_nil nil (get state key)) (select key events)
  unfolding aggregate_all
  get-aggregate_all [] key state = refl
  get-aggregate_all (event ∷ events) key state =
      get-aggregate_all events key (aggregate_process nil aggregate event state).0
      ∙ (rw (get-aggregate_process event key state) (
          sym
            (fold-append (or_nil nil (get state key)) (select key (event ∷ [])) (select key events))
          ∙ ap (fold (or_nil nil (get state key))) (sym (select-append key (event ∷ []) events))))

  -- The events and the error that Process returns for what the function has returned.
  abbrev pub answer :
      String → Event V → A × Option Err → List (Event A) × Option (OperatorError Err)
  answer key event (a, some e) = ([], some (aggregate_failed e))
  answer key event (a, none) = (output_event key a event ∷ [], none)

  answer-stored :
      (key : String) (event : Event V) (state : Dict String A) (r : A × Option Err)
      → (
        (stored aggregate_failed key event state r).1,
        (stored aggregate_failed key event state r).2,
      )
        ≡ answer key event r
  answer-stored key event state (a, some e) = refl
  answer-stored key event state (a, none) = refl

  -- A new aggregate operator answers an event, after any others, with what the function makes of it
  -- and of the fold of the earlier events of its key for which the function has returned no error, or
  -- with the function's error.
  pub aggregate_process-fold :
      (events : List (Event V)) (event : Event V)
      → let key = key_or_default event.key in
        let (state, results, failure) =
          aggregate_process nil aggregate event (aggregate_all events []) in
        (results, failure) ≡ answer key event (aggregate (fold nil (select key events)) event)
  unfolding aggregate_process get
  aggregate_process-fold events event =
      let key = key_or_default event.key in
      let state = aggregate_all events [] in
      answer-stored key event state (aggregate (or_nil nil (get state key)) event)
      ∙ ap (λ a. answer key event (aggregate a event)) (get-aggregate_all events key [])

module _ {V Err : Type 0} (is_nil : V → Bool) (reduce : V → V → V × Option Err) where
  pub reduce_all : List (Event V) → Dict String V → Dict String V
  reduce_all [] state = state
  reduce_all (event ∷ events) state = reduce_all events (reduce_process is_nil reduce event state).0

  -- The values of a key combined from the left: nil counts as no value, an error keeps the value.
  abbrev pub combine : Option V → List (Event V) → Option V
  combine o [] = o
  combine none (event ∷ events) = combine (current is_nil (some event.value)) events
  combine (some v) (event ∷ events) =
      combine (current is_nil (some (kept v (reduce v event.value)))) events

  combine-append :
      (o : Option V) (xs ys : List (Event V)) → combine o (xs ++ ys) ≡ combine (combine o xs) ys
  combine-append o [] ys = refl
  combine-append none (x ∷ xs) ys = combine-append (current is_nil (some x.value)) xs ys
  combine-append (some v) (x ∷ xs) ys =
      combine-append (current is_nil (some (kept v (reduce v x.value)))) xs ys

  -- A value that is not nil is current again.
  current_again :
      (o : Option V) (v : V) → current is_nil o ≡ some v → current is_nil (some v) ≡ some v
  current_again none v e = absurd (ground (arith, e))
  current_again (some w) v e = elim (Bool-cases (is_nil w)) [
    | inl h ↦ absurd (ground (arith, h, e))
    | inr h ↦ rw⁻¹ (some-injective w v (rw h at e)) (rw h refl)
  ]

  current-stored :
      (key j : String) (event : Event V) (state : Dict String V) (v : V) (r : V × Option Err)
      → current is_nil (get state key) ≡ some v
      → current is_nil (get (stored reduce_failed key event state r).0 j) ≡ (
          if string_key.beq key j
          then current is_nil (some (kept v r))
          else current is_nil (get state j))
  current-stored key j event state v (w, none) e = rw get-put (ground arith)
  current-stored key j event state v (w, some x) e = elim (Bool-cases (string_key.beq key j)) [
    | inl h ↦ rw h (rw⁻¹ ((eq_iff key j).0 h) (e ∙ sym (current_again (get state key) v e)))
    | inr h ↦ rw h refl
  ]

  current-reduce_step :
      (key j : String) (event : Event V) (state : Dict String V) (o : Option V)
      → current is_nil (get state key) ≡ o
      → current is_nil (get (reduce_step reduce key event state o).0 j)
        ≡ (if string_key.beq key j then combine o (event ∷ []) else current is_nil (get state j))
  current-reduce_step key j event state none e = rw get-put (ground arith)
  current-reduce_step key j event state (some v) e =
      current-stored key j event state v (reduce v event.value) e

  current-reduce_process :
      (event : Event V) (j : String) (state : Dict String V)
      → current is_nil (get (reduce_process is_nil reduce event state).0 j)
        ≡ combine (current is_nil (get state j)) (select j (event ∷ []))
  unfolding reduce_process
  current-reduce_process event j state =
      let key = key_or_default event.key in
      current-reduce_step key j event state (current is_nil (get state key)) refl
      ∙ elim (Bool-cases (string_key.beq key j)) [
        | inl e ↦ rw e (rw ((eq_iff key j).0 e) refl)
        | inr e ↦ rw e refl
      ]

  current-reduce_all :
      (events : List (Event V)) (key : String) (state : Dict String V)
      → current is_nil (get (reduce_all events state) key)
        ≡ combine (current is_nil (get state key)) (select key events)
  unfolding reduce_all
  current-reduce_all [] key state = refl
  current-reduce_all (event ∷ events) key state =
      current-reduce_all events key (reduce_process is_nil reduce event state).0
      ∙ (rw (current-reduce_process event key state) (
          sym (
            combine-append (current is_nil (get state key)) (select key (event ∷ []))
              (select key events))
          ∙ ap (combine (current is_nil (get state key)))
              (sym (select-append key (event ∷ []) events))))

  -- After any events a new reduce operator goes on, for every key, from the values of the events of
  -- the key combined from the left, where nil counts as no value and an error keeps the value.
  pub reduce_all-combine :
      (events : List (Event V)) (key : String)
      → current is_nil (get (reduce_all events []) key) ≡ combine none (select key events)
  unfolding get
  reduce_all-combine events key = current-reduce_all events key []
