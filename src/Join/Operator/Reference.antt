-- ===== src/Join/Operator/Reference.antt =====
-- The operator against a reference that remembers the whole past of both streams as lists.
use gress.Common.{
  ◌≡◌, refl, ap, ◌∙◌, sym, String, Bool, Option, none, some, List, [], ◌∷◌, ◌++◌, map,
  if◌then◌else◌, zero, suc, ℤ, pos, negsuc, ◌+ℤ◌, ◌≤ℤ◌, arith, string_key, Bool-cases, inl, inr,
}
use mathlib.Core.List.{append-nil}
use text.Mathlib.TextEquality.{eq_iff}
use gress.Common.Dict.{get, put, get-put}
use gress.Stream.{Event}
use gress.Join.Config.{
  JoinConfig, JoinResult, hash_join, keeps_left, keeps_right, StoredEvent, left_side, right_side,
}
use gress.Join.State.{
  JoinState, Table, new_join_state, store, excess, events_at, or_empty, new_stored, add_left_event,
  add_right_event,
}
use gress.Join.Operator.{
  matches_condition, create_join_result, if_empty, scan, scan_key, write_back, search_table,
  process_left, process_right, join_left, join_right,
}

-- An event of one of the streams, with the reading of the clock when it is processed.
pub data Arrival (W : Type 0) : Type 0 where
  on_left : ℤ → Event W → Arrival W
  on_right : ℤ → Event W → Arrival W

module _ {V : Type 0} where
  unfoldable pub events_of : List (StoredEvent V) → List (Event V)
  events_of = map (λ stored. stored.event)

  -- The events of a key.
  abbrev pub of_key : String → List (Event V) → List (Event V)
  of_key key [] = []
  of_key key (event ∷ events) =
      let rest = of_key key events in if string_key.beq event.key key then event ∷ rest else rest

  -- The results of the events that pass a test.
  abbrev pub pairs :
      (Event V → Bool) → (Event V → JoinResult V) → List (Event V) → List (JoinResult V)
  pairs test pair [] = []
  pairs test pair (event ∷ events) =
      let rest = pairs test pair events in if test event then pair event ∷ rest else rest

  of_key-append :
      (key : String) (xs ys : List (Event V))
      → of_key key (xs ++ ys) ≡ of_key key xs ++ of_key key ys
  of_key-append key [] ys = refl
  of_key-append key (x ∷ xs) ys = ground (arith, of_key-append key xs ys)

  module _ (config : JoinConfig) (condition : Event V → Event V → Bool) where
    -- The operator: the state after the arrivals and all results in the order they come in.
    unfoldable pub run : List (Arrival V) → JoinState V → List (JoinResult V)
    run [] js = []
    run (on_left now event ∷ rest) js =
        let (js', results) = process_left config condition now event js in results ++ run rest js'
    run (on_right now event ∷ rest) js =
        let (js', results) = process_right config condition now event js in results ++ run rest js'

    -- The reference: an event is paired with the earlier events of the other stream that have its key
    -- and match, in their order; it stands alone if there are none and the join is outer on its side.
    unfoldable pub expected :
        List (Event V) → List (Event V) → List (Arrival V) → List (JoinResult V)
    expected lefts rights [] = []
    expected lefts rights (on_left now left ∷ rest) =
        if_empty (keeps_left config.kind) (create_join_result (some left) none) (
          pairs (matches_condition config condition left)
            (λ right. create_join_result (some left) (some right)) (of_key left.key rights))
        ++ expected (lefts ++ left ∷ []) rights rest
    expected lefts rights (on_right now right ∷ rest) =
        if_empty (keeps_right config.kind) (create_join_result none (some right)) (
          pairs (λ left. matches_condition config condition left right)
            (λ left. create_join_result (some left) (some right)) (of_key right.key lefts))
        ++ expected lefts (rights ++ right ∷ []) rest

  -- The table holds exactly these events, by key and in order.
  unfoldable pub Holds : Table V → List (Event V) → Type 0
  Holds table past = (key : String) → events_of (events_at table key) ≡ of_key key past

  scan-events :
      (test : Event V → Bool) (pair : Event V → JoinResult V) (events : List (StoredEvent V))
      → (events_of (scan test pair events).0 ≡ events_of events)
        × ((scan test pair events).1 ≡ pairs test pair (events_of events))
  unfolding scan events_of
  scan-events test pair [] = (refl, refl)
  scan-events test pair (stored ∷ events) =
      let (kept, same) = scan-events test pair events in ground (arith, kept, same)

  events_of-append :
      (xs ys : List (StoredEvent V)) → events_of (xs ++ ys) ≡ events_of xs ++ events_of ys
  unfolding events_of
  events_of-append [] ys = refl
  events_of-append (x ∷ xs) ys = ground (arith, events_of-append xs ys)

  events_at-put :
      (table : Table V) (key j : String) (events : List (StoredEvent V))
      → events_at (put table key events) j
        ≡ (if string_key.beq key j then events else events_at table j)
  unfolding events_at
  events_at-put table key j events = rw get-put (ground arith)

  excess_none :
      (bound : ℤ) (events : List (StoredEvent V)) → bound ≤ℤ pos 0 → excess bound events ≡ 0
  unfolding excess
  excess_none (pos zero) events h = refl
  excess_none (pos (suc n)) events h = omega arith
  excess_none (negsuc n) events h = refl

  pub Holds-store :
      (bound : ℤ) (stored : StoredEvent V) (table : Table V) (past : List (Event V))
      → bound ≤ℤ pos 0
      → Holds table past
      → Holds (store bound stored table) (past ++ stored.event ∷ [])
  unfolding Holds store events_of
  Holds-store bound stored table past h holds key =
      let events = events_at table stored.event.key ++ stored ∷ [] in
      rw (excess_none bound events h) (
        rw events_at-put (
          rw (of_key-append key past (stored.event ∷ []))
            (elim (Bool-cases (string_key.beq stored.event.key key)) [
              | inl e ↦ rw e (
                  rw ((eq_iff stored.event.key key).0 e)
                    (rw events_of-append (rw (holds key) refl)))
              | inr e ↦ rw e (rw append-nil (holds key))
            ])))

  events_at_found :
      (table : Table V) (key : String) (o : Option (List (StoredEvent V)))
      → get table key ≡ o
      → or_empty o ≡ events_at table key
  unfolding events_at
  events_at_found table key o e = ap or_empty (sym e)

  events-write_back :
      (table : Table V) (key j : String) (o : Option (List (StoredEvent V)))
      (events : List (StoredEvent V))
      → get table key ≡ o
      → events_of events ≡ events_of (or_empty o)
      → events_of (events_at (write_back table key o events) j) ≡ events_of (events_at table j)
  events-write_back table key j none events e h = refl
  events-write_back table key j (some old) events e h =
      rw events_at-put (elim (Bool-cases (string_key.beq key j)) [
        | inl same ↦ rw same (
            rw (sym ((eq_iff key j).0 same))
              (h ∙ ap events_of (events_at_found table key (some old) e)))
        | inr other ↦ rw other refl
      ])

  pub Holds-scan_key :
      (test : Event V → Bool) (pair : Event V → JoinResult V) (key : String) (table : Table V)
      (past : List (Event V))
      → Holds table past
      → Holds (scan_key test pair key table).0 past
        × ((scan_key test pair key table).1 ≡ pairs test pair (of_key key past))
  unfolding scan_key Holds events_at
  Holds-scan_key test pair key table past holds = (
    λ j.
        events-write_back table key j (get table key) (scan test pair (events_at table key)).0 refl
          (scan-events test pair (events_at table key)).0
        ∙ holds j,
    (scan-events test pair (events_at table key)).1 ∙ ap (pairs test pair) (holds key),
  )

  append_both : {a b c d : List (JoinResult V)} → a ≡ b → c ≡ d → a ++ c ≡ b ++ d
  append_both {a} {b} {c} {d} e f = ap (λ x. x ++ c) e ∙ ap (λ x. b ++ x) f

  -- What is known of the operator's state: how it is bounded and which events it holds.
  record Remembers (js : JoinState V) (lefts rights : List (Event V)) : Type 0 where
    unbounded : js.max_state_size ≤ℤ pos 0
    left_held : Holds js.left_state lefts
    right_held : Holds js.right_state rights

  module _ (config : JoinConfig) (condition : Event V → Event V → Bool) where
    Remembers-process_left :
        (now : ℤ) (left : Event V) (js : JoinState V) (lefts rights : List (Event V))
        → config.strategy ≡ hash_join
        → Remembers js lefts rights
        → Remembers (process_left config condition now left js).0 (lefts ++ left ∷ []) rights
          × ((process_left config condition now left js).1
              ≡ if_empty (keeps_left config.kind) (create_join_result (some left) none) (
                  pairs
                    (matches_condition config condition left)
                    (λ right. create_join_result (some left) (some right))
                    (of_key left.key rights)))
    unfolding process_left join_left add_left_event search_table
    Remembers-process_left now left js lefts rights e r =
        let (held, results) =
          Holds-scan_key (matches_condition config condition left)
            (λ right. create_join_result (some left) (some right)) left.key js.right_state rights
            r.right_held in
        rw e (
          record {
            unbounded = r.unbounded;
            left_held =
                Holds-store js.max_state_size
                  (new_stored left_side now left (left.event_time +ℤ config.state_retention))
                  js.left_state lefts r.unbounded r.left_held;
            right_held = held;
          },
          ap (if_empty (keeps_left config.kind) (create_join_result (some left) none)) results,
        )

    Remembers-process_right :
        (now : ℤ) (right : Event V) (js : JoinState V) (lefts rights : List (Event V))
        → config.strategy ≡ hash_join
        → Remembers js lefts rights
        → Remembers (process_right config condition now right js).0 lefts (rights ++ right ∷ [])
          × ((process_right config condition now right js).1
              ≡ if_empty (keeps_right config.kind) (create_join_result none (some right)) (
                  pairs
                    (λ left. matches_condition config condition left right)
                    (λ left. create_join_result (some left) (some right))
                    (of_key right.key lefts)))
    unfolding process_right join_right add_right_event search_table
    Remembers-process_right now right js lefts rights e r =
        let (held, results) =
          Holds-scan_key (λ left. matches_condition config condition left right)
            (λ left. create_join_result (some left) (some right)) right.key js.left_state lefts
            r.left_held in
        rw e (
          record {
            unbounded = r.unbounded;
            left_held = held;
            right_held =
                Holds-store js.max_state_size
                  (new_stored right_side now right (right.event_time +ℤ config.state_retention))
                  js.right_state rights r.unbounded r.right_held;
          },
          ap (if_empty (keeps_right config.kind) (create_join_result none (some right))) results,
        )

    run-Remembers :
        (arrivals : List (Arrival V)) (js : JoinState V) (lefts rights : List (Event V))
        → config.strategy ≡ hash_join
        → Remembers js lefts rights
        → run config condition arrivals js ≡ expected config condition lefts rights arrivals
    unfolding run expected
    run-Remembers [] js lefts rights e r = refl
    run-Remembers (on_left now left ∷ rest) js lefts rights e r =
        let (r', same) = Remembers-process_left now left js lefts rights e r in
        let js' = (process_left config condition now left js).0 in
        append_both same (run-Remembers rest js' (lefts ++ left ∷ []) rights e r')
    run-Remembers (on_right now right ∷ rest) js lefts rights e r =
        let (r', same) = Remembers-process_right now right js lefts rights e r in
        let js' = (process_right config condition now right js).0 in
        append_both same (run-Remembers rest js' lefts (rights ++ right ∷ []) e r')

    -- With the hash strategy and no bound on the state, the results of a new operator for any
    -- interleaving of events from the two streams are those of the reference, which pairs each
    -- event with the earlier events of the other stream that have its key and match, in their
    -- order, and emits it alone if there are none and the join is outer on its side.
    pub run-expected :
        (arrivals : List (Arrival V)) (bound : ℤ)
        → config.strategy ≡ hash_join
        → bound ≤ℤ pos 0
        → run config condition arrivals (new_join_state bound)
          ≡ expected config condition [] [] arrivals
    unfolding new_join_state Holds events_at get events_of
    run-expected arrivals bound e h =
        run-Remembers arrivals (new_join_state bound) [] [] e
          (record { unbounded = h; left_held = λ key. refl; right_held = λ key. refl })
