-- ===== src/Window/Operator/Contents.antt =====
-- What the windows of a tumbling operator hold after any events: a fold over the events of each.
use text.Mathlib.TextEquality.{eq_iff}
use mathlib.Core.List.{append_assoc, append-nil}
use gress.Common.{
  ℕ, ◌+◌, ◌≡◌, refl, ap, ◌∙◌, String, true, false, Option, none, some, List, [], ◌∷◌, ◌++◌,
  if◌then◌else◌, ℤ, string_key, arith, length, length-append, Bool-cases, inl, inr,
}
use gress.Common.Dict.{Dict, get, put, get-put}
use gress.Stream.{Event, Window}
use gress.Window.Assign.{TumblingWindowAssigner, tumbling, tumbling_at, assign_windows}
use gress.Window.Trigger.{Trigger}
use gress.Window.Operator.{
  Format, WindowState, WindowOperator, window_key, new_operator, process, state_or_new, add_event,
  purges,
}

-- An aggregate function that returns no error.
abbrev pub total : {V A : Type 0} → (A → Event V → A) → A → Event V → A × Option String
total f a event = (f a event, none)

-- The trigger purges no window when an element comes.
abbrev pub KeepsWindows : {V : Type 0} → Trigger V → Type 0
KeepsWindows {V} T =
    (event : Event V) (window : Window) (s : T.State)
    → purges (T.on_element event window s).1 ≡ false

module _ {V A : Type 0} where
  abbrev pub fold : (A → Event V → A) → A → List (Event V) → A
  fold f a [] = a
  fold f a (event ∷ events) = fold f (f a event) events

  abbrev pub events_of : Option (WindowState V A) → List (Event V)
  events_of none = []
  events_of (some state) = state.events

  abbrev pub count_of : Option (WindowState V A) → ℕ
  count_of none = 0
  count_of (some state) = state.count

  abbrev pub accumulator_of : A → Option (WindowState V A) → A
  accumulator_of nil none = nil
  accumulator_of nil (some state) = state.accumulator

module _ {V : Type 0} (format : Format) (w : TumblingWindowAssigner) where
  -- The key of an event's window.
  abbrev pub key_of : Event V → String
  key_of event = window_key format event.key (tumbling_at event.event_time w)

  -- The events whose window has the key.
  abbrev pub select : String → List (ℤ × Event V) → List (Event V)
  select key [] = []
  select key ((now, event) ∷ events) =
      let rest = select key events in
      if string_key.beq (key_of event) key then event ∷ rest else rest

module _ {V A : Type 0} (nil : A) (f : A → Event V → A) (format : Format) (T : Trigger V) where
  -- Events that are processed one after another, each with the reading of the clock.
  pub process_all : List (ℤ × Event V) → WindowOperator V A T → WindowOperator V A T
  process_all [] op = op
  process_all ((now, event) ∷ events) op =
      process_all events (process nil (total f) format T now event op).0

  -- The window's state after the event.
  abbrev added : Event V → Window → Option (WindowState V A) → WindowState V A
  added event window o =
      let state = state_or_new nil window o in add_event event (f state.accumulator event) state

  -- What a window's state records of the events that were selected for it.
  abbrev pub Records : Option (WindowState V A) → List (Event V) → Option (WindowState V A) → Type 0
  Records before events after =
      (events_of after ≡ events_of before ++ events)
      × (count_of after ≡ count_of before + length events)
      × (accumulator_of nil after ≡ fold f (accumulator_of nil before) events)

  fold-append : (a : A) (xs ys : List (Event V)) → fold f a (xs ++ ys) ≡ fold f (fold f a xs) ys
  fold-append a [] ys = refl
  fold-append a (x ∷ xs) ys = fold-append (f a x) xs ys

  Records-trans :
      (before middle after : Option (WindowState V A)) (xs ys : List (Event V))
      → Records before xs middle
      → Records middle ys after
      → Records before (xs ++ ys) after
  Records-trans before middle after xs ys (e, c, a) (e', c', a') = (
    e' ∙ (ap (λ zs. zs ++ ys) e ∙ rw append_assoc),
    omega (arith, c, c', length-append xs ys),
    a' ∙ (ap (λ acc. fold f acc ys) a ∙ rw fold-append),
  )

  Records-added :
      (event : Event V) (window : Window) (o : Option (WindowState V A))
      → Records o (event ∷ []) (some (added event window o))
  Records-added event window none = (refl, omega arith, refl)
  Records-added event window (some state) = (refl, omega arith, refl)

  Records-same : (o : Option (WindowState V A)) → Records o [] o
  Records-same o = (rw append-nil, omega arith, refl)

  Records-if :
      (event : Event V) (window : Window) (windows : Dict String (WindowState V A)) (k key : String)
      → Records (get windows key) (if string_key.beq k key then event ∷ [] else []) (
          if string_key.beq k key
          then some (added event window (get windows k))
          else get windows key)
  Records-if event window windows k key = elim (Bool-cases (string_key.beq k key)) [
    | inl e ↦ rw e (rw ((eq_iff k key).0 e) (Records-added event window (get windows key)))
    | inr e ↦ rw e (Records-same (get windows key))
  ]

  module _ (keeps : KeepsWindows T) (w : TumblingWindowAssigner) (timed : w.event_time ≡ true) where
    process-put :
        (now : ℤ) (event : Event V) (op : WindowOperator V A T)
        → op.assigner ≡ tumbling w
        → let op' = (process nil (total f) format T now event op).0 in
          (op'.assigner ≡ tumbling w)
          × (op'.windows
              ≡ put op.windows (key_of format w event) (
                  added event
                    (tumbling_at event.event_time w)
                    (get op.windows (key_of format w event))))
    unfolding process assign_windows
    process-put now event op e =
        rw e (
          rw timed
            (rw (keeps event (tumbling_at event.event_time w) op.trigger_state) (refl, refl)))

    Records-put :
        (event : Event V) (windows : Dict String (WindowState V A)) (key : String)
        → Records
            (get windows key)
            (if string_key.beq (key_of format w event) key then event ∷ [] else [])
            (get
              (put windows (key_of format w event) (
                added event (tumbling_at event.event_time w) (get windows (key_of format w event))))
              key)
    Records-put event windows key =
        rw get-put
          (Records-if event (tumbling_at event.event_time w) windows (key_of format w event) key)

    select-cons :
        (now : ℤ) (event : Event V) (es : List (ℤ × Event V)) (key : String)
        → (if string_key.beq (key_of format w event) key then event ∷ [] else [])
            ++ select format w key es
          ≡ select format w key ((now, event) ∷ es)
    select-cons now event es key = elim (Bool-cases (string_key.beq (key_of format w event) key)) [
      | inl e ↦ rw e
      | inr e ↦ rw e
    ]

    Records-process_all :
        (es : List (ℤ × Event V)) (op : WindowOperator V A T) (key : String)
        → op.assigner ≡ tumbling w
        → Records
            (get op.windows key)
            (select format w key es)
            (get (process_all es op).windows key)
    unfolding process_all
    Records-process_all [] op key e = Records-same (get op.windows key)
    Records-process_all ((now, event) ∷ es) op key e =
        let op' = (process nil (total f) format T now event op).0 in
        let (e', p) = process-put now event op e in
        let first : Records (get op.windows key)
            (if string_key.beq (key_of format w event) key then event ∷ [] else [])
            (get op'.windows key) =
          rw p (Records-put event op.windows key) in
        rw (← select-cons now event es key) (
          Records-trans (get op.windows key) (get op'.windows key)
            (get (process_all es op').windows key)
            (if string_key.beq (key_of format w event) key then event ∷ [] else [])
            (select format w key es) first (Records-process_all es op' key e'))

    -- A new tumbling operator on event time holds under each window key, after any events, exactly
    -- those events whose window has the key, in the order in which they came, with their number and
    -- the fold of the aggregate function over them; for a trigger that purges no window when an
    -- element comes, as the program's triggers do not, and an aggregate function without errors.
    pub Records-process_new :
        (es : List (ℤ × Event V)) (s : T.State) (key : String)
        → Records none
            (select format w key es)
            (get (process_all es (new_operator {T = T} (tumbling w) s)).windows key)
    unfolding new_operator get
    Records-process_new es s key =
        Records-process_all es (new_operator {T = T} (tumbling w) s) key refl
