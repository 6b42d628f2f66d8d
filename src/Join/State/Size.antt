-- ===== src/Join/State/Size.antt =====
-- The metric StateSize is the number of stored events, and the bound on each key is kept.
use gress.Common.{
  zero, suc, ◌+◌, ◌%◌, ◌≤◌, ◌≡◌, refl, String, List, [], ◌∷◌, ◌++◌, ℤ, pos, negsuc, length,
  length-append, length-drop, drop, arith, string_key,
}
use gress.Common.Dict.{get, put}
use gress.Stream.{Event}
use gress.Join.Config.{left_side, right_side, StoredEvent}
use gress.Join.State.{
  JoinState, Table, new_join_state, add_left_event, add_right_event, remove_expired_events, clear,
  size, table_size, store, dropped, excess, events_at, or_empty, remove_expired, expired_of,
  kept_of, keep_key, new_stored,
}

-- A call on the state, with the readings of the clock.
pub data StateCall (W : Type 0) : Type 0 where
  add_left : ℤ → Event W → ℤ → StateCall W
  add_right : ℤ → Event W → ℤ → StateCall W
  expire : ℤ → StateCall W
  clear_all : StateCall W

module _ {V : Type 0} where
  table_size-put :
      (table : Table V) (key : String) (events : List (StoredEvent V))
      → table_size (put table key events) + length (or_empty (get table key))
        ≡ table_size table + length events
  unfolding get put
  table_size-put [] key events = omega arith
  table_size-put ((k, old) ∷ table) key events = ground (arith, table_size-put table key events)

  excess-le : (bound : ℤ) (events : List (StoredEvent V)) → excess bound events ≤ length events
  unfolding excess
  excess-le (pos zero) events = omega arith
  excess-le (pos (suc bound)) events = omega arith
  excess-le (negsuc n) events = omega arith

  table_size-store :
      (bound : ℤ) (stored : StoredEvent V) (table : Table V)
      → table_size (store bound stored table) + dropped bound stored table ≡ table_size table + 1
  unfolding store dropped
  table_size-store bound stored table =
      let key = stored.event.key in
      let events = events_at table key ++ stored ∷ [] in
      omega (
        arith,
        table_size-put table key (drop (excess bound events) events),
        length-drop (excess bound events) events,
        excess-le bound events,
        length-append (events_at table key) (stored ∷ []),
      )

  expired-kept :
      (now : ℤ) (events : List (StoredEvent V))
      → length (kept_of now events) + length (expired_of now events) ≡ length events
  unfolding kept_of expired_of
  expired-kept now [] = omega arith
  expired-kept now (stored ∷ events) = ground (arith, expired-kept now events)

  table_size-keep_key :
      (key : String) (events : List (StoredEvent V)) (table : Table V)
      → table_size (keep_key key events table) ≡ length events + table_size table
  table_size-keep_key key [] table = omega arith
  table_size-keep_key key (stored ∷ events) table = omega arith

  table_size-remove_expired :
      (now : ℤ) (table : Table V)
      → table_size (remove_expired now table).0 + length (remove_expired now table).1
        ≡ table_size table
  unfolding remove_expired
  table_size-remove_expired now [] = omega arith
  table_size-remove_expired now ((key, events) ∷ table) = omega (
    arith,
    table_size-remove_expired now table,
    expired-kept now events,
    table_size-keep_key key (kept_of now events) (remove_expired now table).0,
    length-append (expired_of now events) (remove_expired now table).1,
  )

  pub call_state : StateCall V → JoinState V → JoinState V
  call_state (add_left now event expires_at) js = add_left_event now event expires_at js
  call_state (add_right now event expires_at) js = add_right_event now event expires_at js
  call_state (expire now) js = (remove_expired_events now js).0
  call_state clear_all js = clear js

  pub call_all : List (StateCall V) → JoinState V → JoinState V
  call_all [] js = js
  call_all (c ∷ cs) js = call_all cs (call_state c js)

  call_state-size :
      (c : StateCall V) (js : JoinState V)
      → js.metrics.state_size ≡ size js % 18446744073709551616
      → (call_state c js).metrics.state_size ≡ size (call_state c js) % 18446744073709551616
  unfolding call_state add_left_event add_right_event remove_expired_events clear size
  call_state-size (add_left now event expires_at) js h = omega (
    arith,
    h,
    table_size-store js.max_state_size (new_stored left_side now event expires_at) js.left_state,
  )
  call_state-size (add_right now event expires_at) js h = omega (
    arith,
    h,
    table_size-store js.max_state_size (new_stored right_side now event expires_at) js.right_state,
  )
  call_state-size (expire now) js h = omega (
    arith,
    h,
    table_size-remove_expired now js.left_state,
    table_size-remove_expired now js.right_state,
  )
  call_state-size clear_all js h = omega arith

  call_all-size :
      (cs : List (StateCall V)) (js : JoinState V)
      → js.metrics.state_size ≡ size js % 18446744073709551616
      → (call_all cs js).metrics.state_size ≡ size (call_all cs js) % 18446744073709551616
  unfolding call_all
  call_all-size [] js h = h
  call_all-size (c ∷ cs) js h = call_all-size cs (call_state c js) (call_state-size c js h)

  -- After any calls that add, expire or clear events on a new state, the StateSize of the metrics is
  -- what Size counts in the two tables, as an int64.
  pub state_size-eq-size :
      (cs : List (StateCall V)) (bound : ℤ)
      → let js = call_all cs (new_join_state bound) in
        js.metrics.state_size ≡ size js % 18446744073709551616
  unfolding new_join_state size
  state_size-eq-size cs bound = call_all-size cs (new_join_state bound) refl
