-- ===== src/Errors/Dlq/Queue.antt =====
-- What the in-memory dead letter queue holds after writes, reads and deletes.
use mathlib.Core.List.{append_assoc, append-nil}
use native.Mathlib.Decide.{dec_lt}
use gress.Common.{
  ℕ, zero, suc, ◌+◌, ◌-◌, ◌≤◌, ◌<◌, ◌≡◌, refl, ap, String, true, false, Option, none, some, List,
  [], ◌∷◌, ◌++◌, if◌then◌else◌, ℤ, pos, ltb_ℤ, ◌≤ℤ◌, negsuc, sym, ◌∙◌, arith, length, length-append,
  drop, All, inl, inr, Bool-cases, pos_part,
}
use gress.Errors.Dlq.{
  FailedEvent, InMemoryDlq, DlqError, event_not_found, new_dlq, write, matches, delete_first,
  prepend, after_loop, delete,
}

module _ {V : Type 0} where
  unfoldable pub write_all : List (FailedEvent V) → InMemoryDlq V → InMemoryDlq V
  write_all [] dlq = dlq
  write_all (event ∷ events) dlq = write_all events (write event dlq)

  write_room :
      (m : ℕ) (event : FailedEvent V) (xs : List (FailedEvent V))
      → length xs < m
      → write event (record { events = xs; max_size = pos m })
        ≡ record { events = xs ++ event ∷ []; max_size = pos m }
  unfolding write
  write_room m event xs h = ground arith

  write_full :
      (m : ℕ) (event x : FailedEvent V) (xs : List (FailedEvent V))
      → suc (length xs) ≡ m
      → write event (record { events = x ∷ xs; max_size = pos m })
        ≡ record { events = xs ++ event ∷ []; max_size = pos m }
  unfolding write
  write_full m event x xs h = ground arith

  then_write :
      (es : List (FailedEvent V)) {d d' : InMemoryDlq V}
      → d ≡ d'
      → (write_all es d).events ≡ (write_all es d').events
  then_write es e = ap (λ d. (write_all es d).events) e

  -- Dropping the end of a sum.
  drop_by : (i j : ℕ) (xs : List (FailedEvent V)) → i ≡ j → drop i xs ≡ drop j xs
  drop_by i j xs e = ap (λ n. drop n xs) e

  write_all-drop :
      (m : ℕ) (es xs : List (FailedEvent V))
      → 0 < m
      → length xs ≤ m
      → (write_all es (record { events = xs; max_size = pos m })).events
        ≡ drop (length xs + length es - m) (xs ++ es)
  unfolding write_all
  write_all-drop m [] xs p h = rw append-nil (sym (drop_by _ 0 xs (omega arith)))
  write_all-drop m (e ∷ es) [] p h =
      then_write es (write_room m e [] p)
      ∙ (write_all-drop m es (e ∷ []) p (omega arith) ∙ drop_by _ _ (e ∷ es) (omega arith))
  write_all-drop m (e ∷ es) (x ∷ xs) p h = elim (dec_lt (length (x ∷ xs)) m) [
    | yes lt ↦
        then_write es (write_room m e (x ∷ xs) lt)
        ∙ (write_all-drop m es (x ∷ xs ++ e ∷ []) p (omega (arith, length-append xs (e ∷ [])))
            ∙ rw (append_assoc) (
                drop_by (length (x ∷ xs ++ e ∷ []) + length es - m)
                  (length (x ∷ xs) + length (e ∷ es) - m) (x ∷ xs ++ e ∷ es)
                  (omega (arith, length-append xs (e ∷ [])))))
    | no ge ↦
        then_write es (write_full m e x xs (omega arith))
        ∙ (write_all-drop m es (xs ++ e ∷ []) p (omega (arith, length-append xs (e ∷ [])))
            ∙ rw (append_assoc) (
                drop_by _ (length es) _ (omega (arith, length-append xs (e ∷ [])))
                ∙ sym (drop_by _ (suc (length es)) (x ∷ xs ++ e ∷ es) (omega arith))))
  ]

  write_unbounded :
      (bound : ℤ) (event : FailedEvent V) (xs : List (FailedEvent V))
      → bound ≤ℤ pos 0
      → write event (record { events = xs; max_size = bound })
        ≡ record { events = xs ++ event ∷ []; max_size = bound }
  unfolding write
  write_unbounded bound event xs h = ground arith

  write_all-append :
      (bound : ℤ) (es xs : List (FailedEvent V))
      → bound ≤ℤ pos 0
      → (write_all es (record { events = xs; max_size = bound })).events ≡ xs ++ es
  unfolding write_all
  write_all-append bound [] xs h = rw append-nil
  write_all-append bound (e ∷ es) xs h =
      then_write es (write_unbounded bound e xs h)
      ∙ (write_all-append bound es (xs ++ e ∷ []) h ∙ rw append_assoc)

  -- A new queue holds, after any writes, the most recent of them in their order: as many as its
  -- bound if that is positive, and all of them if it is not.
  pub write_all_recent :
      (bound : ℤ) (es : List (FailedEvent V))
      → (write_all es (new_dlq bound)).events
        ≡ (if ltb_ℤ (pos 0) bound then drop (length es - pos_part bound) es else es)
  unfolding new_dlq
  write_all_recent (pos zero) es = write_all-append (pos 0) es [] (omega arith)
  write_all_recent (pos (suc m)) es =
      write_all-drop (suc m) es [] (omega arith) (omega arith) ∙ ground arith
  write_all_recent (negsuc n) es = write_all-append (negsuc n) es [] (omega arith) ∙ ground arith

  -- No event of the list has this key and offset.
  abbrev pub IsAbsent : String → ℤ → List (FailedEvent V) → Type 0
  IsAbsent key offset = All (λ event. matches key offset event ≡ false)

  -- `after` is `events` without the first event of this key and offset.
  pub record Removes (key : String) (offset : ℤ) (events after : List (FailedEvent V))
      : Type 0 where
    pub before : List (FailedEvent V)
    pub event : FailedEvent V
    pub later : List (FailedEvent V)
    pub found : matches key offset event ≡ true
    pub first : IsAbsent key offset before
    pub split : events ≡ before ++ event ∷ later
    pub joined : after ≡ before ++ later

  -- What a Delete has done: removed the first match, or found none.
  abbrev pub Deletes : String → ℤ → List (FailedEvent V) → Option (List (FailedEvent V)) → Type 0
  Deletes key offset events none = IsAbsent key offset events
  Deletes key offset events (some after) = Removes key offset events after

  Deletes-cons :
      (key : String) (offset : ℤ) (event : FailedEvent V) (events : List (FailedEvent V))
      (o : Option (List (FailedEvent V)))
      → matches key offset event ≡ false
      → Deletes key offset events o
      → Deletes key offset (event ∷ events) (prepend event o)
  Deletes-cons key offset event events none e d = (e, d)
  Deletes-cons key offset event events (some after) e d = record {
    before = event ∷ d.before;
    event = d.event;
    later = d.later;
    found = d.found;
    first = (e, d.first);
    split = ap (λ xs. event ∷ xs) d.split;
    joined = ap (λ xs. event ∷ xs) d.joined;
  }

  delete_first-Deletes :
      (key : String) (offset : ℤ) (events : List (FailedEvent V))
      → Deletes key offset events (delete_first key offset events)
  unfolding delete_first
  delete_first-Deletes key offset [] = tt
  delete_first-Deletes key offset (event ∷ events) = elim (Bool-cases (matches key offset event)) [
    | inl e ↦ rw e (record {
      before = [];
      event = event;
      later = events;
      found = e;
      first = tt;
      split = refl;
      joined = refl;
    })
    | inr e ↦ rw e (
        Deletes-cons key offset event events (delete_first key offset events) e
          (delete_first-Deletes key offset events))
  ]

  -- The effect of Delete on the queue, by the error that it returns.
  abbrev pub DeleteEffect : String → ℤ → InMemoryDlq V → InMemoryDlq V → Option DlqError → Type 0
  DeleteEffect key offset dlq dlq' none = Removes key offset dlq.events dlq'.events
  DeleteEffect key offset dlq dlq' (some e) =
      IsAbsent key offset dlq.events × (dlq' ≡ dlq) × (e ≡ event_not_found key offset)

  -- If Delete returns no error, it has removed the first event of the key and offset, and kept the
  -- others in their order; if it returns one, there is no such event and the queue is as it was.
  pub delete-DeleteEffect :
      (key : String) (offset : ℤ) (dlq : InMemoryDlq V)
      → DeleteEffect key offset dlq (delete key offset dlq).0 (delete key offset dlq).1
  unfolding delete
  delete-DeleteEffect key offset dlq =
      go (delete_first key offset dlq.events) (delete_first-Deletes key offset dlq.events)
    where
      go :
          (o : Option (List (FailedEvent V)))
          → Deletes key offset dlq.events o
          → DeleteEffect key offset dlq
              (after_loop key offset dlq o).0
              (after_loop key offset dlq o).1
      go none d = (d, refl, refl)
      go (some after) d = d
