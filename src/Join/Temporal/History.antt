-- ===== src/Join/Temporal/History.antt =====
-- The versions of a key whose reference events came in the order of their times.
use mathlib.Core.Option.{some-injective}
use mathlib.Core.List.{append-nil, append_assoc}
use text.Mathlib.TextEquality.{eq_iff}
use gress.Common.{
  ℕ, zero, suc, ◌≡◌, refl, ap, ◌∙◌, sym, String, Bool, true, false, Option, none, some, List, [],
  ◌∷◌, ◌++◌, if◌then◌else◌, ℤ, pos, leb_ℤ, ◌≤ℤ◌, ◌<ℤ◌, get_elem?, arith, All, Bool-cases, inl, inr,
  string_key, zero_time,
}
use gress.Common.Dict.{get, get-put}
use gress.Stream.{Event}
use gress.Join.Operator.Reference.{of_key}
use gress.Join.Temporal.{
  Version, VersionHistory, VersionedTable, is_valid, versions_of, close_last, add_version,
  update_reference, lookup_version, history_or_new, event_of, search, binary_search, linear_search,
}
use gress.Join.Temporal.Lookup.{FindsEvent, lookup_version-FindsEvent}

All-map :
    {A : Type 0} {P Q : A → Type 0} → ((x : A) → P x → Q x) → (xs : List A) → All P xs → All Q xs
All-map f [] h = tt
All-map f (x ∷ xs) (p, ps) = (f x p, All-map f xs ps)

pub All-get :
    {A : Type 0} (P : A → Type 0) (xs : List A) (i : ℕ) (x : A)
    → All P xs
    → get_elem? xs i ≡ some x
    → P x
All-get P [] i x ps e = absurd (ground arith)
All-get P (y ∷ xs) zero x (p, ps) e = rw (some-injective y x e) at p
All-get P (y ∷ xs) (suc i) x (p, ps) e = All-get P xs i x ps e

module _ {V : Type 0} where
  -- The reference events of a run, the oldest first.
  unfoldable pub update_all : List (Event V) → VersionedTable V → VersionedTable V
  update_all [] table = table
  update_all (event ∷ events) table = update_all events (update_reference event table)

  -- The versions that events leave: each ends where the next one starts.
  abbrev pub chain : List (Event V) → List (Version V)
  chain [] = []
  chain (event ∷ []) =
      record { event = event; valid_from = event.event_time; valid_to = zero_time } ∷ []
  chain (event ∷ next ∷ events) =
      record { event = event; valid_from = event.event_time; valid_to = next.event_time }
      ∷ chain (next ∷ events)

  chain-add_version :
      (event : Event V) (events : List (Event V))
      → add_version event (chain events) ≡ chain (events ++ event ∷ [])
  unfolding add_version close_last
  chain-add_version event [] = refl
  chain-add_version event (x ∷ []) = refl
  chain-add_version event (x ∷ y ∷ []) = refl
  chain-add_version event (x ∷ y ∷ z ∷ events) =
      ap (λ vs. record { event = x; valid_from = x.event_time; valid_to = y.event_time } ∷ vs)
        (chain-add_version event (y ∷ z ∷ events))

  versions-update :
      (event : Event V) (table : VersionedTable V) (key : String)
      → versions_of (get (update_reference event table) key) ≡ (
          if string_key.beq event.key key
          then add_version event (versions_of (get table key))
          else versions_of (get table key))
  unfolding update_reference
  versions-update event table key = rw get-put (elim (Bool-cases (string_key.beq event.key key)) [
    | inl e ↦ rw e (rw (sym ((eq_iff event.key key).0 e)) (same (get table event.key)))
    | inr e ↦ rw e refl
  ])
    where
      same :
          (o : Option (VersionHistory V))
          → add_version event (history_or_new event.key o).versions
            ≡ add_version event (versions_of o)
      same none = refl
      same (some history) = refl

  -- The events of the key, after those that are already in the table.
  pub versions-update_all :
      (events past : List (Event V)) (table : VersionedTable V) (key : String)
      → versions_of (get table key) ≡ chain past
      → versions_of (get (update_all events table) key) ≡ chain (past ++ of_key key events)
  unfolding update_all
  versions-update_all [] past table key h = h ∙ ap chain (sym (append-nil (past)))
  versions-update_all (event ∷ events) past table key h =
      elim (Bool-cases (string_key.beq event.key key)) [
        | inl e ↦ rw e (
            versions-update_all events (past ++ event ∷ []) (update_reference event table) key (
              versions-update event table key
              ∙ (rw e (ap (add_version event) h ∙ chain-add_version event past)))
            ∙ ap chain (rw append_assoc))
        | inr e ↦ rw e (
            versions-update_all events past (update_reference event table) key
              (versions-update event table key ∙ rw e h))
      ]

  -- The times do not fall, and none of them is the zero time or before it.
  abbrev pub InOrder : ℤ → List (Event V) → Type 0
  InOrder least [] = Unit
  InOrder least (event ∷ events) = (least ≤ℤ event.event_time) × InOrder event.event_time events

  abbrev pub or_this : Option (Event V) → Event V → Bool → Option (Event V)
  or_this none event true = some event
  or_this none event false = none
  or_this (some later) event b = some later

  -- The last event that is not after the time.
  abbrev pub last_at : ℤ → List (Event V) → Option (Event V)
  last_at time [] = none
  last_at time (event ∷ events) = or_this (last_at time events) event (leb_ℤ event.event_time time)

  -- The event of a version that is valid, or none.
  abbrev AsOf : ℤ → List (Version V) → Option (Event V) → Type 0
  AsOf time versions o = (o : Option (Event V)) → FindsEvent time versions o

  last_at_before :
      (time least : ℤ) (events : List (Event V))
      → time <ℤ least
      → InOrder least events
      → last_at time events ≡ none
  last_at_before time least [] h s = refl
  last_at_before time least (event ∷ events) h (le, s) =
      rw (last_at_before time event.event_time events (omega (arith, h, le)) s)
        (ground (arith, h, le))

  pub last_at_valid :
      (time least : ℤ) (events : List (Event V))
      → pos 0 <ℤ least
      → InOrder least events
      → All
          (λ version. is_valid time version ≡ true → last_at time events ≡ some version.event)
          (chain events)
  unfolding is_valid
  last_at_valid time least [] p s = tt
  last_at_valid time least (event ∷ []) p s = (λ v. ground arith, tt)
  last_at_valid time least (event ∷ next ∷ events) p (le, s) = (
    λ v.
        let later : time <ℤ next.event_time = ground (arith, v, p, le, s.0) in
        rw (last_at_before time next.event_time (next ∷ events) later (omega arith, s.1))
          (ground (arith, v)),
    All-map (λ version h v. rw (h v) refl) (chain (next ∷ events))
        (last_at_valid time event.event_time (next ∷ events) (omega (arith, p, le)) s),
  )

  or_this-none :
      (o : Option (Event V)) (event : Event V) (b : Bool) → or_this o event b ≡ none → b ≡ false
  or_this-none none event true h = ground (arith, h)
  or_this-none none event false h = refl
  or_this-none (some later) event b h = ground (arith, h)

  last_at-none :
      (time least : ℤ) (events : List (Event V))
      → pos 0 <ℤ least
      → InOrder least events
      → All (λ version. is_valid time version ≡ false) (chain events)
      → last_at time events ≡ none
  unfolding is_valid
  last_at-none time least [] p s v = refl
  last_at-none time least (event ∷ []) p (le, s) v = ground arith
  last_at-none time least (event ∷ next ∷ events) p (le, s) (v, vs) =
      let none_later =
        last_at-none time event.event_time (next ∷ events) (omega (arith, p, le)) s vs in
      let after = or_this-none (last_at time events) next (leb_ℤ next.event_time time) none_later in
      rw none_later (ground (arith, after, v, s, le, p))

  pub found_last :
      (time : ℤ) (events : List (Event V)) (o : Option (Event V))
      → InOrder (pos 1) events
      → FindsEvent time (chain events) o
      → o ≡ last_at time events
  found_last time events none s f = sym (last_at-none time (pos 1) events (omega arith) s f)
  found_last time events (some event) s (version, f, e) =
      ap some (sym e)
      ∙ sym (
          All-get (λ v. is_valid time v ≡ true → last_at time events ≡ some v.event) (chain events)
            f.place version (last_at_valid time (pos 1) events (omega arith) s) f.there f.valid)

  -- After reference events that come, for this key, in the order of their times, all past the zero
  -- time, a lookup finds the last event of the key that is not after the time asked for.
  pub lookup_version-last_at :
      (events : List (Event V)) (key : String) (time : ℤ)
      → InOrder (pos 1) (of_key key events)
      → lookup_version key time (update_all events []) ≡ last_at time (of_key key events)
  unfolding get
  lookup_version-last_at events key time s =
      let table = update_all events [] in
      found_last time (of_key key events) (lookup_version key time table) s (
        rw (versions-update_all events [] [] key refl) at
          (lookup_version-FindsEvent key time table))

  two_of_key :
      (first late : Event V)
      → late.key ≡ first.key
      → of_key first.key (first ∷ late ∷ []) ≡ first ∷ late ∷ []
  two_of_key first late same =
      ground (arith, same, eq_iff first.key first.key, eq_iff late.key first.key)

  search_late :
      (first late : Event V) (time : ℤ)
      → pos 0 <ℤ late.event_time
      → late.event_time <ℤ first.event_time
      → first.event_time ≤ℤ time
      → event_of (search time (chain (first ∷ late ∷ []))) ≡ some late
  unfolding search binary_search linear_search is_valid
  search_late first late time positive older h = ground arith

  -- Of two reference events of a key, the only ones, where the second is the older one and past
  -- the zero time, the lookup finds the second at every time from the first one on: it hides the
  -- newer event.
  pub late_reference_hides :
      (first late : Event V) (time : ℤ)
      → late.key ≡ first.key
      → pos 0 <ℤ late.event_time
      → late.event_time <ℤ first.event_time
      → first.event_time ≤ℤ time
      → lookup_version first.key time (update_all (first ∷ late ∷ []) []) ≡ some late
  unfolding lookup_version get
  late_reference_hides first late time same positive older h =
      rw (versions-update_all (first ∷ late ∷ []) [] [] first.key refl)
        (rw (two_of_key first late same) (search_late first late time positive older h))
