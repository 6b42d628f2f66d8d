-- ===== src/Join/Temporal/Cleanup.antt =====
-- What cleanup leaves of the versions.
use gress.Common.{
  ◌≡◌, refl, ap, ◌∙◌, sym, String, true, false, Option, none, some, List, [], ◌∷◌, ◌||◌,
  if◌then◌else◌, ℤ, pos, ltb_ℤ, ◌≤ℤ◌, ◌-ℤ◌, arith, All, Bool-cases, inl, inr, string_key, is_zero,
}
use gress.Common.Dict.{get, put}
use gress.Stream.{Event}
use gress.Join.Config.{JoinConfig}
use gress.Join.Operator.Reference.{of_key}
use gress.Join.Temporal.{
  Version, VersionHistory, VersionedTable, is_valid, versions_of, kept_versions, keep_history,
  clean, cleanup, update_reference, lookup_version, add_version, close_last, history_or_new,
}
use gress.Join.Temporal.Lookup.{FindsEvent, lookup_version-FindsEvent}
use gress.Join.Temporal.History.{
  update_all, chain, InOrder, last_at, lookup_version-last_at, versions-update_all, found_last,
  All-get, last_at_valid,
}

module _ {V : Type 0} where
  -- No history is empty: a history that is found after cleanup is the one that was found before.
  abbrev Filled : VersionedTable V → Type 0
  Filled = All (λ entry. (v : Version V) × (vs : List (Version V)) × (entry.1.versions ≡ v ∷ vs))

  kept_filled :
      (cutoff : ℤ) (v : Version V) (vs : List (Version V))
      → (w : Version V) × (ws : List (Version V)) × (kept_versions cutoff (v ∷ vs) ≡ w ∷ ws)
  unfolding kept_versions
  kept_filled cutoff v [] = (v, [], refl)
  kept_filled cutoff v (next ∷ vs) =
      elim (Bool-cases (is_zero v.valid_to || ltb_ℤ cutoff v.valid_to)) [
        | inl e ↦ rw e (v, kept_versions cutoff (next ∷ vs), refl)
        | inr e ↦ rw e (kept_filled cutoff next vs)
      ]

  get-keep_history :
      (k key : String) (history : VersionHistory V) (vs : List (Version V))
      (table : VersionedTable V)
      → (w : Version V) × (ws : List (Version V)) × (vs ≡ w ∷ ws)
      → versions_of (get (keep_history k history vs table) key)
        ≡ (if string_key.beq k key then vs else versions_of (get table key))
  unfolding get
  get-keep_history k key history [] table (w, ws, e) = absurd (ground (arith, e))
  get-keep_history k key history (v ∷ vs) table f = elim (Bool-cases (string_key.beq k key)) [
    | inl same ↦ rw same refl
    | inr other ↦ rw other refl
  ]

  get-clean :
      (cutoff : ℤ) (table : VersionedTable V) (key : String)
      → Filled table
      → versions_of (get (clean cutoff table) key)
        ≡ kept_versions cutoff (versions_of (get table key))
  unfolding clean get
  get-clean cutoff [] key f = refl
  get-clean cutoff ((k, history) ∷ table) key ((v, vs, e), f) =
      get-keep_history k key history (kept_versions cutoff history.versions) (clean cutoff table)
        (rw e (kept_filled cutoff v vs))
      ∙ elim (Bool-cases (string_key.beq k key)) [
        | inl same ↦ rw same refl
        | inr other ↦ rw other (get-clean cutoff table key f)
      ]

  Filled-put :
      (table : VersionedTable V) (key : String) (history : VersionHistory V)
      → (v : Version V) × (vs : List (Version V)) × (history.versions ≡ v ∷ vs)
      → Filled table
      → Filled (put table key history)
  unfolding put
  Filled-put [] key history h f = (h, tt)
  Filled-put ((k, old) ∷ table) key history h (o, f) = elim (Bool-cases (string_key.beq k key)) [
    | inl same ↦ rw same (h, f)
    | inr other ↦ rw other (o, Filled-put table key history h f)
  ]

  add_version-filled :
      (event : Event V) (vs : List (Version V))
      → (w : Version V) × (ws : List (Version V)) × (add_version event vs ≡ w ∷ ws)
  unfolding add_version close_last
  add_version-filled event [] = (_, _, refl)
  add_version-filled event (v ∷ []) = (_, _, refl)
  add_version-filled event (v ∷ next ∷ vs) = (_, _, refl)

  Filled-update_all :
      (events : List (Event V)) (table : VersionedTable V)
      → Filled table
      → Filled (update_all events table)
  unfolding update_all update_reference
  Filled-update_all [] table f = f
  Filled-update_all (event ∷ events) table f =
      let history = history_or_new event.key (get table event.key) in
      Filled-update_all events (update_reference event table) (
        Filled-put table event.key
          (record history { versions = add_version event history.versions })
          (add_version-filled event history.versions) f)

  All-kept :
      (P : Version V → Type 0) (cutoff : ℤ) (vs : List (Version V))
      → All P vs
      → All P (kept_versions cutoff vs)
  unfolding kept_versions
  All-kept P cutoff [] h = h
  All-kept P cutoff (v ∷ []) h = h
  All-kept P cutoff (v ∷ next ∷ vs) (p, ps) =
      elim (Bool-cases (is_zero v.valid_to || ltb_ℤ cutoff v.valid_to)) [
        | inl e ↦ rw e (p, All-kept P cutoff (next ∷ vs) ps)
        | inr e ↦ rw e (All-kept P cutoff (next ∷ vs) ps)
      ]

  -- A version that is not kept is not valid at the cutoff or later.
  none_kept :
      (cutoff time : ℤ) (vs : List (Version V))
      → cutoff ≤ℤ time
      → All (λ v. is_valid time v ≡ false) (kept_versions cutoff vs)
      → All (λ v. is_valid time v ≡ false) vs
  unfolding kept_versions is_valid
  none_kept cutoff time [] h f = tt
  none_kept cutoff time (v ∷ []) h f = f
  none_kept cutoff time (v ∷ next ∷ vs) h f =
      elim (Bool-cases (is_zero v.valid_to || ltb_ℤ cutoff v.valid_to)) [
        | inl e ↦
            let g : All (λ v. is_valid time v ≡ false) (v ∷ kept_versions cutoff (next ∷ vs)) =
              rw e at f in
            (g.0, none_kept cutoff time (next ∷ vs) h g.1)
        | inr e ↦ (ground (arith, e, h), none_kept cutoff time (next ∷ vs) h (rw e at f))
      ]

  -- What holds of each version of the chain holds of each that is kept, so a lookup that finds a kept
  -- version finds the last event.
  kept_last :
      (cutoff time : ℤ) (events : List (Event V)) (o : Option (Event V))
      → cutoff ≤ℤ time
      → InOrder (pos 1) events
      → FindsEvent time (kept_versions cutoff (chain events)) o
      → o ≡ last_at time events
  kept_last cutoff time events none h s f =
      found_last time events none s (none_kept cutoff time (chain events) h f)
  kept_last cutoff time events (some event) h s (version, f, e) =
      ap some (sym e)
      ∙ sym (
          All-get (λ v. is_valid time v ≡ true → last_at time events ≡ some v.event)
            (kept_versions cutoff (chain events)) f.place version
            (All-kept _ cutoff (chain events) (last_at_valid time (pos 1) events (omega arith) s))
            f.there f.valid)

  -- After reference events that come, for this key, in the order of their times, all past the
  -- zero time, a cleanup changes no lookup of the key at a time that is within the retention.
  pub lookup_version-cleanup :
      (config : JoinConfig) (now : ℤ) (events : List (Event V)) (key : String) (time : ℤ)
      → InOrder (pos 1) (of_key key events)
      → now -ℤ config.state_retention ≤ℤ time
      → lookup_version key time (cleanup config now (update_all events []))
        ≡ lookup_version key time (update_all events [])
  unfolding cleanup get
  lookup_version-cleanup config now events key time s h =
      let cutoff = now -ℤ config.state_retention in
      let table = clean cutoff (update_all events []) in
      let versions : versions_of (get table key)
          ≡ kept_versions cutoff (chain (of_key key events)) =
        get-clean cutoff (update_all events []) key (Filled-update_all events [] tt)
        ∙ ap (kept_versions cutoff) (versions-update_all events [] [] key refl) in
      kept_last cutoff time (of_key key events) (lookup_version key time table) h s
        (rw versions at (lookup_version-FindsEvent key time table))
      ∙ sym (lookup_version-last_at events key time s)
