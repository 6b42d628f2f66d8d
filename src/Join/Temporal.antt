-- ===== src/Join/Temporal.antt =====
-- pkg/join/temporal_join.go: TemporalJoinOperator, whose right side is a table of versions by key.
-- Each operation holds the operator's lock.
pub mod Lookup
pub mod History
pub mod Cleanup
use gress.Common.{
  ℕ, zero, suc, ◌+◌, ◌-◌, ◌/◌, String, Bool, true, false, ◌&&◌, ◌||◌, not, Option, none, some, List,
  [], ◌∷◌, ◌++◌, if◌then◌else◌, ℤ, ltb_ℤ, ltb, ◌-ℤ◌, length, get_elem?, string_key, zero_time,
  is_zero,
}
use gress.Common.Dict.{Dict, get, put}
use gress.Stream.{Event}
use gress.Join.Config.{JoinConfig, JoinResult, keeps_left}

-- A version that no newer one has closed has the zero time as its end.
pub record Version (V : Type 0) : Type 0 where
  pub event : Event V
  pub valid_from : ℤ
  pub valid_to : ℤ

pub record VersionHistory (V : Type 0) : Type 0 where
  pub key : String
  pub versions : List (Version V)

abbrev pub VersionedTable : Type 0 → Type 0
VersionedTable V = Dict String (VersionHistory V)

module _ {V : Type 0} where
  abbrev pub history_or_new : String → Option (VersionHistory V) → VersionHistory V
  history_or_new key none = record { key = key; versions = [] }
  history_or_new key (some history) = history

  -- The last version ends at the time.
  pub close_last : ℤ → List (Version V) → List (Version V)
  close_last time [] = []
  close_last time (version ∷ []) = record version { valid_to = time } ∷ []
  close_last time (version ∷ next ∷ versions) = version ∷ close_last time (next ∷ versions)

  pub add_version : Event V → List (Version V) → List (Version V)
  unfolding close_last
  add_version event versions =
      close_last event.event_time versions
      ++ record { event = event; valid_from = event.event_time; valid_to = zero_time } ∷ []

  -- UpdateReference
  pub update_reference : Event V → VersionedTable V → VersionedTable V
  unfolding add_version
  update_reference event table =
      let history = history_or_new event.key (get table event.key) in
      put table event.key (record history { versions = add_version event history.versions })

  -- The test of a version's validity at a time, the same in both loops of lookupVersion.
  pub is_valid : ℤ → Version V → Bool
  is_valid time version =
      not (ltb_ℤ time version.valid_from)
      && (is_zero version.valid_to || ltb_ℤ time version.valid_to)

  -- The bounds after a turn of the binary search; a place outside of the list is not reached.
  abbrev pub narrow : ℤ → Option (Version V) → ℕ → ℕ → ℕ → ℕ × ℕ
  narrow time none low mid above = (low, low)
  narrow time (some version) low mid above =
      if ltb_ℤ time version.valid_from then (low, mid) else (mid + 1, above)

  abbrev pub if_valid : ℤ → Option (Version V) → Option (Version V) → Option (Version V)
  if_valid time none rest = none
  if_valid time (some version) rest = if is_valid time version then some version else rest

  -- The binary search from `low` to the place before `above`, which is the source's right + 1.
  pub binary_search : ℕ → ℤ → List (Version V) → ℕ → ℕ → Option (Version V)
  unfolding is_valid
  binary_search zero time versions low above = none
  binary_search (suc fuel) time versions low above =
      let mid = (low + (above - 1)) / 2 in
      let version = get_elem? versions mid in
      let (low', above') = narrow time version low mid above in
      let rest = binary_search fuel time versions low' above' in
      if ltb low above then if_valid time version rest else none

  pub linear_search : ℤ → List (Version V) → Option (Version V)
  unfolding is_valid
  linear_search time [] = none
  linear_search time (version ∷ versions) =
      let rest = linear_search time versions in if is_valid time version then some version else rest

  abbrev pub or_search : Option (Version V) → Option (Version V) → Option (Version V)
  or_search none fallback = fallback
  or_search (some version) fallback = some version

  pub search : ℤ → List (Version V) → Option (Version V)
  unfolding binary_search linear_search
  search time versions =
      or_search (binary_search (length versions) time versions 0 (length versions))
        (linear_search time versions)

  abbrev pub event_of : Option (Version V) → Option (Event V)
  event_of none = none
  event_of (some version) = some version.event

  abbrev pub versions_of : Option (VersionHistory V) → List (Version V)
  versions_of none = []
  versions_of (some history) = history.versions

  -- lookupVersion
  pub lookup_version : String → ℤ → VersionedTable V → Option (Event V)
  unfolding search
  lookup_version key time table = event_of (search time (versions_of (get table key)))

  -- The result of ProcessLeft for the reference event that was found.
  abbrev pub temporal_result :
      JoinConfig → (Event V → Event V → Bool) → Event V → Option (Event V) → List (JoinResult V)
  temporal_result config condition event none =
      if keeps_left config.kind
      then record {
        left = some event;
        right = none;
        event_time = event.event_time;
        join_key = event.key;
      }
        ∷ []
      else []
  temporal_result config condition event (some reference) =
      if condition event reference
      then record {
        left = some event;
        right = some reference;
        event_time = event.event_time;
        join_key = event.key;
      }
        ∷ []
      else []

  -- ProcessLeft
  unfoldable pub process_left :
      JoinConfig → (Event V → Event V → Bool) → Event V → VersionedTable V → List (JoinResult V)
  unfolding lookup_version
  process_left config condition event table =
      temporal_result config condition event (lookup_version event.key event.event_time table)

  -- The loop of cleanup over the versions of a key: the last one stays.
  pub kept_versions : ℤ → List (Version V) → List (Version V)
  kept_versions cutoff [] = []
  kept_versions cutoff (version ∷ []) = version ∷ []
  kept_versions cutoff (version ∷ next ∷ versions) =
      let kept = kept_versions cutoff (next ∷ versions) in
      if is_zero version.valid_to || ltb_ℤ cutoff version.valid_to then version ∷ kept else kept

  abbrev pub keep_history :
      String → VersionHistory V → List (Version V) → VersionedTable V → VersionedTable V
  keep_history key history [] table = table
  keep_history key history (version ∷ versions) table =
      (key, record history { versions = version ∷ versions }) ∷ table

  -- cleanup
  unfoldable pub clean : ℤ → VersionedTable V → VersionedTable V
  unfolding kept_versions
  clean cutoff [] = []
  clean cutoff ((key, history) ∷ table) =
      keep_history key history (kept_versions cutoff history.versions) (clean cutoff table)

  pub cleanup : JoinConfig → ℤ → VersionedTable V → VersionedTable V
  unfolding clean
  cleanup config now table = clean (now -ℤ config.state_retention) table
