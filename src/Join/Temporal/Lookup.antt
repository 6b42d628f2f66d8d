-- ===== src/Join/Temporal/Lookup.antt =====
-- What lookupVersion finds, in a list of versions in any order.
use gress.Common.{
  ℕ, zero, suc, ◌+◌, ◌-◌, ◌/◌, ◌≤◌, ◌≡◌, refl, ap, String, true, false, Option, none, some, List,
  [], ◌∷◌, ℤ, ltb, length, get_elem?, arith, All, Bool-cases, inl, inr, string_key,
}
use gress.Common.Dict.{get}
use gress.Stream.{Event}
use gress.Join.Temporal.{
  Version, VersionedTable, is_valid, narrow, if_valid, binary_search, linear_search, or_search,
  search, event_of, versions_of, lookup_version,
}

module _ {V : Type 0} where
  -- A version of the list that is valid at the time.
  pub record Valid (time : ℤ) (versions : List (Version V)) (version : Version V) : Type 0 where
    pub place : ℕ
    pub there : get_elem? versions place ≡ some version
    pub valid : is_valid time version ≡ true

  abbrev IsSound : ℤ → List (Version V) → Option (Version V) → Type 0
  IsSound time versions none = Unit
  IsSound time versions (some version) = Valid time versions version

  -- What a complete search gives: a valid version, or none where no version is valid.
  abbrev pub Finds : ℤ → List (Version V) → Option (Version V) → Type 0
  Finds time versions none = All (λ version. is_valid time version ≡ false) versions
  Finds time versions (some version) = Valid time versions version

  if_valid-IsSound :
      (time : ℤ) (versions : List (Version V)) (mid : ℕ) (o rest : Option (Version V))
      → get_elem? versions mid ≡ o
      → IsSound time versions rest
      → IsSound time versions (if_valid time o rest)
  if_valid-IsSound time versions mid none rest e h = tt
  if_valid-IsSound time versions mid (some version) rest e h =
      elim (Bool-cases (is_valid time version)) [
        | inl valid ↦ rw valid (record { place = mid; there = e; valid = valid })
        | inr other ↦ rw other h
      ]

  binary_search-IsSound :
      (fuel : ℕ) (time : ℤ) (versions : List (Version V)) (low above : ℕ)
      → IsSound time versions (binary_search fuel time versions low above)
  unfolding binary_search
  binary_search-IsSound zero time versions low above = tt
  binary_search-IsSound (suc fuel) time versions low above =
      let mid = (low + (above - 1)) / 2 in
      let version = get_elem? versions mid in
      let (low', above') = narrow time version low mid above in
      let rest = binary_search fuel time versions low' above' in
      elim (Bool-cases (ltb low above)) [
        | inl go ↦ rw go (
            if_valid-IsSound time versions mid version rest refl
              (binary_search-IsSound fuel time versions low' above'))
        | inr stop ↦ rw stop tt
      ]

  Finds-cons :
      (time : ℤ) (version : Version V) (versions : List (Version V)) (o : Option (Version V))
      → is_valid time version ≡ false
      → Finds time versions o
      → Finds time (version ∷ versions) o
  Finds-cons time version versions none e h = (e, h)
  Finds-cons time version versions (some found) e h = record {
    place = suc h.place;
    there = h.there;
    valid = h.valid;
  }

  linear_search-Finds :
      (time : ℤ) (versions : List (Version V)) → Finds time versions (linear_search time versions)
  unfolding linear_search
  linear_search-Finds time [] = tt
  linear_search-Finds time (version ∷ versions) = elim (Bool-cases (is_valid time version)) [
    | inl valid ↦ rw valid (record { place = 0; there = refl; valid = valid })
    | inr other ↦ rw other (
        Finds-cons time version versions (linear_search time versions) other
          (linear_search-Finds time versions))
  ]

  or_search-Finds :
      (time : ℤ) (versions : List (Version V)) (o fallback : Option (Version V))
      → IsSound time versions o
      → Finds time versions fallback
      → Finds time versions (or_search o fallback)
  or_search-Finds time versions none fallback s f = f
  or_search-Finds time versions (some version) fallback s f = s

  pub search-Finds :
      (time : ℤ) (versions : List (Version V)) → Finds time versions (search time versions)
  unfolding search
  search-Finds time versions =
      or_search-Finds time versions
        (binary_search (length versions) time versions 0 (length versions))
        (linear_search time versions)
        (binary_search-IsSound (length versions) time versions 0 (length versions))
        (linear_search-Finds time versions)

  narrow-width :
      (fuel : ℕ) (time : ℤ) (o : Option (Version V)) (low above : ℕ)
      → ltb low above ≡ true
      → above - low ≤ suc fuel
      → let (low', above') = narrow time o low ((low + (above - 1)) / 2) above in
        above' - low' ≤ fuel
  narrow-width fuel time none low above go h = omega arith
  narrow-width fuel time (some version) low above go h = ground arith

  -- The binary search stops by itself: with at least as much fuel as the range is wide, more
  -- fuel changes nothing.
  pub binary_search_more :
      (fuel more : ℕ) (time : ℤ) (versions : List (Version V)) (low above : ℕ)
      → above - low ≤ fuel
      → fuel ≤ more
      → binary_search more time versions low above ≡ binary_search fuel time versions low above
  unfolding binary_search
  binary_search_more zero zero time versions low above h le = refl
  binary_search_more zero (suc more) time versions low above h le = ground arith
  binary_search_more (suc fuel) zero time versions low above h le = absurd (omega arith)
  binary_search_more (suc fuel) (suc more) time versions low above h le =
      let mid = (low + (above - 1)) / 2 in
      let version = get_elem? versions mid in
      let (low', above') = narrow time version low mid above in
      elim (Bool-cases (ltb low above)) [
        | inl go ↦ rw go (
            ap (if_valid time version) (
              binary_search_more fuel more time versions low' above'
                (narrow-width fuel time version low above go h) (omega arith)))
        | inr stop ↦ rw stop refl
      ]

  -- What a lookup gives: the event of a version that is valid at the time, or none where no version
  -- is.
  abbrev pub FindsEvent : ℤ → List (Version V) → Option (Event V) → Type 0
  FindsEvent time versions none = All (λ version. is_valid time version ≡ false) versions
  FindsEvent time versions (some event) =
      (version : Version V) × Valid time versions version × (version.event ≡ event)

  event_of-FindsEvent :
      (time : ℤ) (versions : List (Version V)) (o : Option (Version V))
      → Finds time versions o
      → FindsEvent time versions (event_of o)
  event_of-FindsEvent time versions none f = f
  event_of-FindsEvent time versions (some version) f = (version, f, refl)

  -- The lookup of a key finds the event of a version of the key that is valid at the time, and finds
  -- none only where no version of the key is valid: in whatever order the versions came.
  pub lookup_version-FindsEvent :
      (key : String) (time : ℤ) (table : VersionedTable V)
      → FindsEvent time (versions_of (get table key)) (lookup_version key time table)
  unfolding lookup_version
  lookup_version-FindsEvent key time table =
      let versions = versions_of (get table key) in
      event_of-FindsEvent time versions (search time versions) (search-Finds time versions)
