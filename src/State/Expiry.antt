-- ===== src/State/Expiry.antt =====
-- What Get returns after a Put, a restored snapshot, a cleanup and a deletion that comes late.
use text.Mathlib.TextEquality.{eq_iff}
use gress.Common.{
  ◌≡◌, refl, ap, ◌∙◌, sym, String, Bool, true, ◌&&◌, Option, none, some, [], ◌∷◌, if◌then◌else◌, ℤ,
  pos, ◌+ℤ◌, +ℤ_parts, ltb_ℤ, ◌≤ℤ◌, arith, string_key, Bool-cases, inl, inr, is_zero, not,
}
use gress.Common.Dict.{Dict, get, get-put, get-remove}
use gress.State.{
  Bytes, ValueWithTtl, MemoryStateBackend, has_expired, got, get_value, put_with_ttl, put_value,
  delete, run_deletion, live_entries, Json, snapshot, restored_entries, restore, clean_expired,
  clean,
}

-- The entry of a key as Get sees it.
abbrev seen : Bool → ℤ → Option ValueWithTtl → Option Bytes
seen ttl_enabled now none = none
seen ttl_enabled now (some value) =
    if has_expired ttl_enabled now value then none else some value.bytes

value-get_value :
    (now : ℤ) (key : String) (m : MemoryStateBackend)
    → (get_value now key m).1 ≡ seen m.ttl_enabled now (get m.entries key)
unfolding get_value
value-get_value now key m = go (get m.entries key)
  where
    go : (o : Option ValueWithTtl) → (got now key o m).1 ≡ seen m.ttl_enabled now o
    go none = refl
    go (some value) = ground arith

-- After a Put with a lifetime, at a time not before the zero time, a Get of the key returns the
-- value until the lifetime is over, and nothing after that if the backend has lifetimes and this
-- one is positive; a Get of another key is as before.
pub get_value-put_with_ttl :
    (now later : ℤ) (key j : String) (value : Bytes) (ttl : ℤ) (m : MemoryStateBackend)
    → pos 0 ≤ℤ now
    → (get_value later j (put_with_ttl now key value ttl m)).1 ≡ (
        if string_key.beq key j
        then (if m.ttl_enabled && (ltb_ℤ (pos 0) ttl && ltb_ℤ (now +ℤ ttl) later)
            then none
            else some value)
        else (get_value later j m).1)
unfolding put_with_ttl has_expired
get_value-put_with_ttl now later key j value ttl m h = rw (value-get_value later j m) (
    value-get_value later j (put_with_ttl now key value ttl m)
    ∙ rw get-put (ground (arith, +ℤ_parts now ttl, h)))

-- Every key stands once in the entries, as in a Go map.
unfoldable pub IsMap : {A : Type 0} → Dict String A → Type 0
IsMap [] = Unit
IsMap ((key, value) ∷ entries) = (get entries key ≡ none) × IsMap entries

-- Marshal, where it returns no error, writes what Unmarshal reads as a map with the same values.
pub record IsFaithful (json : Json) : Type 0 where
  pub reads :
      (values : Dict String Bytes) (bytes : Bytes)
      → json.marshal values ≡ some bytes
      → (read : Dict String Bytes) × (json.unmarshal bytes ≡ some read)
        × ((key : String) → get read key ≡ get values key)

get-live_entries :
    (ttl_enabled : Bool) (now : String → ℤ) (entries : Dict String ValueWithTtl) (key : String)
    → IsMap entries
    → get (live_entries ttl_enabled now entries) key ≡ seen ttl_enabled (now key) (get entries key)
unfolding get live_entries IsMap
get-live_entries ttl_enabled now [] key m = refl
get-live_entries ttl_enabled now ((k, value) ∷ entries) key (once, m) =
    let later = get-live_entries ttl_enabled now entries key m in
    elim (Bool-cases (string_key.beq k key)) [
      | inl same ↦
          let equal : k ≡ key = (eq_iff k key).0 same in
          let gone = rw equal at once in
          let here : has_expired ttl_enabled (now k) value
              ≡ has_expired ttl_enabled (now key) value =
            ap (λ j. has_expired ttl_enabled (now j) value) equal in
          elim (Bool-cases (has_expired ttl_enabled (now k) value)) [
            | inl e ↦ rw e (rw same (rw (sym here ∙ e) (later ∙ rw gone refl)))
            | inr e ↦ rw e (rw same (rw (sym here ∙ e) refl))
          ]
      | inr other ↦ elim (Bool-cases (has_expired ttl_enabled (now k) value)) [
        | inl e ↦ rw e (rw other later)
        | inr e ↦ rw e (rw other later)
      ]
    ]

seen-restored_entries :
    (ttl_enabled : Bool) (now : ℤ) (values : Dict String Bytes) (key : String)
    → seen ttl_enabled now (get (restored_entries values) key) ≡ get values key
unfolding get restored_entries has_expired
seen-restored_entries ttl_enabled now [] key = refl
seen-restored_entries ttl_enabled now ((k, value) ∷ values) key =
    elim (Bool-cases (string_key.beq k key)) [
      | inl same ↦ rw same (ground arith)
      | inr other ↦ rw other (seen-restored_entries ttl_enabled now values key)
    ]

get-clean_expired :
    (now later : ℤ) (entries : Dict String ValueWithTtl) (key : String)
    → now ≤ℤ later
    → IsMap entries
    → seen true later (get (clean_expired now entries) key) ≡ seen true later (get entries key)
unfolding get clean_expired IsMap has_expired
get-clean_expired now later [] key le m = refl
get-clean_expired now later ((k, value) ∷ entries) key le (once, m) =
    let rest = get-clean_expired now later entries key le m in
    let late = not (is_zero value.expiry_time) && ltb_ℤ value.expiry_time now in
    elim (Bool-cases (string_key.beq k key)) [
      | inl same ↦
          let gone = rw ((eq_iff k key).0 same) at once in
          elim (Bool-cases late) [
            | inl e ↦ rw e (rw same (rest ∙ rw gone (ground (arith, e, le))))
            | inr e ↦ rw e (rw same refl)
          ]
      | inr other ↦ elim (Bool-cases late) [
        | inl e ↦ rw e (rw other rest)
        | inr e ↦ rw e (rw other rest)
      ]
    ]

-- A snapshot, where Marshal gave no error, that is restored into whatever backend answers every
-- Get, at whatever reading of the clock, with what the backend that it was taken of answered at
-- the reading of the clock at which the snapshot tested the key: what had expired is gone, and the rest, restored without lifetimes,
-- never expires. Each key stands once in the entries, and the JSON is read back as it was
-- written.
pub get_value-restore-snapshot :
    (json : Json) (now : String → ℤ) (later : ℤ) (key : String) (bytes : Bytes)
    (m target : MemoryStateBackend)
    → IsFaithful json
    → IsMap m.entries
    → snapshot json now m ≡ some bytes
    → ((restore json bytes target).1 ≡ true)
      × ((get_value later key (restore json bytes target).0).1 ≡ (get_value (now key) key m).1)
unfolding snapshot restore
get_value-restore-snapshot json now later key bytes m target f once e =
    let values = live_entries m.ttl_enabled now m.entries in
    let (read, decoded, same) = f.reads values bytes e in
    rw decoded (
      refl,
      value-get_value later key (record target { entries = restored_entries read })
          ∙ (seen-restored_entries target.ttl_enabled later read key
              ∙ (same key
                  ∙ (get-live_entries m.ttl_enabled now m.entries key once
                      ∙ sym (value-get_value (now key) key m)))),
    )

-- In a backend with lifetimes, in which each key stands once, a cleanup changes the answer of no
-- Get at its time or later.
pub get_value-clean :
    (now later : ℤ) (key : String) (m : MemoryStateBackend)
    → m.ttl_enabled ≡ true
    → now ≤ℤ later
    → IsMap m.entries
    → (get_value later key (clean now m)).1 ≡ (get_value later key m).1
unfolding clean
get_value-clean now later key m on le once = rw (value-get_value later key m) (
    value-get_value later key (clean now m)
    ∙ rw on (get-clean_expired now later m.entries key le once))

started :
    (now : ℤ) (key : String) (old : ValueWithTtl) (m : MemoryStateBackend)
    → m.deleting ≡ []
    → get m.entries key ≡ some old
    → has_expired m.ttl_enabled now old ≡ true
    → (get_value now key m).0 ≡ record m { deleting = key ∷ [] }
unfolding get_value
started now key old m idle found expired = simp (found, expired, idle) refl

value-delete :
    (now : ℤ) (key : String) (m : MemoryStateBackend) → (get_value now key (delete key m)).1 ≡ none
unfolding delete
value-delete now key m =
    value-get_value now key (delete key m) ∙ rw get-remove (ground (arith, eq_iff key key))

-- Where no deletion is waiting, the deletion that a Get starts for an expired entry removes a
-- value that a Put has stored before it runs: a later Get finds nothing.
pub late_deletion :
    (now later after : ℤ) (key : String) (old : ValueWithTtl) (value : Bytes)
    (m : MemoryStateBackend)
    → m.deleting ≡ []
    → get m.entries key ≡ some old
    → has_expired m.ttl_enabled now old ≡ true
    → (get_value after key (run_deletion (put_value later key value (get_value now key m).0))).1
      ≡ none
unfolding put_value put_with_ttl run_deletion
late_deletion now later after key old value m idle found expired =
    rw (started now key old m idle found expired) (
      value-delete after key
        (record (put_value later key value (record m { deleting = key ∷ [] })) { deleting = [] }))
