-- ===== src/State/Tests.antt =====
-- The state backend at concrete inputs.
use text.Mathlib.TextEquality.{eq_iff}
use gress.Common.{
  ◌≡◌, refl, String, true, Option, none, some, [], ◌∷◌, pos, arith, string_key, if◌then◌else◌, ◌&&◌,
  ltb_ℤ, ◌+ℤ◌,
}
use gress.Common.Dict.{Dict, get}
use gress.State.{
  Bytes, MemoryStateBackend, Json, new_backend, get_value, put_with_ttl, put_value, restore,
  snapshot, run_deletion, clean, has_expired, live_entries,
}
use gress.State.Expiry.{
  IsMap, IsFaithful, get_value-put_with_ttl, get_value-restore-snapshot, get_value-clean,
  late_deletion,
}

-- A serializer of the maps with the single key "k", which writes the value.
abbrev single_marshal : Dict String Bytes → Option Bytes
single_marshal [] = none
single_marshal ((key, value) ∷ []) = if string_key.beq key "k" then some value else none
single_marshal (_ ∷ _ ∷ _) = none

abbrev single : Json
single = record { marshal = single_marshal; unmarshal = λ bytes. some (("k", bytes) ∷ []) }

single-IsFaithful : IsFaithful single
unfolding get
single-IsFaithful = record { reads = go }
  where
    go :
        (values : Dict String Bytes) (bytes : Bytes)
        → single_marshal values ≡ some bytes
        → (read : Dict String Bytes) × (some (("k", bytes) ∷ []) ≡ some read)
          × ((key : String) → get read key ≡ get values key)
    go [] bytes e = absurd (ground (arith, e))
    go ((key, value) ∷ []) bytes e =
        (("k", bytes) ∷ [], refl, λ j. ground (arith, e, eq_iff key "k"))
    go (_ ∷ _ ∷ _) bytes e = absurd (ground (arith, e))

abbrev backend : MemoryStateBackend
backend = record {
  entries = ("k", record { bytes = 7 ∷ []; expiry_time = pos 5 }) ∷ [];
  ttl_enabled = true;
  default_ttl = pos 10;
  deleting = [];
  get_count = 0;
  put_count = 1;
  delete_count = 0;
}

get_value-put_with_ttl_example :
    (get_value (pos 20) "k" (put_with_ttl (pos 8) "k" (9 ∷ []) (pos 10) backend)).1 ≡ (
      if string_key.beq "k" "k"
      then (if backend.ttl_enabled && (ltb_ℤ (pos 0) (pos 10) && ltb_ℤ (pos 8 +ℤ pos 10) (pos 20))
          then none
          else some (9 ∷ []))
      else (get_value (pos 20) "k" backend).1)
get_value-put_with_ttl_example =
    get_value-put_with_ttl (pos 8) (pos 20) "k" "k" (9 ∷ []) (pos 10) backend (omega arith)

get_value-restore-snapshot_example :
    ((restore single (7 ∷ []) (new_backend true (pos 0))).1 ≡ true)
    × ((get_value (pos 100) "k" (restore single (7 ∷ []) (new_backend true (pos 0))).0).1
        ≡ (get_value (pos 3) "k" backend).1)
unfolding snapshot live_entries IsMap get has_expired
get_value-restore-snapshot_example =
    get_value-restore-snapshot single (λ key. pos 3) (pos 100) "k" (7 ∷ []) backend
      (new_backend true (pos 0)) single-IsFaithful (refl, tt) refl

get_value-clean_example :
    (get_value (pos 7) "k" (clean (pos 6) backend)).1 ≡ (get_value (pos 7) "k" backend).1
unfolding IsMap get
get_value-clean_example = get_value-clean (pos 6) (pos 7) "k" backend refl (omega arith) (refl, tt)

late_deletion_example :
    (get_value
      (pos 8)
      "k"
      (run_deletion (put_value (pos 7) "k" (9 ∷ []) (get_value (pos 6) "k" backend).0))).1
    ≡ none
unfolding get has_expired
late_deletion_example =
    late_deletion (pos 6) (pos 7) (pos 8) "k" (record { bytes = 7 ∷ []; expiry_time = pos 5 })
      (9 ∷ []) backend refl refl refl
