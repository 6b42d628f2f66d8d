-- ===== src/State.antt =====
-- pkg/state/memory.go: MemoryStateBackend. Each method holds the backend's lock, so that methods
-- follow one another; an increment of a counter under the lock for reading is one step. The copies of
-- the bytes are the bytes. JSON is an argument of Snapshot and Restore.
pub mod Expiry
mod Tests
use gress.Common.{
  ℕ, ◌+◌, ◌%◌, String, Bool, true, false, ◌&&◌, not, Option, none, some, List, [], ◌∷◌, ◌++◌,
  if◌then◌else◌, ℤ, pos, ◌+ℤ◌, ltb_ℤ, string_key, zero_time, is_zero,
}
use gress.Common.Dict.{Dict, get, put, remove}

abbrev pub Bytes : Type 0
Bytes = List ℕ

-- An entry without an expiry has the zero time.
pub record ValueWithTtl : Type 0 where
  pub bytes : Bytes
  pub expiry_time : ℤ

-- `deleting` holds the keys whose Delete a Get has started, which run on their own later.
pub record MemoryStateBackend : Type 0 where
  pub entries : Dict String ValueWithTtl
  pub ttl_enabled : Bool
  pub default_ttl : ℤ
  pub deleting : List String
  pub get_count : ℕ  -- int64
  pub put_count : ℕ  -- int64
  pub delete_count : ℕ  -- int64

pub new_backend : Bool → ℤ → MemoryStateBackend
new_backend ttl_enabled default_ttl = record {
  entries = [];
  ttl_enabled = ttl_enabled;
  default_ttl = default_ttl;
  deleting = [];
  get_count = 0;
  put_count = 0;
  delete_count = 0;
}

abbrev pub inc64 : ℕ → ℕ
inc64 n = (n + 1) % 18446744073709551616

-- The test of Get and of Snapshot.
pub has_expired : Bool → ℤ → ValueWithTtl → Bool
has_expired ttl_enabled now value =
    ttl_enabled && (not (is_zero value.expiry_time) && ltb_ℤ value.expiry_time now)

-- What Get does with the entry of the key: the backend and the value.
abbrev pub got :
    ℤ → String → Option ValueWithTtl → MemoryStateBackend → MemoryStateBackend × Option Bytes
got now key none m = (m, none)
got now key (some value) m =
    if has_expired m.ttl_enabled now value
    then (record m { deleting = m.deleting ++ key ∷ [] }, none)
    else (record m { get_count = inc64 m.get_count }, some value.bytes)

-- Get
pub get_value : ℤ → String → MemoryStateBackend → MemoryStateBackend × Option Bytes
unfolding has_expired
get_value now key m = got now key (get m.entries key) m

-- PutWithTTL
pub put_with_ttl : ℤ → String → Bytes → ℤ → MemoryStateBackend → MemoryStateBackend
put_with_ttl now key value ttl m = record m {
  entries = put m.entries key (record {
    bytes = value;
    expiry_time = if m.ttl_enabled && ltb_ℤ (pos 0) ttl then now +ℤ ttl else zero_time;
  });
  put_count = inc64 m.put_count;
}

-- Put
pub put_value : ℤ → String → Bytes → MemoryStateBackend → MemoryStateBackend
unfolding put_with_ttl
put_value now key value m = put_with_ttl now key value m.default_ttl m

-- Delete
pub delete : String → MemoryStateBackend → MemoryStateBackend
delete key m = record m { entries = remove m.entries key; delete_count = inc64 m.delete_count }

-- A started Delete runs.
abbrev run_first : List String → MemoryStateBackend → MemoryStateBackend
run_first [] m = m
run_first (key ∷ keys) m = delete key (record m { deleting = keys })

pub run_deletion : MemoryStateBackend → MemoryStateBackend
unfolding delete
run_deletion m = run_first m.deleting m

-- The map that Snapshot serializes: the entries that have not expired, each at the reading of the
-- clock that its own test takes.
pub live_entries : Bool → (String → ℤ) → Dict String ValueWithTtl → Dict String Bytes
unfolding has_expired
live_entries ttl_enabled now [] = []
live_entries ttl_enabled now ((key, value) ∷ entries) =
    let rest = live_entries ttl_enabled now entries in
    if has_expired ttl_enabled (now key) value then rest else (key, value.bytes) ∷ rest

-- json.Marshal and json.Unmarshal of a map of byte strings; `none` is an error.
pub record Json : Type 0 where
  pub marshal : Dict String Bytes → Option Bytes
  pub unmarshal : Bytes → Option (Dict String Bytes)

-- Snapshot, with the clock as the test of each key reads it; `none` is its error
pub snapshot : Json → (String → ℤ) → MemoryStateBackend → Option Bytes
unfolding live_entries
snapshot json now m = json.marshal (live_entries m.ttl_enabled now m.entries)

pub restored_entries : Dict String Bytes → Dict String ValueWithTtl
restored_entries [] = []
restored_entries ((key, value) ∷ values) =
    (key, record { bytes = value; expiry_time = zero_time }) ∷ restored_entries values

-- The end of Restore, with whether it returns no error.
abbrev pub restore_with :
    Option (Dict String Bytes) → MemoryStateBackend → MemoryStateBackend × Bool
restore_with none m = (m, false)
restore_with (some values) m = (record m { entries = restored_entries values }, true)

-- Restore
pub restore : Json → Bytes → MemoryStateBackend → MemoryStateBackend × Bool
unfolding restored_entries
restore json bytes m = restore_with (json.unmarshal bytes) m

-- One tick of cleanupExpired.
pub clean_expired : ℤ → Dict String ValueWithTtl → Dict String ValueWithTtl
clean_expired now [] = []
clean_expired now ((key, value) ∷ entries) =
    let rest = clean_expired now entries in
    if not (is_zero value.expiry_time) && ltb_ℤ value.expiry_time now
    then rest
    else (key, value) ∷ rest

pub clean : ℤ → MemoryStateBackend → MemoryStateBackend
unfolding clean_expired
clean now m = record m { entries = clean_expired now m.entries }

-- Clear
pub clear : MemoryStateBackend → MemoryStateBackend
clear m = record m { entries = [] }
