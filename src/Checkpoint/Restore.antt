-- ===== src/Checkpoint/Restore.antt =====
-- pkg/checkpoint/manager.go: RestoreFromCheckpoint. What it calls is a list of the calls; the answers of
-- the providers and the backends, and JSON, are arguments.
pub mod Encoded
mod Tests
use gress.Common.{ℕ, zero, suc, String, Option, none, some, List, [], ◌∷◌, ◌++◌, string_key}
use gress.Common.Dict.{Dict, get}
use gress.Checkpoint.{Bytes, Checkpoint, Result, ok, failed}

-- A snapshot in the data of a checkpoint: a string, bytes, or another value of JSON.
pub data SnapshotValue (V : Type 0) : Type 0 where
  text raw : Bytes → SnapshotValue V
  other_value : V → SnapshotValue V

-- The entries "provider_state" and "backend_snapshots" of the data, if they are maps.
pub record Decoded (V : Type 0) : Type 0 where
  pub provider_state : Option (Dict String V)
  pub backend_snapshots : Option (Dict String (SnapshotValue V))

pub data RestoreCall (V : Type 0) : Type 0 where
  provider_call : ℕ → Dict String V → RestoreCall V
  backend_call : ℕ → Bytes → RestoreCall V

pub data RestoreError (E : Type 0) : Type 0 where
  deserialize_failed : E → RestoreError E
  restore_provider_failed convert_failed restore_backend_failed : ℕ → E → RestoreError E

-- The calls that were made, and the error that ended them.
abbrev pub Restored : Type 0 → Type 0 → Type 0
Restored V E = List (RestoreCall V) × Option (RestoreError E)

abbrev pub call_first : {V E : Type 0} → RestoreCall V → Restored V E → Restored V E
call_first c (calls, e) = (c ∷ calls, e)

module _ {V E : Type 0} (backend_key : ℕ → String) (unmarshal : Bytes → Result E (Decoded V))
    (marshal_value : V → Result E Bytes) (restore_provider : ℕ → Dict String V → Option E)
    (restore_backend : ℕ → Bytes → Option E) where
  abbrev pub unless_failed : RestoreCall V → Option (RestoreError E) → Restored V E → Restored V E
  unless_failed c none later = call_first c later
  unless_failed c (some e) later = (c ∷ [], some e)

  abbrev pub error_at : (ℕ → E → RestoreError E) → ℕ → Option E → Option (RestoreError E)
  error_at failure i none = none
  error_at failure i (some e) = some (failure i e)

  -- The loop over the providers: how many are left, and the place of the next.
  pub restore_providers : ℕ → ℕ → Dict String V → Restored V E
  restore_providers zero i state = ([], none)
  restore_providers (suc n) i state =
      let later = restore_providers n (suc i) state in
      unless_failed (provider_call i state)
        (error_at restore_provider_failed i (restore_provider i state)) later

  abbrev pub as_bytes : SnapshotValue V → Result E Bytes
  as_bytes (text bytes) = ok bytes
  as_bytes (raw bytes) = ok bytes
  as_bytes (other_value v) = marshal_value v

  abbrev pub restore_bytes : ℕ → Result E Bytes → Restored V E → Restored V E
  restore_bytes i (failed e) later = ([], some (convert_failed i e))
  restore_bytes i (ok bytes) later =
      unless_failed (backend_call i bytes)
        (error_at restore_backend_failed i (restore_backend i bytes)) later

  abbrev pub restore_entry : ℕ → Option (SnapshotValue V) → Restored V E → Restored V E
  restore_entry i none later = later
  restore_entry i (some v) later = restore_bytes i (as_bytes v) later

  -- The loop over the backends
  pub restore_backends : ℕ → ℕ → Dict String (SnapshotValue V) → Restored V E
  restore_backends zero i snapshots = ([], none)
  restore_backends (suc n) i snapshots =
      let later = restore_backends n (suc i) snapshots in
      restore_entry i (get snapshots (backend_key i)) later

  abbrev pub then_backends : Restored V E → Restored V E → Restored V E
  then_backends (calls, none) (more, e) = (calls ++ more, e)
  then_backends (calls, some e) later = (calls, some e)

  abbrev pub restore_state : ℕ → Option (Dict String V) → Restored V E
  restore_state providers none = ([], none)
  restore_state providers (some state) = restore_providers providers 0 state

  abbrev pub restore_snapshots : ℕ → Option (Dict String (SnapshotValue V)) → Restored V E
  restore_snapshots backends none = ([], none)
  restore_snapshots backends (some snapshots) = restore_backends backends 0 snapshots

  abbrev pub restore_decoded : ℕ → ℕ → Result E (Decoded V) → Restored V E
  restore_decoded providers backends (failed e) = ([], some (deserialize_failed e))
  restore_decoded providers backends (ok data_) =
      then_backends (restore_state providers data_.provider_state)
        (restore_snapshots backends data_.backend_snapshots)

  -- RestoreFromCheckpoint, with the numbers of providers and backends
  unfoldable pub restore_from_checkpoint : ℕ → ℕ → Checkpoint → Restored V E
  restore_from_checkpoint providers backends checkpoint =
      restore_decoded providers backends (unmarshal checkpoint.state_data)
