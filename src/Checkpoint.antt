-- ===== src/Checkpoint.antt =====
-- pkg/checkpoint/manager.go. JSON, the results of the providers, the backends and the disk, and the
-- names that Sprintf makes are arguments. The files of the checkpoint directory are part of the state.
pub mod Retention
pub mod Barriers
pub mod Restore
mod Tests
use gress.Common.{
  ℕ, zero, suc, ◌-◌, ◌≡◌, String, Bool, true, false, ◌&&◌, ◌||◌, not, Option, none, some, List, [],
  ◌∷◌, ◌++◌, leb, ◌==◌, if◌then◌else◌, ℤ, length, take, drop, string_key, int_key,
}
use gress.Common.Dict.{Dict, get, put, remove}

abbrev pub Bytes : Type 0
Bytes = List ℕ

-- stream.Checkpoint
pub record Checkpoint : Type 0 where
  pub id : String
  pub timestamp : ℤ
  pub offsets : Dict ℤ ℤ
  pub state_data : Bytes

-- The map that is serialized, with all snapshots or as an incremental one.
pub data CheckpointData (V : Type 0) : Type 0 where
  full : Dict String V → Dict String Bytes → CheckpointData V
  incremental : Dict String V → Dict String Bool → CheckpointData V

pub data Result (E A : Type 0) : Type 0 where
  ok : A → Result E A
  failed : E → Result E A

-- The errors of CreateCheckpoint: the first provider or backend that fails, JSON, and the disk.
pub data CreateError (E : Type 0) : Type 0 where
  provider_failed backend_failed : ℕ → E → CreateError E
  serialize_failed persist_failed : E → CreateError E

pub record Manager : Type 0 where
  pub max_checkpoints : ℕ
  pub checkpoints : List Checkpoint
  pub incremental_enabled : Bool
  pub last_checkpoint_data : Dict String Bytes
  pub files : Dict String Checkpoint

unfoldable pub new_manager : Manager
new_manager = record {
  max_checkpoints = 5;
  checkpoints = [];
  incremental_enabled = false;
  last_checkpoint_data = [];
  files = [];
}

-- EnableIncrementalCheckpoints
pub enable_incremental_checkpoints : Bool → Manager → Manager
enable_incremental_checkpoints enabled m = record m { incremental_enabled = enabled }

pub bytes_equal : Bytes → Bytes → Bool
bytes_equal [] [] = true
bytes_equal (x ∷ xs) (y ∷ ys) = x == y && bytes_equal xs ys
bytes_equal _ _ = false

abbrev pub is_changed : Bytes → Option Bytes → Bool
is_changed current none = true
is_changed current (some last) = not (bytes_equal last current)

-- computeChangedKeys
pub compute_changed_keys : Dict String Bytes → Dict String Bytes → Dict String Bool
unfolding bytes_equal
compute_changed_keys last [] = []
compute_changed_keys last ((key, current) ∷ snapshots) =
    let rest = compute_changed_keys last snapshots in
    if is_changed current (get last key) then (key, true) ∷ rest else rest

-- computeIncrementalChanges
abbrev pub incremental_changes :
    {V : Type 0} → Dict String Bytes → Dict String V → Dict String Bytes → CheckpointData V
incremental_changes [] state snapshots = full state snapshots
incremental_changes (entry ∷ last) state snapshots =
    incremental state (compute_changed_keys (entry ∷ last) snapshots)

abbrev pub add_all : {V : Type 0} → Dict String V → Dict String V → Dict String V
add_all [] combined = combined
add_all ((k, v) ∷ state) combined = add_all state (put combined k v)

abbrev pub remove_files : List Checkpoint → Dict String Checkpoint → Dict String Checkpoint
remove_files [] files = files
remove_files (cp ∷ cps) files = remove_files cps (remove files cp.id)

-- cleanupOldCheckpoints
pub cleanup_old_checkpoints : Manager → Manager
cleanup_old_checkpoints m =
    if leb (length m.checkpoints) m.max_checkpoints
    then m
    else let old = length m.checkpoints - m.max_checkpoints in
      record m {
        checkpoints = drop old m.checkpoints;
        files = remove_files (take old m.checkpoints) m.files;
      }

-- What a call of CreateCheckpoint gets: the name with the time in it, the time, the offsets, and what
-- the providers and the backends return.
pub record Request (V E : Type 0) : Type 0 where
  pub id : String
  pub now : ℤ
  pub offsets : Dict ℤ ℤ
  pub states : List (Result E (Dict String V))
  pub snapshots : List (Result E Bytes)

module _ {V E : Type 0} (backend_key : ℕ → String) (marshal : CheckpointData V → Result E Bytes)
    (write_file : Checkpoint → Option E) where
  -- The loops over the providers and the backends: the first error ends them.
  abbrev pub collect_states :
      ℕ → List (Result E (Dict String V)) → Dict String V → Result (CreateError E) (Dict String V)
  collect_states i [] combined = ok combined
  collect_states i (ok state ∷ states) combined =
      collect_states (suc i) states (add_all state combined)
  collect_states i (failed e ∷ states) combined = failed (provider_failed i e)

  abbrev pub collect_snapshots :
      ℕ → List (Result E Bytes) → Dict String Bytes → Result (CreateError E) (Dict String Bytes)
  collect_snapshots i [] combined = ok combined
  collect_snapshots i (ok snapshot ∷ snapshots) combined =
      collect_snapshots (suc i) snapshots (put combined (backend_key i) snapshot)
  collect_snapshots i (failed e ∷ snapshots) combined = failed (backend_failed i e)

  -- The end of CreateCheckpoint, by what the disk answers.
  abbrev pub persisted :
      Dict String Bytes
      → Checkpoint
      → Manager
      → Option E
      → Manager × Result (CreateError E) Checkpoint
  persisted snapshots cp m (some e) = (m, failed (persist_failed e))
  persisted snapshots cp m none = (
    cleanup_old_checkpoints (record m {
      last_checkpoint_data = if m.incremental_enabled then snapshots else m.last_checkpoint_data;
      checkpoints = m.checkpoints ++ cp ∷ [];
      files = put m.files cp.id cp;
    }),
    ok cp,
  )

  abbrev pub serialized :
      Request V E
      → Dict String Bytes
      → Manager
      → Result E Bytes
      → Manager × Result (CreateError E) Checkpoint
  serialized r snapshots m (failed e) = (m, failed (serialize_failed e))
  serialized r snapshots m (ok bytes) =
      let cp : Checkpoint = record {
        id = r.id;
        timestamp = r.now;
        offsets = r.offsets;
        state_data = bytes;
      } in
      persisted snapshots cp m (write_file cp)

  abbrev pub collected :
      Request V E
      → Manager
      → Result (CreateError E) (Dict String V)
      → Result (CreateError E) (Dict String Bytes)
      → Manager × Result (CreateError E) Checkpoint
  collected r m (failed e) o = (m, failed e)
  collected r m (ok state) (failed e) = (m, failed e)
  collected r m (ok state) (ok snapshots) = serialized r snapshots m (
      marshal (
        if m.incremental_enabled
        then incremental_changes m.last_checkpoint_data state snapshots
        else full state snapshots))

  -- CreateCheckpoint
  unfoldable pub create_checkpoint :
      Request V E → Manager → Manager × Result (CreateError E) Checkpoint
  create_checkpoint r m =
      collected r m (collect_states 0 r.states []) (collect_snapshots 0 r.snapshots [])

-- CoordinatedCheckpoint: the partitions that have reached the barrier.
abbrev pub Barriers : Type 0
Barriers = Dict ℤ Bool

unfoldable pub align_barrier : ℤ → Barriers → Barriers
align_barrier partition barriers = put barriers partition true

abbrev pub is_true : Option Bool → Bool
is_true none = false
is_true (some b) = b

unfoldable pub all_aligned : List ℤ → Barriers → Bool
all_aligned [] barriers = true
all_aligned (p ∷ partitions) barriers = is_true (get barriers p) && all_aligned partitions barriers

unfoldable pub reset_barriers : Barriers → Barriers
reset_barriers barriers = []
