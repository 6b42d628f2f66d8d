-- ===== src/Checkpoint/Tests.antt =====
-- Checkpoints at concrete inputs.
use gress.Common.{ℕ, String, string_key, int_key, ◌≡◌, false, Option, none, List, [], ◌∷◌, pos}
use gress.Checkpoint.{
  Bytes, Checkpoint, CheckpointData, full, incremental, Result, ok, failed, Request, new_manager,
  all_aligned,
}
use gress.Checkpoint.Retention.{create_all, last_of, create_all-last_five}
use gress.Checkpoint.Barriers.{
  BarrierCall, align, reset, run_barriers, aligned_since, every, all_aligned-every,
}

abbrev backend_key : ℕ → String
backend_key i = "backend"

abbrev marshal : CheckpointData ℕ → Result String Bytes
marshal (full state snapshots) = ok (1 ∷ [])
marshal (incremental state changed) = ok (2 ∷ [])

abbrev write_file : Checkpoint → Option String
write_file cp = none

abbrev request : String → Request ℕ String
request id = record {
  id = id;
  now = pos 1;
  offsets = [];
  states = ok (("count", 3) ∷ []) ∷ [];
  snapshots = ok (7 ∷ []) ∷ [];
}

abbrev unreachable : Request ℕ String
unreachable = record (request "x") { snapshots = failed "closed" ∷ [] }

abbrev requests : List (Request ℕ String)
requests =
    request "a"
    ∷ unreachable
    ∷ request "b"
    ∷ request "c"
    ∷ request "d"
    ∷ request "e"
    ∷ request "f"
    ∷ []

create_all-last_five_example :
    (let (m, created) = create_all backend_key marshal write_file requests new_manager in
      m.checkpoints ≡ last_of 5 created)
create_all-last_five_example = create_all-last_five backend_key marshal write_file requests

abbrev barrier_calls : List BarrierCall
barrier_calls = align (pos 1) ∷ reset ∷ align (pos 2) ∷ align (pos 1) ∷ []

all_aligned-every_example :
    all_aligned (pos 1 ∷ pos 2 ∷ []) (run_barriers barrier_calls [])
    ≡ every (λ p. aligned_since p barrier_calls false) (pos 1 ∷ pos 2 ∷ [])
all_aligned-every_example = all_aligned-every barrier_calls (pos 1 ∷ pos 2 ∷ [])
