-- ===== src/Checkpoint/Restore/Tests.antt =====
-- A restored checkpoint at a concrete input: one backend, no provider.
use gress.Common.{
  ℕ, zero, suc, ◌≡◌, refl, ap, ◌∙◌, sym, String, string_key, codes, Bool, true, false, Option, none,
  some, [], ◌∷◌, if◌then◌else◌, pos, length, arith, Bool-cases, inl, inr,
}
use gress.Common.Dict.{Dict, put}
use gress.Checkpoint.{
  Bytes, Checkpoint, CheckpointData, full, Result, ok, failed, Request, new_manager,
  create_checkpoint,
}
use gress.Checkpoint.Restore.{Decoded, text}
use gress.Checkpoint.Restore.Encoded.{encoded, RestoresText, restore_from_checkpoint-RestoresText}

-- The key of a backend: as many letters as its place.
backend_key : ℕ → String
backend_key zero = ""
backend_key (suc n) = String.◌∷◌ "x" (backend_key n)

length-backend_key : (n : ℕ) → length (codes (backend_key n)) ≡ n
unfolding backend_key
length-backend_key zero = refl
length-backend_key (suc n) = omega (arith, length-backend_key n)

distinct : (i j : ℕ) → backend_key i ≡ backend_key j → i ≡ j
distinct i j e = sym (length-backend_key i) ∙ (ap (λ s. length (codes s)) e ∙ length-backend_key j)

abbrev base64 : Bytes → Bytes
base64 bytes = 65 ∷ bytes

-- A serialization of one snapshot and no state.
abbrev marshal : CheckpointData ℕ → Result Bool Bytes
marshal (full [] ((k, b) ∷ [])) = if string_key.beq k "" then ok b else failed true
marshal _ = failed true

abbrev unmarshal : Bytes → Result Bool (Decoded ℕ)
unmarshal bytes =
    ok (record {
      provider_state = some [];
      backend_snapshots = some (("", text (base64 bytes)) ∷ []);
    })

abbrev same_state : Dict String ℕ → Dict String ℕ
same_state state = state

abbrev bytes_of : Result Bool Bytes → Bytes
bytes_of (ok bytes) = bytes
bytes_of (failed e) = []

abbrev is_ok : Result Bool Bytes → Bool
is_ok (ok bytes) = true
is_ok (failed e) = false

json :
    (state : Dict String ℕ) (snapshots : Dict String Bytes) (bytes : Bytes)
    → marshal (full state snapshots) ≡ ok bytes
    → unmarshal bytes
      ≡ ok (record {
        provider_state = some (same_state state);
        backend_snapshots = some (encoded base64 snapshots);
      })
unfolding encoded
json [] [] bytes h = absurd (ground (arith, ap is_ok h))
json [] ((k, b) ∷ []) bytes h = elim (Bool-cases (string_key.beq k "")) [
  | inl e ↦
      let named : k ≡ "" = (string_key.beq_iff k "").0 e in
      let same : b ≡ bytes = ap bytes_of (rw e at h) in rw named (rw same refl)
  | inr e ↦ absurd (ground (arith, ap is_ok (rw e at h)))
]
json [] (p ∷ q ∷ snapshots) bytes h = absurd (ground (arith, ap is_ok h))
json (p ∷ state) snapshots bytes h = absurd (ground (arith, ap is_ok h))

abbrev marshal_value : ℕ → Result Bool Bytes
marshal_value v = ok []

abbrev restore_provider : ℕ → Dict String ℕ → Option Bool
restore_provider i state = none

abbrev restore_backend : ℕ → Bytes → Option Bool
restore_backend i bytes = none

abbrev write_file : Checkpoint → Option Bool
write_file cp = none

abbrev request : Request ℕ Bool
request = record {
  id = "checkpoint-1";
  now = pos 1;
  offsets = [];
  states = [];
  snapshots = ok (7 ∷ []) ∷ [];
}

abbrev made : Checkpoint
made = record { id = "checkpoint-1"; timestamp = pos 1; offsets = []; state_data = 7 ∷ [] }

request_made : (create_checkpoint backend_key marshal write_file request new_manager).1 ≡ ok made
unfolding create_checkpoint put backend_key new_manager
request_made = refl

whole_manager : new_manager.incremental_enabled ≡ false
unfolding new_manager
whole_manager = refl

restore_from_checkpoint-RestoresText_example :
    RestoresText backend_key distinct base64 unmarshal marshal_value restore_provider
      restore_backend
      (λ i state. refl)
      (λ i bytes. refl)
      same_state
      marshal
      write_file
      json
      0
      ((7 ∷ []) ∷ [])
      made
restore_from_checkpoint-RestoresText_example =
    restore_from_checkpoint-RestoresText backend_key distinct base64 unmarshal marshal_value
      restore_provider restore_backend (λ i state. refl) (λ i bytes. refl) same_state marshal
      write_file json request new_manager 0 ((7 ∷ []) ∷ []) made refl whole_manager request_made
