-- ===== src/Checkpoint/Restore/Encoded.antt =====
-- What the backends are restored from.
use gress.Common.{
  ℕ, zero, suc, ◌<◌, ◌≡◌, refl, ap, ◌∙◌, sym, String, Bool, true, false, Option, none, some, List,
  [], ◌∷◌, ◌++◌, if◌then◌else◌, length, map, arith, Bool-cases, inl, inr, string_key,
}
use gress.Common.Dict.{Dict, get, put, get-put}
use gress.Checkpoint.{
  Bytes, Checkpoint, CheckpointData, full, Result, ok, failed, CreateError, Manager, Request,
  create_checkpoint, collected, serialized, persisted, incremental_changes, collect_states,
  collect_snapshots,
}
use gress.Checkpoint.Restore.{
  SnapshotValue, text, Decoded, RestoreCall, provider_call, backend_call, Restored,
  restore_providers, restore_backends, restore_from_checkpoint,
}

module _ (backend_key : ℕ → String)
    (distinct : (i j : ℕ) → backend_key i ≡ backend_key j → i ≡ j) where
  -- The snapshots of backends from a place on, by their keys.
  abbrev put_all : ℕ → List Bytes → Dict String Bytes → Dict String Bytes
  put_all i [] combined = combined
  put_all i (b ∷ bs) combined = put_all (suc i) bs (put combined (backend_key i) b)

  get-put_all :
      (i j : ℕ) (bs : List Bytes) (c : Dict String Bytes)
      → j < i
      → get (put_all i bs c) (backend_key j) ≡ get c (backend_key j)
  get-put_all i j [] c h = refl
  get-put_all i j (b ∷ bs) c h =
      get-put_all (suc i) j bs (put c (backend_key i) b) (omega (arith, h))
      ∙ (get-put c (backend_key i) (backend_key j) b
          ∙ elim (Bool-cases (string_key.beq (backend_key i) (backend_key j))) [
            | inl e ↦
                let same : i ≡ j =
                  distinct i j ((string_key.beq_iff (backend_key i) (backend_key j)).0 e) in
                absurd (omega (arith, same, h))
            | inr e ↦ rw e refl
          ])

  -- The snapshots of the list stand under their keys.
  abbrev Stored : ℕ → List Bytes → Dict String Bytes → Type 0
  Stored i [] d = Unit
  Stored i (b ∷ bs) d = (get d (backend_key i) ≡ some b) × Stored (suc i) bs d

  Stored-put_all : (i : ℕ) (bs : List Bytes) (c : Dict String Bytes) → Stored i bs (put_all i bs c)
  Stored-put_all i [] c = tt
  Stored-put_all i (b ∷ bs) c = (
    get-put_all (suc i) i bs (put c (backend_key i) b) (omega arith)
        ∙ (get-put c (backend_key i) (backend_key i) b
            ∙ rw ((string_key.beq_iff (backend_key i) (backend_key i)).1 refl) refl),
    Stored-put_all (suc i) bs (put c (backend_key i) b),
  )

module _ {V : Type 0} (base64 : Bytes → Bytes) where
  -- What JSON makes of the snapshots: each becomes the text of its bytes in base64.
  unfoldable pub encoded : Dict String Bytes → Dict String (SnapshotValue V)
  encoded [] = []
  encoded ((k, b) ∷ d) = (k, text (base64 b)) ∷ encoded d

  get-encoded :
      (d : Dict String Bytes) (k : String) (b : Bytes)
      → get d k ≡ some b
      → get (encoded d) k ≡ some (text (base64 b))
  unfolding get encoded
  get-encoded [] k b h = absurd (ground (arith, h))
  get-encoded ((j, c) ∷ d) k b h = elim (Bool-cases (string_key.beq j k)) [
    | inl e ↦ rw e (ap (λ o. elim o [ none ↦ none | some x ↦ some (text (base64 x)) ]) (rw e at h))
    | inr e ↦ rw e (get-encoded d k b (rw e at h))
  ]

  -- The call of every backend, from a place on, with the base64 text of its snapshot.
  abbrev pub backend_calls : ℕ → List Bytes → List (RestoreCall V)
  backend_calls i [] = []
  backend_calls i (b ∷ bs) = backend_call i (base64 b) ∷ backend_calls (suc i) bs

  -- The call of every provider, from a place on.
  abbrev pub provider_calls : ℕ → ℕ → Dict String V → List (RestoreCall V)
  provider_calls zero i state = []
  provider_calls (suc n) i state = provider_call i state ∷ provider_calls n (suc i) state

module _ {V E : Type 0} (backend_key : ℕ → String)
    (distinct : (i j : ℕ) → backend_key i ≡ backend_key j → i ≡ j) (base64 : Bytes → Bytes)
    (unmarshal : Bytes → Result E (Decoded V)) (marshal_value : V → Result E Bytes)
    (restore_provider : ℕ → Dict String V → Option E) (restore_backend : ℕ → Bytes → Option E)
    (providers_restore : (i : ℕ) (state : Dict String V) → restore_provider i state ≡ none)
    (backends_restore : (i : ℕ) (bytes : Bytes) → restore_backend i bytes ≡ none) where
  restore_providers-all :
      (n i : ℕ) (state : Dict String V)
      → restore_providers backend_key unmarshal marshal_value restore_provider restore_backend n i
          state
        ≡ (provider_calls base64 n i state, none)
  unfolding restore_providers
  restore_providers-all zero i state = refl
  restore_providers-all (suc n) i state =
      rw (providers_restore i state) (rw (restore_providers-all n (suc i) state) refl)

  restore_backends-all :
      (i : ℕ) (bs : List Bytes) (d : Dict String Bytes)
      → Stored backend_key distinct i bs d
      → restore_backends backend_key unmarshal marshal_value restore_provider restore_backend
          (length bs)
          i
          (encoded base64 d)
        ≡ (backend_calls base64 i bs, none)
  unfolding restore_backends
  restore_backends-all i [] d h = refl
  restore_backends-all i (b ∷ bs) d h =
      rw (get-encoded base64 d (backend_key i) b h.0)
        (rw (backends_restore i (base64 b)) (rw (restore_backends-all (suc i) bs d h.1) refl))

  module _ (through : Dict String V → Dict String V) (marshal : CheckpointData V → Result E Bytes)
      (write_file : Checkpoint → Option E)
      (json : (state : Dict String V) (snapshots : Dict String Bytes) (bytes : Bytes)
        → marshal (full state snapshots) ≡ ok bytes
        → unmarshal bytes
          ≡ ok (record {
            provider_state = some (through state);
            backend_snapshots = some (encoded base64 snapshots);
          })) where
    abbrev restoring : ℕ → ℕ → Checkpoint → Restored V E
    restoring =
        restore_from_checkpoint backend_key unmarshal marshal_value restore_provider restore_backend

    -- The checkpoint of a manager restores every provider, and every backend from base64 text.
    pub RestoresText : ℕ → List Bytes → Checkpoint → Type 0
    RestoresText providers bs cp =
        (state : Dict String V) × (restoring providers (length bs) cp
          ≡ (provider_calls base64 providers 0 (through state) ++ backend_calls base64 0 bs, none))

    collect_snapshots-put_all :
        (i : ℕ) (bs : List Bytes) (c : Dict String Bytes)
        → collect_snapshots backend_key marshal write_file i (map ok bs) c
          ≡ ok (put_all backend_key distinct i bs c)
    collect_snapshots-put_all i [] c = refl
    collect_snapshots-put_all i (b ∷ bs) c =
        collect_snapshots-put_all (suc i) bs (put c (backend_key i) b)

    abbrev data_of : Result (CreateError E) Checkpoint → Bytes
    data_of (ok cp) = cp.state_data
    data_of (failed e) = []

    abbrev is_ok : Result (CreateError E) Checkpoint → Bool
    is_ok (ok cp) = true
    is_ok (failed e) = false

    persisted-data_of :
        (d : Dict String Bytes) (m : Manager) (cp made : Checkpoint) (o : Option E)
        → (persisted backend_key marshal write_file d made m o).1 ≡ ok cp
        → made.state_data ≡ cp.state_data
    persisted-data_of d m cp made (some e) h = absurd (ground (arith, ap is_ok h))
    persisted-data_of d m cp made none h = ap data_of h

    restores_data :
        (state : Dict String V) (providers : ℕ) (bs : List Bytes) (cp : Checkpoint)
        (d : Dict String Bytes) (bytes : Bytes)
        → marshal (full state d) ≡ ok bytes
        → Stored backend_key distinct 0 bs d
        → bytes ≡ cp.state_data
        → RestoresText providers bs cp
    unfolding restore_from_checkpoint RestoresText
    restores_data state providers bs cp d bytes e h same = (
      state,
      rw (ap unmarshal (sym same) ∙ json state d bytes e) (
          rw (restore_providers-all providers 0 (through state))
            (rw (restore_backends-all 0 bs d h) refl)),
    )

    serialized-RestoresText :
        (r : Request V E) (m : Manager) (state : Dict String V) (providers : ℕ) (bs : List Bytes)
        (cp : Checkpoint) (o : Result E Bytes) (d : Dict String Bytes)
        → marshal (full state d) ≡ o
        → Stored backend_key distinct 0 bs d
        → (serialized backend_key marshal write_file r d m o).1 ≡ ok cp
        → RestoresText providers bs cp
    serialized-RestoresText r m state providers bs cp (failed x) d e h made =
        absurd (ground (arith, ap is_ok made))
    serialized-RestoresText r m state providers bs cp (ok bytes) d e h made =
        let new : Checkpoint = record {
          id = r.id;
          timestamp = r.now;
          offsets = r.offsets;
          state_data = bytes;
        } in
        restores_data state providers bs cp d bytes e h
          (persisted-data_of d m cp new (write_file new) made)

    collected-RestoresText :
        (r : Request V E) (m : Manager) (providers : ℕ) (bs : List Bytes) (cp : Checkpoint)
        (a : Result (CreateError E) (Dict String V))
        → m.incremental_enabled ≡ false
        → (collected backend_key marshal write_file r m a
            (ok (put_all backend_key distinct 0 bs []))).1
          ≡ ok cp
        → RestoresText providers bs cp
    collected-RestoresText r m providers bs cp (failed x) whole made =
        absurd (ground (arith, ap is_ok made))
    collected-RestoresText r m providers bs cp (ok state) whole made =
        let d = put_all backend_key distinct 0 bs [] in
        let same : full state d ≡ (
            if m.incremental_enabled
            then incremental_changes m.last_checkpoint_data state d
            else full state d) =
          rw whole refl in
        serialized-RestoresText r m state providers bs cp (marshal (full state d)) d refl
          (Stored-put_all backend_key distinct 0 bs [])
          (ap (λ x. (serialized backend_key marshal write_file r d m (marshal x)).1) same ∙ made)

    pub restore_from_checkpoint-RestoresText :
        (r : Request V E) (m : Manager) (providers : ℕ) (bs : List Bytes) (cp : Checkpoint)
        → r.snapshots ≡ map ok bs
        → m.incremental_enabled ≡ false
        → (create_checkpoint backend_key marshal write_file r m).1 ≡ ok cp
        → RestoresText providers bs cp
    unfolding create_checkpoint
    restore_from_checkpoint-RestoresText r m providers bs cp all whole made =
        collected-RestoresText r m providers bs cp
          (collect_states backend_key marshal write_file 0 r.states []) whole
          (rw (collect_snapshots-put_all 0 bs []) at (rw all at made))
