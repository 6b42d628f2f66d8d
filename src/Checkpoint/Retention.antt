-- ===== src/Checkpoint/Retention.antt =====
-- Which checkpoints the manager keeps.
use mathlib.Core.List.{append-nil, append_assoc}
use gress.Common.Dict.{Dict, put}
use gress.Common.{
  ℕ, zero, suc, ◌+◌, ◌-◌, ◌≤◌, ◌≡◌, refl, ap, ◌∙◌, sym, String, Option, none, some, List, [], ◌∷◌,
  ◌++◌, leb, if◌then◌else◌, string_key, length, length-append, length-drop, drop, arith, Bool-cases,
  inl, inr,
}
use gress.Checkpoint.{
  Bytes, Checkpoint, CheckpointData, Result, ok, failed, CreateError, persist_failed,
  serialize_failed, Manager, new_manager, cleanup_old_checkpoints, Request, create_checkpoint,
  collected, serialized, persisted, incremental_changes, full, collect_states, collect_snapshots,
}

module _ {A : Type 0} where
  drop-nil : (k : ℕ) → drop {A = A} k [] ≡ []
  drop-nil zero = refl
  drop-nil (suc k) = refl

  drop-drop : (m n : ℕ) (xs : List A) → drop m (drop n xs) ≡ drop (n + m) xs
  drop-drop m zero xs = ap (λ k. drop k xs) (omega arith)
  drop-drop m (suc n) [] = drop-nil m ∙ sym (drop-nil (suc n + m))
  drop-drop m (suc n) (x ∷ xs) =
      let e : suc (n + m) ≡ suc n + m = omega arith in
      drop-drop m n xs ∙ ap (λ k. drop k (x ∷ xs)) e

  drop-append : (n : ℕ) (xs ys : List A) → n ≤ length xs → drop n (xs ++ ys) ≡ drop n xs ++ ys
  drop-append zero xs ys h = refl
  drop-append (suc n) [] ys h = absurd (omega (arith, h))
  drop-append (suc n) (x ∷ xs) ys h = drop-append n xs ys (omega (arith, h))

  -- The last elements of a list, as many as a bound.
  abbrev pub last_of : ℕ → List A → List A
  last_of n xs = drop (length xs - n) xs

  last_of-append :
      (n : ℕ) (xs : List A) (x : A) → last_of n (last_of n xs ++ x ∷ []) ≡ last_of n (xs ++ x ∷ [])
  last_of-append n xs x =
      let k = length xs - n in
      let all = xs ++ x ∷ [] in
      let kept = drop k xs ++ x ∷ [] in
      let same : drop k all ≡ kept = drop-append k xs (x ∷ []) (omega arith) in
      let size : length kept ≡ (length xs - k) + 1 =
        omega (arith, length-append (drop k xs) (x ∷ []), length-drop k xs) in
      ap (λ ys. drop (length kept - n) ys) (sym same)
      ∙ (drop-drop (length kept - n) k all
          ∙ ap (λ j. drop j all) (omega (arith, size, length-append xs (x ∷ []))))

-- The checkpoint of a call, if it returns one.
abbrev pub checkpoint_of : {E : Type 0} → Result E Checkpoint → List Checkpoint
checkpoint_of (ok cp) = cp ∷ []
checkpoint_of (failed e) = []

module _ {V E : Type 0} (backend_key : ℕ → String) (marshal : CheckpointData V → Result E Bytes)
    (write_file : Checkpoint → Option E) where
  -- The manager after calls of CreateCheckpoint, and the checkpoints that they return.
  pub create_all : List (Request V E) → Manager → Manager × List Checkpoint
  create_all [] m = (m, [])
  create_all (r ∷ requests) m =
      let (m', result) = create_checkpoint backend_key marshal write_file r m in
      let (m'', later) = create_all requests m' in (m'', checkpoint_of result ++ later)

  -- What a call does: with an error nothing, and otherwise one checkpoint more and the cleanup.
  pub data Effect (m : Manager) : Manager → Result (CreateError E) Checkpoint → Type 0 where
    refused : (e : CreateError E) → Effect m m (failed e)
    added :
        (cp : Checkpoint) (m' : Manager)
        → m'.checkpoints ≡ last_of m.max_checkpoints (m.checkpoints ++ cp ∷ [])
        → m'.max_checkpoints ≡ m.max_checkpoints
        → Effect m m' (ok cp)

  cleanup-last_of :
      (m : Manager)
      → ((cleanup_old_checkpoints m).checkpoints ≡ last_of m.max_checkpoints m.checkpoints)
        × ((cleanup_old_checkpoints m).max_checkpoints ≡ m.max_checkpoints)
  unfolding cleanup_old_checkpoints
  cleanup-last_of m = elim (Bool-cases (leb (length m.checkpoints) m.max_checkpoints)) [
    | inl few ↦
        let none_old : 0 ≡ length m.checkpoints - m.max_checkpoints = ground (arith, few) in
        rw few (ap (λ k. drop k m.checkpoints) none_old, refl)
    | inr many ↦ rw many (refl, refl)
  ]

  persisted-Effect :
      (snapshots : Dict String Bytes) (cp : Checkpoint) (m : Manager) (o : Option E)
      → (let r = persisted backend_key marshal write_file snapshots cp m o in Effect m r.0 r.1)
  persisted-Effect snapshots cp m (some e) = refused (persist_failed e)
  persisted-Effect snapshots cp m none =
      let next = record m {
        last_checkpoint_data = if m.incremental_enabled then snapshots else m.last_checkpoint_data;
        checkpoints = m.checkpoints ++ cp ∷ [];
        files = put m.files cp.id cp;
      } in
      let (kept, bound) = cleanup-last_of next in added cp (cleanup_old_checkpoints next) kept bound

  serialized-Effect :
      (r : Request V E) (snapshots : Dict String Bytes) (m : Manager) (o : Result E Bytes)
      → (let s = serialized backend_key marshal write_file r snapshots m o in Effect m s.0 s.1)
  serialized-Effect r snapshots m (failed e) = refused (serialize_failed e)
  serialized-Effect r snapshots m (ok bytes) =
      let cp : Checkpoint = record {
        id = r.id;
        timestamp = r.now;
        offsets = r.offsets;
        state_data = bytes;
      } in
      persisted-Effect snapshots cp m (write_file cp)

  collected-Effect :
      (r : Request V E) (m : Manager) (a : Result (CreateError E) (Dict String V))
      (b : Result (CreateError E) (Dict String Bytes))
      → (let s = collected backend_key marshal write_file r m a b in Effect m s.0 s.1)
  collected-Effect r m (failed e) b = refused e
  collected-Effect r m (ok state) (failed e) = refused e
  collected-Effect r m (ok state) (ok snapshots) = serialized-Effect r snapshots m (
      marshal (
        if m.incremental_enabled
        then incremental_changes m.last_checkpoint_data state snapshots
        else full state snapshots))

  -- CreateCheckpoint either returns an error and changes nothing, or keeps the last checkpoints with the
  -- new one, as many as the manager's bound.
  pub create_checkpoint-Effect :
      (r : Request V E) (m : Manager)
      → (let s = create_checkpoint backend_key marshal write_file r m in Effect m s.0 s.1)
  unfolding create_checkpoint
  create_checkpoint-Effect r m =
      collected-Effect r m (collect_states backend_key marshal write_file 0 r.states [])
        (collect_snapshots backend_key marshal write_file 0 r.snapshots [])

  keep_last :
      (m m' : Manager) (o : Result (CreateError E) Checkpoint) (past : List Checkpoint) (n : ℕ)
      → Effect m m' o
      → m.max_checkpoints ≡ n
      → m.checkpoints ≡ last_of n past
      → (m'.checkpoints ≡ last_of n (past ++ checkpoint_of o)) × (m'.max_checkpoints ≡ n)
  keep_last m _ _ past n (refused e) bound same = (rw (append-nil past) same, bound)
  keep_last m _ _ past n (added cp m' kept bound') bound same =
      (kept ∙ rw bound (rw same (last_of-append n past cp)), bound' ∙ bound)

  create_all-last_of :
      (requests : List (Request V E)) (m : Manager) (past : List Checkpoint) (n : ℕ)
      → m.max_checkpoints ≡ n
      → m.checkpoints ≡ last_of n past
      → (let r = create_all requests m in r.0.checkpoints ≡ last_of n (past ++ r.1))
  unfolding create_all
  create_all-last_of [] m past n bound same = rw (append-nil past) same
  create_all-last_of (r ∷ requests) m past n bound same =
      let s = create_checkpoint backend_key marshal write_file r m in
      let (kept, still) = keep_last m s.0 s.1 past n (create_checkpoint-Effect r m) bound same in
      create_all-last_of requests s.0 (past ++ checkpoint_of s.1) n still kept
      ∙ ap (last_of n) (append_assoc past (checkpoint_of s.1) (create_all requests s.0).1)

  -- After any calls of CreateCheckpoint on a new manager, failed ones included, it keeps the last five
  -- checkpoints that the calls have returned, in their order.
  pub create_all-last_five :
      (requests : List (Request V E))
      → (let (m, created) = create_all requests new_manager in m.checkpoints ≡ last_of 5 created)
  unfolding new_manager
  create_all-last_five requests = create_all-last_of requests new_manager [] 5 refl refl
