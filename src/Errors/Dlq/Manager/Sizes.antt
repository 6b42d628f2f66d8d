-- ===== src/Errors/Dlq/Manager/Sizes.antt =====
-- How the size in the manager's statistics follows the size of an in-memory queue.
use gress.Common.{
  ℕ, suc, ◌+◌, ◌-◌, ◌≤◌, ◌<◌, ◌≡◌, refl, ap, String, Option, none, some, List, [], ◌∷◌, ℤ, pos,
  ◌≤ℤ◌, ◌<ℤ◌, arith, length, length-append,
}
use gress.Errors.Dlq.{
  FailedEvent, in_memory, new_dlq, write, delete, delete_first, prepend, after_loop, count, rest,
}
use gress.Errors.Dlq.Manager.{
  new_manager, write_event, ManagerCall, write_call, read_call, delete_call, Counted, manage,
  manage_all, inc64, deleted, count_delete,
}

module _ {V : Type 0} where
  abbrev Shrinks : ℕ → Option (List (FailedEvent V)) → Type 0
  Shrinks n none = Unit
  Shrinks n (some events) = suc (length events) ≡ n

  Shrinks-prepend :
      (n : ℕ) (event : FailedEvent V) (o : Option (List (FailedEvent V)))
      → Shrinks n o
      → Shrinks (suc n) (prepend event o)
  Shrinks-prepend n event none h = tt
  Shrinks-prepend n event (some events) h = ap suc h

  delete_first-Shrinks :
      (key : String) (offset : ℤ) (events : List (FailedEvent V))
      → Shrinks (length events) (delete_first key offset events)
  unfolding delete_first
  delete_first-Shrinks key offset [] = tt
  delete_first-Shrinks key offset (event ∷ events) = ground (
    arith,
    Shrinks-prepend (length events) event (delete_first key offset events)
        (delete_first-Shrinks key offset events),
  )

  -- The size in the statistics is at least the number of events held and at most the number of
  -- calls made; without a bound on the queue it is exactly the number held.
  record Sized (bound : ℤ) (calls : ℕ) (m : Counted V) : Type 0 where
    same_bound : m.dlq.max_size ≡ bound
    held : count m.dlq ≤ m.stats.current_size
    made : m.stats.current_size ≤ calls
    exact : bound ≤ℤ pos 0 → count m.dlq ≡ m.stats.current_size

  deleted-Sized :
      (key : String) (offset bound : ℤ) (calls : ℕ) (m : Counted V)
      (o : Option (List (FailedEvent V)))
      → calls + 1 < 9223372036854775808
      → Sized bound calls m
      → Shrinks (length m.dlq.events) o
      → Sized bound (calls + 1) (deleted in_memory m.stats (after_loop key offset m.dlq o)).0
  unfolding count count_delete
  deleted-Sized key offset bound calls m none few h s = ground arith
  deleted-Sized key offset bound calls m (some events) few h s = ground arith

  length-rest : (xs : List (FailedEvent V)) → length (rest xs) ≡ length xs - 1
  length-rest [] = omega arith
  length-rest (x ∷ xs) = omega arith

  manage-Sized :
      (c : ManagerCall V) (bound : ℤ) (calls : ℕ) (m : Counted V)
      → calls + 1 < 9223372036854775808
      → Sized bound calls m
      → Sized bound (calls + 1) (manage c m)
  unfolding manage delete write count
  manage-Sized (write_call event) bound calls m few h = ground (
    arith,
    length-append m.dlq.events (event ∷ []),
    length-append (rest m.dlq.events) (event ∷ []),
    length-rest m.dlq.events,
  )
  manage-Sized (read_call limit) bound calls m few h = ground arith
  manage-Sized (delete_call key offset) bound calls m few h =
      deleted-Sized key offset bound calls m (delete_first key offset m.dlq.events) few h
        (delete_first-Shrinks key offset m.dlq.events)

  manage_all-Sized :
      (cs : List (ManagerCall V)) (bound : ℤ) (calls : ℕ) (m : Counted V)
      → calls + length cs < 9223372036854775808
      → Sized bound calls m
      → Sized bound (calls + length cs) (manage_all cs m)
  unfolding manage_all
  manage_all-Sized [] bound calls m few h = let e : calls + 0 ≡ calls = omega arith in rw e h
  manage_all-Sized (c ∷ cs) bound calls m few h =
      let e : calls + suc (length cs) ≡ calls + 1 + length cs = omega arith in
      rw e (
        manage_all-Sized cs bound (calls + 1) (manage c m) (omega arith)
          (manage-Sized c bound calls m (omega arith) h))

  -- After any fewer than 2 ^ 63 calls of Write, Read and Delete through a manager of a new in-memory
  -- queue, the CurrentSize of the statistics is at least the Count of the queue.
  pub current_size_at_least :
      (cs : List (ManagerCall V)) (bound : ℤ)
      → length cs < 9223372036854775808
      → let m = manage_all cs (new_manager in_memory (new_dlq bound)) in
        count m.dlq ≤ m.stats.current_size
  unfolding new_manager new_dlq count
  current_size_at_least cs bound few =
      (manage_all-Sized cs bound 0 (new_manager in_memory (new_dlq bound)) (omega arith)
        (ground arith)).held

  -- After any fewer than 2 ^ 63 calls of Write, Read and Delete through a manager of a new in-
  -- memory queue that has no bound (a size of 0 or less), CurrentSize is exactly the Count.
  pub current_size_exact :
      (cs : List (ManagerCall V)) (bound : ℤ)
      → length cs < 9223372036854775808
      → bound ≤ℤ pos 0
      → let m = manage_all cs (new_manager in_memory (new_dlq bound)) in
        count m.dlq ≡ m.stats.current_size
  unfolding new_manager new_dlq count
  current_size_exact cs bound few unbounded =
      (manage_all-Sized cs bound 0 (new_manager in_memory (new_dlq bound)) (omega arith)
          (ground arith)).exact
        unbounded

  -- Where a bounded queue is full, a Write leaves the Count as it is and raises CurrentSize by one:
  -- the statistics drift from the queue, since an event that is evicted is not counted off.
  pub current_size_drifts :
      (event : FailedEvent V) (m : Counted V)
      → pos 0 <ℤ m.dlq.max_size
      → m.dlq.max_size ≡ pos (count m.dlq)
      → let m' = (write_event in_memory event m).0 in
        (count m'.dlq ≡ count m.dlq) × (m'.stats.current_size ≡ inc64 m.stats.current_size)
  unfolding write_event write count
  current_size_drifts event m positive full = (
    ground (arith, length-append (rest m.dlq.events) (event ∷ []), length-rest m.dlq.events),
    refl,
  )
