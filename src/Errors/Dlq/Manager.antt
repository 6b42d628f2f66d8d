-- ===== src/Errors/Dlq/Manager.antt =====
-- DLQManager of pkg/errors/dlq.go: a queue behind the interface, with statistics. Write, Read and
-- Delete call the queue and then take the manager's lock; one call runs to its end here.
pub mod Sizes
use gress.Common.{
  ℕ, zero, suc, ◌+◌, ◌-◌, ◌%◌, ◌≤◌, ◌<◌, ◌≡◌, refl, ap, String, Bool, true, false, ◌&&◌, ◌||◌,
  Option, none, some, List, [], ◌∷◌, ◌++◌, ltb, leb, if◌then◌else◌, ℤ, pos, ltb_ℤ, ◌≤ℤ◌, ◌<ℤ◌,
  arith, length, length-append, Bool-cases, inl, inr,
}
use gress.Errors.Dlq.{
  FailedEvent, InMemoryDlq, DlqError, DeadLetterQueue, in_memory, new_dlq, write, read, delete,
  delete_first, prepend, after_loop, count, rest,
}

-- An int64 counter is the bit pattern of its value.
abbrev pub inc64 : ℕ → ℕ
inc64 n = (n + 1) % 18446744073709551616

abbrev pub dec64 : ℕ → ℕ
dec64 n = (n + 18446744073709551615) % 18446744073709551616

-- n > 0, as an int64
abbrev pub is_positive : ℕ → Bool
is_positive n = ltb 0 n && ltb n 9223372036854775808

pub record DlqStats : Type 0 where
  pub total_written : ℕ  -- int64
  pub total_read : ℕ  -- int64
  pub total_deleted : ℕ  -- int64
  pub current_size : ℕ  -- int64
  pub oldest_event : Option ℤ
  pub newest_event : Option ℤ

pub no_stats : DlqStats
no_stats = record {
  total_written = 0;
  total_read = 0;
  total_deleted = 0;
  current_size = 0;
  oldest_event = none;
  newest_event = none;
}

-- m.stats.NewestEvent == nil || t.After(*m.stats.NewestEvent)
abbrev pub later_of : Option ℤ → ℤ → Option ℤ
later_of none t = some t
later_of (some s) t = if ltb_ℤ s t then some t else some s

abbrev pub earlier_of : Option ℤ → ℤ → Option ℤ
earlier_of none t = some t
earlier_of (some s) t = if ltb_ℤ t s then some t else some s

pub count_write : ℤ → DlqStats → DlqStats
count_write t stats = record stats {
  total_written = inc64 stats.total_written;
  current_size = inc64 stats.current_size;
  newest_event = later_of stats.newest_event t;
  oldest_event = earlier_of stats.oldest_event t;
}

pub count_read : ℕ → DlqStats → DlqStats
count_read n stats = record stats { total_read = (stats.total_read + n) % 18446744073709551616 }

pub count_delete : DlqStats → DlqStats
count_delete stats = record stats {
  total_deleted = inc64 stats.total_deleted;
  current_size =
      if is_positive stats.current_size then dec64 stats.current_size else stats.current_size;
}

module _ {V : Type 0} (D : DeadLetterQueue V) where
  pub record DlqManager : Type 0 where
    pub dlq : D.State
    pub stats : DlqStats

  pub new_manager : D.State → DlqManager
  unfolding no_stats
  new_manager dlq = record { dlq = dlq; stats = no_stats }

  abbrev pub wrote : ℤ → DlqStats → D.State × Option D.Err → DlqManager × Option D.Err
  wrote t stats (dlq, none) = (record { dlq = dlq; stats = count_write t stats }, none)
  wrote t stats (dlq, some e) = (record { dlq = dlq; stats = stats }, some e)

  -- DLQManager.Write
  pub write_event : FailedEvent V → DlqManager → DlqManager × Option D.Err
  unfolding count_write
  write_event event m = wrote event.failure_time m.stats (D.write_to event m.dlq)

  abbrev pub was_read :
      DlqManager
      → Option D.Err × List (FailedEvent V)
      → DlqManager × (Option D.Err × List (FailedEvent V))
  was_read m (none, events) =
      (record m { stats = count_read (length events) m.stats }, (none, events))
  was_read m (some e, events) = (m, (some e, []))

  -- DLQManager.Read
  pub read_events : ℤ → DlqManager → DlqManager × (Option D.Err × List (FailedEvent V))
  unfolding count_read
  read_events limit m = was_read m (D.read_from limit m.dlq)

  abbrev pub deleted : DlqStats → D.State × Option D.Err → DlqManager × Option D.Err
  deleted stats (dlq, none) = (record { dlq = dlq; stats = count_delete stats }, none)
  deleted stats (dlq, some e) = (record { dlq = dlq; stats = stats }, some e)

  -- DLQManager.Delete
  pub delete_event : String → ℤ → DlqManager → DlqManager × Option D.Err
  unfolding count_delete
  delete_event key offset m = deleted m.stats (D.delete_from key offset m.dlq)

-- The calls of a client.
pub data ManagerCall (V : Type 0) : Type 0 where
  write_call : FailedEvent V → ManagerCall V
  read_call : ℤ → ManagerCall V
  delete_call : String → ℤ → ManagerCall V

-- A manager of an in-memory queue.
abbrev pub Counted : Type 0 → Type 0
Counted V = DlqManager (in_memory {V = V})

module _ {V : Type 0} where
  pub manage : ManagerCall V → Counted V → Counted V
  unfolding write_event read_events delete_event
  manage (write_call event) m = (write_event in_memory event m).0
  manage (read_call limit) m = (read_events in_memory limit m).0
  manage (delete_call key offset) m = (delete_event in_memory key offset m).0

  pub manage_all : List (ManagerCall V) → Counted V → Counted V
  manage_all [] m = m
  manage_all (c ∷ cs) m = manage_all cs (manage c m)
