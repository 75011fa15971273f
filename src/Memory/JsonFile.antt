-- ===== src/Memory/JsonFile.antt =====
-- src/memory/memory-store.ts: `JsonFileMemoryStore`. A file is what `JSON.parse` makes of it.
-- The argument `stored` is what an entry becomes by `JSON.stringify` and `JSON.parse`. Writers hold
-- the lock of the file for the whole read, change and write, so that each operation here is one
-- step; what the platform answers to each of its calls of the file system is an argument.
pub mod Limits
pub mod Atomic
use agentlily_runtime.Common.{
  Text, ℕ, zero, suc, ◌+◌, ◌-◌, Bool, true, false, ◌&&◌, Option, none, some, List, [], ◌∷◌, ◌++◌,
  ltb, leb, length, count, map, get_or, if◌then◌else◌,
}
use agentlily_runtime.Common.Value.{Number, nat, not_nat}
use agentlily_runtime.Effects.{Action, return, throw, lift, catch, ◌>>=◌, ◌>>◌}
use agentlily_runtime.Errors.{
  Result, ok, err, Error, runtime_error, range_error, foreign, RuntimeErrorCode, storage_corrupted,
}
use agentlily_runtime.Errors
use agentlily_runtime.Memory.{
  MemoryEntry, ListMemoryOptions, default_max_memory_entries, of_agent, copy,
  assert_list_memory_options, select_memory_entries,
}

-- An element of the stored array: an entry by `isPersistedMemoryEntry`, or not.
pub data Element (V : Type 0) : Type 0 where
  entry : MemoryEntry V → Element V
  invalid : Element V

-- What a read of the file finds.
pub data Contents (V : Type 0) : Type 0 where
  missing blank not_json not_array : Contents V
  array : List (Element V) → Contents V

-- The stored file, and the temporary file of the operation, which has a name of its own.
pub record Disk (V : Type 0) : Type 0 where
  pub main : Contents V
  pub temp : Option (Contents V)

-- A write that fails may leave anything of its file.
pub data WriteOutcome (V : Type 0) : Type 0 where
  written : WriteOutcome V
  torn : (left : Option (Contents V)) → WriteOutcome V

-- What the platform does: whether the directory is there or can be made, how the write of the
-- temporary file ends, and whether a rename and a removal succeed.
pub record Platform (V : Type 0) : Type 0 where
  pub has_directory : Bool
  pub write : WriteOutcome V
  pub renames : Bool
  pub removes : Bool

pub record JsonFileMemoryStore : Type 0 where
  pub max_entries : ℕ
  pub max_entries_per_agent : ℕ
  pub lock_timeout_ms : ℕ
  pub lock_retry_delay_ms : ℕ

abbrev pub max_timer_delay_ms : ℕ
max_timer_delay_ms = 2147483647

-- One check of the constructor: an integer within bounds.
unfoldable pub within : ℕ → Number → Result ℕ
within minimum (nat n) = if leb minimum n && leb n max_timer_delay_ms then ok n else err range_error
within minimum not_nat = err range_error

unfoldable pub at_least : ℕ → Number → Result ℕ
at_least minimum (nat n) = if leb minimum n then ok n else err range_error
at_least minimum not_nat = err range_error

unfoldable pub init :
    Option Number → Option Number → Option Number → Option Number → Result JsonFileMemoryStore
unfolding within at_least
init max_entries max_per_agent timeout retry =
    Errors.◌>>=◌ (at_least 1 (get_or max_entries (nat default_max_memory_entries))) λ n.
      Errors.◌>>=◌ (at_least 0 (get_or max_per_agent (nat 0))) λ k.
        Errors.◌>>=◌ (within 0 (get_or timeout (nat 5000))) λ t.
          Errors.◌>>=◌ (within 1 (get_or retry (nat 10))) λ d. ok (record {
            max_entries = n;
            max_entries_per_agent = k;
            lock_timeout_ms = t;
            lock_retry_delay_ms = d;
          })

module _ {V : Type 0} where
  -- `findIndex` of an invalid element, and the array as entries.
  unfoldable pub entries_in : List (Element V) → Result (List (MemoryEntry V))
  entries_in [] = ok []
  entries_in (entry e ∷ es) = Errors.◌>>=◌ (entries_in es) λ rest. ok (e ∷ rest)
  entries_in (invalid ∷ es) = err (runtime_error storage_corrupted)

  unfoldable pub load_entries : Contents V → Result (List (MemoryEntry V))
  unfolding entries_in
  load_entries missing = ok []
  load_entries blank = ok []
  load_entries not_json = err (runtime_error storage_corrupted)
  load_entries not_array = err (runtime_error storage_corrupted)
  load_entries (array es) = entries_in es

  unfoldable pub read_entries : Action (Disk V) (List (MemoryEntry V))
  unfolding load_entries
  read_entries disk = (load_entries disk.main, disk)

  -- `writeFile(tempPath, data)`
  unfoldable pub write_file : WriteOutcome V → List (Element V) → Action (Disk V) (Unit {0})
  write_file written es disk = (ok tt, record disk { temp = some (array es) })
  write_file (torn left) es disk = (err foreign, record disk { temp = left })

  -- `rename(tempPath, storagePath)`
  unfoldable pub rename : Bool → Option (Contents V) → Action (Disk V) (Unit {0})
  rename true (some contents) disk = (ok tt, record { main = contents; temp = none })
  rename true none disk = (err foreign, disk)
  rename false temp disk = (err foreign, disk)

  -- `rm(tempPath, { force: true }).catch(() => undefined)`
  unfoldable pub remove_temp : Bool → Action (Disk V) (Unit {0})
  remove_temp true disk = (ok tt, record disk { temp = none })
  remove_temp false disk = (ok tt, disk)

  -- The loop that drops the agent's oldest entries while its count is at the limit.
  unfoldable pub evict_for_agent : Text → ℕ → ℕ → List (MemoryEntry V) → List (MemoryEntry V)
  evict_for_agent agent_id max agent_count [] = []
  evict_for_agent agent_id max agent_count (e ∷ es) =
      let fewer = evict_for_agent agent_id max (agent_count - 1) es in
      let other = evict_for_agent agent_id max agent_count es in
      if leb max agent_count then (if of_agent agent_id e then fewer else e ∷ other) else e ∷ es

  -- `while (entries.length >= this.maxEntries) entries.shift();`
  unfoldable pub evict_for_capacity : ℕ → List (MemoryEntry V) → List (MemoryEntry V)
  evict_for_capacity max [] = []
  evict_for_capacity max (e ∷ es) =
      let rest = evict_for_capacity max es in if leb max (suc (length es)) then rest else e ∷ es

  unfoldable pub with_entry :
      JsonFileMemoryStore → MemoryEntry V → List (MemoryEntry V) → List (MemoryEntry V)
  unfolding evict_for_agent evict_for_capacity
  with_entry s e es =
      evict_for_capacity s.max_entries (
        if ltb 0 s.max_entries_per_agent
        then evict_for_agent e.agent_id s.max_entries_per_agent (count (of_agent e.agent_id) es) es
        else es)
      ++ e ∷ []

  module _ (stored : MemoryEntry V → Element V) (clone : V → Result V) where
    unfoldable pub flush_atomic : Platform V → List (MemoryEntry V) → Action (Disk V) (Unit {0})
    unfolding write_file rename remove_temp
    flush_atomic p es = do
      if p.has_directory then return tt else throw foreign
      catch (write_file p.write (map stored es) >> (λ disk. rename p.renames disk.temp disk))
          (λ e. remove_temp p.removes >> throw e)

    unfoldable pub append :
        JsonFileMemoryStore → Platform V → MemoryEntry V → Action (Disk V) (Unit {0})
    unfolding copy read_entries with_entry flush_atomic
    append s p e = do
      e' ← lift (copy clone e)
      es ← read_entries
      flush_atomic p (with_entry s e' es)

    unfoldable pub list_by_agent : Text → ListMemoryOptions → Action (Disk V) (List (MemoryEntry V))
    unfolding assert_list_memory_options read_entries select_memory_entries
    list_by_agent agent_id options = do
      (limit, offset) ← lift (assert_list_memory_options options)
      es ← read_entries
      lift (select_memory_entries clone es agent_id limit offset)

    unfoldable pub clear : Platform V → Action (Disk V) (Unit {0})
    unfolding flush_atomic
    clear p = flush_atomic p []

  unfoldable pub count_by_agent : Text → Action (Disk V) ℕ
  unfolding read_entries
  count_by_agent agent_id = do es ← read_entries; return (count (of_agent agent_id) es)

  unfoldable pub size : Action (Disk V) ℕ
  unfolding read_entries
  size = do es ← read_entries; return (length es)
