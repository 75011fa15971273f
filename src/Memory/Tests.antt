-- ===== src/Memory/Tests.antt =====
-- src/memory/memory-store.ts on a few entries.
use agentlily_runtime.Common.{
  Text, lit, ◌≡◌, refl, ℕ, ◌+◌, ◌≤◌, ◌<◌, Bool, true, false, Option, none, some, List, [], ◌∷◌,
  ◌++◌, length, keep, get_or, arith,
}
use agentlily_runtime.Common.Value.{nat}
use agentlily_runtime.Errors.{Result, ok}
use agentlily_runtime.Memory.{MemoryEntry, of_agent, select_memory_entries}
use agentlily_runtime.Memory.Select.{copies, take_limit, drop, select_memory_entries_lem}
use agentlily_runtime.Memory.InMemory.{InMemoryMemoryStore, init}
use agentlily_runtime.Memory.InMemory.Counts.{IsValid, entries_of}
use agentlily_runtime.Memory.InMemory.Appends.{insert}
use agentlily_runtime.Memory.InMemory.Runs.{Call, appends, run, run-IsValid_memory}
use agentlily_runtime.Memory.JsonFile.{
  Disk, Platform, torn, not_json, missing, JsonFileMemoryStore, with_entry, append,
}
use agentlily_runtime.Memory.JsonFile.Limits.{with_entry_limits, with_entry-insert}

abbrev entry_of : Text → ℕ → MemoryEntry ℕ
entry_of a n = record {
  agent_id = a;
  task_id = lit "t";
  input = lit "i";
  output = n;
  recorded_at = lit "r";
}

abbrev entries : List (MemoryEntry ℕ)
entries = entry_of (lit "a") 1 ∷ entry_of (lit "b") 2 ∷ entry_of (lit "a") 3 ∷ []

abbrev same : ℕ → Result ℕ
same n = ok n

abbrev fresh : InMemoryMemoryStore ℕ
fresh = record { entries = []; agent_counts = []; max_entries = 2; max_entries_per_agent = 1 }

abbrev file_store : JsonFileMemoryStore
file_store = record {
  max_entries = 2;
  max_entries_per_agent = 1;
  lock_timeout_ms = 5000;
  lock_retry_delay_ms = 10;
}

abbrev history : List (Call ℕ)
history = appends (entry_of (lit "a") 1) ∷ appends (entry_of (lit "b") 2) ∷ []

select_memory_entries_lem_example :
    select_memory_entries same entries (lit "a") (some 1) (some 1)
    ≡ copies same
        (take_limit (some 1) (drop (get_or (some 1) 0) (keep (of_agent (lit "a")) entries)))
select_memory_entries_lem_example =
    select_memory_entries_lem same entries (lit "a") (some 1) (some 1)

run-IsValid_memory_example : IsValid (run same history fresh)
unfolding init
run-IsValid_memory_example = run-IsValid_memory same (nat 2) (nat 1) history fresh refl

with_entry_limits_example :
    (length (with_entry file_store (entry_of (lit "a") 9) entries) ≤ 2)
    × (0 < 1 → entries_of (lit "a") (with_entry file_store (entry_of (lit "a") 9) entries) ≤ 1)
    × ((kept : List (MemoryEntry ℕ)) × (with_entry file_store (entry_of (lit "a") 9) entries
          ≡ kept ++ entry_of (lit "a") 9 ∷ []))
with_entry_limits_example =
    with_entry_limits file_store (entry_of (lit "a") 9) entries (omega arith)

abbrev no_file : Disk ℕ
no_file = record { main = missing; temp = none }

-- The write of the temporary file fails half-way, and the part is removed.
abbrev full_disk : Platform ℕ
full_disk = record {
  has_directory = true;
  write = torn (some not_json);
  renames = true;
  removes = true;
}

with_entry-insert_example :
    with_entry file_store (entry_of (lit "a") 9) (run same history fresh).entries
    ≡ (insert (entry_of (lit "a") 9) (run same history fresh)).entries
unfolding init run agentlily_runtime.Memory.InMemory.append agentlily_runtime.Common.Dict.get
    agentlily_runtime.Common.Dict.set agentlily_runtime.Common.text_eq
with_entry-insert_example =
    with_entry-insert file_store (run same history fresh) (entry_of (lit "a") 9)
      (run-IsValid_memory same (nat 2) (nat 1) history fresh refl) refl refl
