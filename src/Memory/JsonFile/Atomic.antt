-- ===== src/Memory/JsonFile/Atomic.antt =====
-- What a write of the file store leaves on the disk, whatever calls of the file system fail.
use agentlily_runtime.Common.{◌≡◌, true, List, none, map}
use agentlily_runtime.Errors.{Result, ok, err}
use agentlily_runtime.Memory.{MemoryEntry, copy}
use agentlily_runtime.Memory.JsonFile.{
  Element, array, Disk, Platform, JsonFileMemoryStore, load_entries, with_entry,
}

module _ {V : Type 0} (stored : MemoryEntry V → Element V) (clone : V → Result V) where
  -- On a return the file has the entries and the temporary file is gone; on a throw the file is as it
  -- was, and the temporary file is gone if it could be removed.
  abbrev Flushed : Platform V → List (MemoryEntry V) → Disk V → Result (Unit {0}) × Disk V → Type 0
  Flushed p es disk (ok _, disk') = (disk'.main ≡ array (map stored es)) × (disk'.temp ≡ none)
  Flushed p es disk (err x, disk') =
      (disk'.main ≡ disk.main) × (p.removes ≡ true → disk.temp ≡ none → disk'.temp ≡ none)

  -- How an append ends: it returns, and the file has the entries that it read with the new one among
  -- them, or it throws, and the file is as it was.
  abbrev pub Appended :
      JsonFileMemoryStore
      → Platform V
      → MemoryEntry V
      → Disk V
      → Result (Unit {0}) × Disk V
      → Type 0
  Appended s p e disk (ok _, disk') =
      (e' : MemoryEntry V) × (es : List (MemoryEntry V)) × (copy clone e ≡ ok e')
      × (load_entries disk.main ≡ ok es)
      × (disk'.main ≡ array (map stored (with_entry s e' es)))
      × (disk'.temp ≡ none)
  Appended s p e disk (err x, disk') =
      (disk'.main ≡ disk.main) × (p.removes ≡ true → disk.temp ≡ none → disk'.temp ≡ none)
