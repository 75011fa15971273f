-- ===== src/State.antt =====
-- src/state/runtime-state.ts: `InMemoryRuntimeStateStore`, a bounded map from keys to values. A
-- method returns the new state; the promises that it returns settle at once.
pub mod Bounds
pub mod Lookup
mod Tests
use agentlily_runtime.Common.{
  Text, ℕ, Bool, true, false, ◌&&◌, not, Option, none, some, List, [], ltb, leb, length, get_or,
  if◌then◌else◌,
}
use agentlily_runtime.Common.Dict.{get, has, set, delete, oldest, keys}
use agentlily_runtime.Common.Value.{Number, nat, not_nat}
use agentlily_runtime.Errors.{Result, ok, err, range_error}

pub record RuntimeStateStore {ℓ} (V : Type ℓ) : Type ℓ where
  pub store : List (Text × V)
  pub max_entries : ℕ

module _ {ℓ} {V : Type ℓ} where
  unfoldable pub init : Option Number → Result (RuntimeStateStore V)
  init max_entries = elim (get_or max_entries (nat 10000)) [
    | nat n ↦ ok (record { store = []; max_entries = n })
    | not_nat ↦ err range_error
  ]

  -- `oldestKey !== undefined` and the deletion
  unfoldable pub evict_oldest : List (Text × V) → List (Text × V)
  evict_oldest m = elim (oldest m) [ none ↦ m | some k ↦ delete k m ]

  unfoldable pub put : Text → V → RuntimeStateStore V → RuntimeStateStore V
  unfolding evict_oldest
  put key value s =
      if ltb 0 s.max_entries && not (has key s.store) && leb s.max_entries (length s.store)
      then record s { store = set key value (evict_oldest s.store) }
      else record s { store = set key value s.store }

  unfoldable pub get_value : Text → RuntimeStateStore V → Option V
  get_value key s = get key s.store

  unfoldable pub delete_key : Text → RuntimeStateStore V → RuntimeStateStore V × Bool
  delete_key key s = (record s { store = delete key s.store }, has key s.store)

  unfoldable pub has_key : Text → RuntimeStateStore V → Bool
  has_key key s = has key s.store

  unfoldable pub clear : RuntimeStateStore V → RuntimeStateStore V
  clear s = record s { store = [] }

  unfoldable pub size : RuntimeStateStore V → ℕ
  size s = length s.store

  unfoldable pub list_keys : RuntimeStateStore V → List Text
  list_keys s = keys s.store
