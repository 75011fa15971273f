-- ===== src/Memory/InMemory.antt =====
-- src/memory/memory-store.ts: `InMemoryMemoryStore`.
pub mod Counts
pub mod Appends
pub mod Runs
use agentlily_runtime.Common.{
  Text, ℕ, zero, suc, ◌+◌, ◌-◌, Bool, true, false, ◌&&◌, Option, none, some, List, [], ◌∷◌, ◌++◌,
  ltb, leb, length, get_or, if◌then◌else◌,
}
use agentlily_runtime.Common.Dict.{get, set, delete}
use agentlily_runtime.Common.Value.{Number, nat, not_nat}
use agentlily_runtime.Errors.{Result, ok, err, range_error, ◌>>=◌}
use agentlily_runtime.Memory.{
  MemoryEntry, ListMemoryOptions, default_max_memory_entries, default_max_memory_entries_per_agent,
  of_agent, copy, assert_list_memory_options, select_memory_entries,
}

pub record InMemoryMemoryStore (V : Type 0) : Type 0 where
  pub entries : List (MemoryEntry V)
  pub agent_counts : List (Text × ℕ)
  pub max_entries : ℕ
  pub max_entries_per_agent : ℕ

-- The constructor's checks, for its two options.
unfoldable pub init : {V : Type 0} → Option Number → Option Number → Result (InMemoryMemoryStore V)
init max_entries max_per_agent =
    limits (get_or max_entries (nat default_max_memory_entries))
      (get_or max_per_agent (nat default_max_memory_entries_per_agent))
  where
    limits : {V : Type 0} → Number → Number → Result (InMemoryMemoryStore V)
    limits (nat (suc n)) (nat k) =
        ok (record {
          entries = [];
          agent_counts = [];
          max_entries = suc n;
          max_entries_per_agent = k;
        })
    limits _ _ = err range_error

-- `this.agentCounts.get(agentId) ?? 0`
unfoldable pub count_of : Text → List (Text × ℕ) → ℕ
count_of agent_id counts = get_or (get agent_id counts) 0

unfoldable pub decrement_agent_count : Text → List (Text × ℕ) → List (Text × ℕ)
unfolding count_of
decrement_agent_count agent_id counts =
    if leb (count_of agent_id counts) 1
    then delete agent_id counts
    else set agent_id (count_of agent_id counts - 1) counts

module _ {V : Type 0} where
  -- `findIndex` and `splice`: the entries without the agent's first, if it has one.
  unfoldable pub remove_first : Text → List (MemoryEntry V) → Option (List (MemoryEntry V))
  remove_first agent_id [] = none
  remove_first agent_id (e ∷ es) =
      if of_agent agent_id e
      then some es
      else elim (remove_first agent_id es) [ none ↦ none | some rest ↦ some (e ∷ rest) ]

  -- The agent's oldest entry is dropped if the agent has reached its limit.
  unfoldable pub evict_for_agent : Text → InMemoryMemoryStore V → InMemoryMemoryStore V
  unfolding remove_first decrement_agent_count
  evict_for_agent agent_id s =
      if ltb 0 s.max_entries_per_agent
        && leb s.max_entries_per_agent (count_of agent_id s.agent_counts)
      then elim (remove_first agent_id s.entries) [
        | none ↦ s
        | some rest ↦ record s {
          entries = rest;
          agent_counts = decrement_agent_count agent_id s.agent_counts;
        }
      ]
      else s

  -- `this.entries.shift()`
  unfoldable pub shift : InMemoryMemoryStore V → InMemoryMemoryStore V
  unfolding decrement_agent_count
  shift s = elim s.entries [
    | [] ↦ s
    | evicted ∷ rest ↦ record s {
      entries = rest;
      agent_counts = decrement_agent_count evicted.agent_id s.agent_counts;
    }
  ]

  -- The oldest entry of all is dropped if the store is full.
  unfoldable pub evict_for_capacity : InMemoryMemoryStore V → InMemoryMemoryStore V
  unfolding shift
  evict_for_capacity s = if leb s.max_entries (length s.entries) then shift s else s

  unfoldable pub push : MemoryEntry V → InMemoryMemoryStore V → InMemoryMemoryStore V
  unfolding count_of
  push e s = record s {
    entries = s.entries ++ e ∷ [];
    agent_counts = set e.agent_id (count_of e.agent_id s.agent_counts + 1) s.agent_counts;
  }

  unfoldable pub append :
      (V → Result V) → MemoryEntry V → InMemoryMemoryStore V → Result (InMemoryMemoryStore V)
  unfolding copy evict_for_agent evict_for_capacity push
  append clone entry s = do
    e ← copy clone entry
    ok (push e (evict_for_capacity (evict_for_agent e.agent_id s)))

  unfoldable pub list_by_agent :
      (V → Result V)
      → Text
      → ListMemoryOptions
      → InMemoryMemoryStore V
      → Result (List (MemoryEntry V))
  unfolding assert_list_memory_options select_memory_entries
  list_by_agent clone agent_id options s = do
    (limit, offset) ← assert_list_memory_options options
    select_memory_entries clone s.entries agent_id limit offset

  unfoldable pub count_by_agent : Text → InMemoryMemoryStore V → ℕ
  unfolding count_of
  count_by_agent agent_id s = count_of agent_id s.agent_counts

  unfoldable pub clear : InMemoryMemoryStore V → InMemoryMemoryStore V
  clear s = record s { entries = []; agent_counts = [] }

  unfoldable pub size : InMemoryMemoryStore V → ℕ
  size s = length s.entries

  unfoldable pub capacity : InMemoryMemoryStore V → ℕ
  capacity s = s.max_entries
