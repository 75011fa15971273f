-- ===== src/Memory.antt =====
-- src/memory/memory-store.ts: what both stores share. Outputs are of a type `V`; the defensive
-- copy that the platform makes of an output is the argument `clone`, which may throw.
pub mod Select
pub mod InMemory
pub mod JsonFile
mod Tests
use agentlily_runtime.Common.{
  Text, ℕ, zero, suc, ◌+◌, ◌-◌, Bool, true, false, not, Option, none, some, List, [], ◌∷◌, ◌++◌,
  ltb, leb, ◌==◌, length, text_eq, get_or, if◌then◌else◌,
}
use agentlily_runtime.Common.Value.{Number, nat, not_nat}
use agentlily_runtime.Errors.{Result, ok, err, range_error, ◌>>=◌, ◌>>◌}

pub record MemoryEntry (V : Type 0) : Type 0 where
  pub agent_id : Text
  pub task_id : Text
  pub input : Text
  pub output : V
  pub recorded_at : Text

pub record ListMemoryOptions : Type 0 where
  pub limit : Option Number
  pub offset : Option Number

abbrev pub default_max_memory_entries : ℕ
default_max_memory_entries = 10000

abbrev pub default_max_memory_entries_per_agent : ℕ
default_max_memory_entries_per_agent = 1000

-- `undefined` or a non-negative integer
unfoldable pub assert_non_negative : Option Number → Result (Option ℕ)
assert_non_negative none = ok none
assert_non_negative (some (nat n)) = ok (some n)
assert_non_negative (some not_nat) = err range_error

-- `assertListMemoryOptions`: the limit and the offset that it lets through.
unfoldable pub assert_list_memory_options : ListMemoryOptions → Result (Option ℕ × Option ℕ)
unfolding assert_non_negative
assert_list_memory_options options = do
  offset ← assert_non_negative options.offset
  limit ← assert_non_negative options.limit
  ok (limit, offset)

-- `selected.length >= limit`, where an absent limit is infinite
abbrev pub is_enough : Option ℕ → ℕ → Bool
is_enough none n = false
is_enough (some limit) n = leb limit n

module _ {V : Type 0} where
  abbrev pub of_agent : Text → MemoryEntry V → Bool
  of_agent agent_id e = text_eq e.agent_id agent_id

  module _ (clone : V → Result V) where
    -- `{ ...entry, output: cloneOutput(entry.output) }`
    unfoldable pub copy : MemoryEntry V → Result (MemoryEntry V)
    copy e = do output ← clone e.output; ok (record e { output = output })

    -- The loop of `selectMemoryEntries`.
    unfoldable pub select_from :
        Text
        → Option ℕ
        → ℕ
        → List (MemoryEntry V)
        → List (MemoryEntry V)
        → Result (List (MemoryEntry V))
    unfolding copy
    select_from agent_id limit offset selected [] = ok selected
    select_from agent_id limit offset selected (e ∷ es) =
        let skip = select_from agent_id limit (offset - 1) selected es in
        let pass = select_from agent_id limit offset selected es in
        let take_it =
          λ (e' : MemoryEntry V). select_from agent_id limit offset (selected ++ e' ∷ []) es in
        if not (of_agent agent_id e)
        then pass
        else if ltb 0 offset
        then skip
        else (copy e >>= λ e'.
            if is_enough limit (suc (length selected))
            then ok (selected ++ e' ∷ [])
            else take_it e')

    unfoldable pub select_memory_entries :
        List (MemoryEntry V) → Text → Option ℕ → Option ℕ → Result (List (MemoryEntry V))
    unfolding select_from
    select_memory_entries entries agent_id limit offset =
        if is_enough limit 0 then ok [] else select_from agent_id limit (get_or offset 0) [] entries
