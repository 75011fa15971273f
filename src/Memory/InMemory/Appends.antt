-- ===== src/Memory/InMemory/Appends.antt =====
-- What an append does to a valid store.
use mathlib.Core.Path.{subst}
use agentlily_runtime.Common.{◌+◌, ◌<◌, ◌≡◌, [], ◌∷◌, arith, text_eq_iff, inl, inr, length-append}
use agentlily_runtime.Common.Dict.{set-Distinct}
use agentlily_runtime.Errors.{Result, ok, Result-cases, ok-injective}
use agentlily_runtime.Memory.{MemoryEntry, copy}
use agentlily_runtime.Memory.InMemory.{
  InMemoryMemoryStore, count_of, evict_for_agent, evict_for_capacity, push, append, count_by_agent,
  size,
}
use agentlily_runtime.Memory.InMemory.Counts.{
  count_of-set, entries_of-append, IsConsistent, IsValid, evict_for_agent-Shrinks,
  evict_for_agent-lt, evict_for_capacity-Shrinks,
}

module _ {V : Type 0} where
  push-IsConsistent :
      (e : MemoryEntry V) (s : InMemoryMemoryStore V) → IsConsistent s → IsConsistent (push e s)
  unfolding push count_by_agent
  push-IsConsistent e s c = record {
    distinct =
        set-Distinct e.agent_id (count_of e.agent_id s.agent_counts + 1) s.agent_counts c.distinct;
    counted = λ a. ground (
      arith,
      count_of-set e.agent_id a (count_of e.agent_id s.agent_counts + 1) s.agent_counts,
      entries_of-append a s.entries e,
      c.counted a,
      text_eq_iff e.agent_id a,
    );
  }

  -- What is appended once its output has been copied.
  abbrev pub insert : MemoryEntry V → InMemoryMemoryStore V → InMemoryMemoryStore V
  insert e s = push e (evict_for_capacity (evict_for_agent e.agent_id s))

  insert-IsValid :
      (e : MemoryEntry V) (s : InMemoryMemoryStore V) → IsValid s → IsValid (insert e s)
  insert-IsValid e s v =
      let first = evict_for_agent-Shrinks e.agent_id s v.consistent in
      let mid = evict_for_agent e.agent_id s in
      let (second, room) =
        evict_for_capacity-Shrinks mid first.consistent (omega (arith, first.same_max, v.positive))
          (omega (arith, first.same_max, first.shorter, v.bounded)) in
      let last = evict_for_capacity mid in
      record {
        consistent = push-IsConsistent e last second.consistent;
        bounded =
            unfold push size in
            omega
              (arith, length-append last.entries (e ∷ []), room, second.same_max, first.same_max);
        per_agent =
            unfold push in
            λ p a.
              let p' : 0 < s.max_entries_per_agent =
                omega (arith, second.same_per_agent, first.same_per_agent) in
              let mine =
                evict_for_agent-lt e.agent_id s v.consistent p' (v.per_agent p' e.agent_id) in
              ground (
                arith,
                entries_of-append a last.entries e,
                second.fewer a,
                first.fewer a,
                v.per_agent p' a,
                mine,
                second.same_per_agent,
                first.same_per_agent,
                text_eq_iff e.agent_id a,
              );
        positive = unfold push in omega (arith, second.same_max, first.same_max, v.positive);
      }

  -- Appending keeps a store valid: the total and each agent's share stay within their limits, and
  -- every counter stays the number of the agent's entries.
  pub append-IsValid :
      (clone : V → Result V) (entry : MemoryEntry V) (s s' : InMemoryMemoryStore V)
      → IsValid s
      → append clone entry s ≡ ok s'
      → IsValid s'
  unfolding append
  append-IsValid clone entry s s' v h = elim (Result-cases (copy clone entry)) [
    | inr (x, failed) ↦ cc (rw (failed, append) at h)
    | inl (e, copied) ↦
        let same : insert e s ≡ s' = ok-injective (rw (copied, append) at h) in
        subst IsValid same (insert-IsValid e s v)
  ]
