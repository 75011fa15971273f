-- ===== src/Memory/JsonFile/Limits.antt =====
-- The limits of the file store, and its agreement with the in-memory store.
use agentlily_runtime.Common.{
  Text, ℕ, ◌-◌, ◌≤◌, ◌<◌, ◌≡◌, refl, inl, inr, true, List, [], ◌∷◌, ◌++◌, arith, length, count,
  text_eq_refl, get_or, ltb, leb, if◌then◌else◌, Bool-cases, Option-cases, length-append,
}
use agentlily_runtime.Memory.{MemoryEntry, of_agent}
use agentlily_runtime.Memory.InMemory.{InMemoryMemoryStore, remove_first}
use agentlily_runtime.Memory.InMemory
use agentlily_runtime.Memory.InMemory.Appends.{insert}
use agentlily_runtime.Memory.InMemory.Counts.{
  IsValid, entries_of, entries_of-append, shift_lem, evict_for_agent_cases, evict_for_agent-Shrinks,
}
use agentlily_runtime.Memory.JsonFile.{
  JsonFileMemoryStore, evict_for_agent, evict_for_capacity, with_entry,
}

module _ {V : Type 0} where
  -- The agent's entries that the first loop leaves, when it is given their number.
  entries_of-evict_for_agent :
      (k : Text) (max n : ℕ) (es : List (MemoryEntry V))
      → 0 < max
      → entries_of k es ≡ n
      → entries_of k (evict_for_agent k max n es) < max
  unfolding evict_for_agent
  entries_of-evict_for_agent k max n [] p h = p
  entries_of-evict_for_agent k max n (e ∷ es) p h = ground (
    arith,
    entries_of-evict_for_agent k max (n - 1) es p,
    entries_of-evict_for_agent k max n es p,
  )

  length-evict_for_capacity :
      (max : ℕ) (es : List (MemoryEntry V)) → 0 < max → length (evict_for_capacity max es) < max
  unfolding evict_for_capacity
  length-evict_for_capacity max [] p = p
  length-evict_for_capacity max (e ∷ es) p = ground (arith, length-evict_for_capacity max es p)

  entries_of-evict_for_capacity :
      (k : Text) (max : ℕ) (es : List (MemoryEntry V))
      → entries_of k (evict_for_capacity max es) ≤ entries_of k es
  unfolding evict_for_capacity
  entries_of-evict_for_capacity k max [] = omega arith
  entries_of-evict_for_capacity k max (e ∷ es) =
      ground (arith, entries_of-evict_for_capacity k max es)

  -- Whatever the file held, what is written after an append ends in the new entry, and is within the
  -- total limit and within the limit of the new entry's agent unless that is 0.
  pub with_entry_limits :
      (s : JsonFileMemoryStore) (e : MemoryEntry V) (es : List (MemoryEntry V))
      → 0 < s.max_entries
      → (length (with_entry s e es) ≤ s.max_entries)
        × (0 < s.max_entries_per_agent
            → entries_of e.agent_id (with_entry s e es) ≤ s.max_entries_per_agent)
        × ((kept : List (MemoryEntry V)) × (with_entry s e es ≡ kept ++ e ∷ []))
  unfolding with_entry
  with_entry_limits s e es p = (
    omega (arith, length-append last (e ∷ []), length-evict_for_capacity s.max_entries mid p),
    λ q. ground (
      arith,
      entries_of-append e.agent_id last e,
      entries_of-evict_for_capacity e.agent_id s.max_entries mid,
      mid_below q,
      text_eq_refl e.agent_id,
    ),
    (last, refl),
  )
    where
      mid : List (MemoryEntry V)
      mid =
          if ltb 0 s.max_entries_per_agent
          then evict_for_agent e.agent_id s.max_entries_per_agent (count (of_agent e.agent_id) es)
              es
          else es

      last : List (MemoryEntry V)
      last = evict_for_capacity s.max_entries mid

      mid_below : 0 < s.max_entries_per_agent → entries_of e.agent_id mid < s.max_entries_per_agent
      mid_below q = ground (
        arith,
        entries_of-evict_for_agent e.agent_id s.max_entries_per_agent (entries_of e.agent_id es) es,
      )

  evict_for_agent-below :
      (k : Text) (max n : ℕ) (es : List (MemoryEntry V)) → n < max → evict_for_agent k max n es ≡ es
  unfolding evict_for_agent
  evict_for_agent-below k max n [] h = refl
  evict_for_agent-below k max n (e ∷ es) h = ground arith

  -- At the limit the loop drops the agent's first entry, as the in-memory store does.
  evict_for_agent-at :
      (k : Text) (max : ℕ) (es : List (MemoryEntry V))
      → 0 < max
      → evict_for_agent k max max es ≡ get_or (remove_first k es) es
  unfolding evict_for_agent remove_first
  evict_for_agent-at k max [] p = refl
  evict_for_agent-at k max (e ∷ es) p = elim (Bool-cases (of_agent k e)) [
    | inl mine ↦
        let full : leb max max ≡ true = ground arith in
        rw (full, mine) (evict_for_agent-below k max (max - 1) es (omega arith))
    | inr other ↦ elim (Option-cases (remove_first k es)) [
      | inl absent ↦ ground (arith, evict_for_agent-at k max es p)
      | inr (rest, found) ↦ ground (arith, evict_for_agent-at k max es p)
    ]
  ]

  evict_for_capacity-within :
      (max : ℕ) (e : MemoryEntry V) (es : List (MemoryEntry V))
      → length (e ∷ es) ≤ max
      → evict_for_capacity max es ≡ es
  unfolding evict_for_capacity
  evict_for_capacity-within max e [] h = refl
  evict_for_capacity-within max e (x ∷ es) h = ground arith

  same_capacity_eviction :
      (s : InMemoryMemoryStore V) (l : List (MemoryEntry V))
      → s.entries ≡ l
      → length l ≤ s.max_entries
      → (InMemory.evict_for_capacity s).entries ≡ evict_for_capacity s.max_entries l
  unfolding InMemory.evict_for_capacity InMemory.shift evict_for_capacity
  same_capacity_eviction s [] h p = ground arith
  same_capacity_eviction s (e ∷ rest) h p =
      ground (arith, shift_lem s e rest h, evict_for_capacity-within s.max_entries e rest p)

  same_agent_eviction :
      (k : Text) (s : InMemoryMemoryStore V)
      → IsValid s
      → (InMemory.evict_for_agent k s).entries ≡ (
          if ltb 0 s.max_entries_per_agent
          then evict_for_agent k s.max_entries_per_agent (entries_of k s.entries) s.entries
          else s.entries)
  same_agent_eviction k s v = elim (evict_for_agent_cases k s v.consistent) [
    | inl (same, below) ↦ rw same (
        ground (
          arith,
          below,
          evict_for_agent-below k s.max_entries_per_agent (entries_of k s.entries) s.entries,
        ))
    | inr (rest, found, same, p, full) ↦
        let at_limit : entries_of k s.entries ≡ s.max_entries_per_agent =
          omega (arith, v.per_agent p k) in
        rw (same, at_limit)
          (ground (arith, evict_for_agent-at k s.max_entries_per_agent s.entries p))
  ]

  -- On entries that a valid in-memory store holds, the file store with the same limits writes what
  -- the in-memory store would hold after the same append.
  pub with_entry-insert :
      (f : JsonFileMemoryStore) (s : InMemoryMemoryStore V) (e : MemoryEntry V)
      → IsValid s
      → f.max_entries ≡ s.max_entries
      → f.max_entries_per_agent ≡ s.max_entries_per_agent
      → with_entry f e s.entries ≡ (insert e s).entries
  unfolding with_entry InMemory.push
  with_entry-insert f s e v m k =
      let mid = InMemory.evict_for_agent e.agent_id s in
      let shrunk = evict_for_agent-Shrinks e.agent_id s v.consistent in
      let fits : length mid.entries ≤ mid.max_entries =
        unfold InMemory.size in omega (arith, shrunk.shorter, v.bounded, shrunk.same_max) in
      rw (
        m,
        k,
        ← same_agent_eviction e.agent_id s v,
        same_capacity_eviction mid mid.entries refl fits,
        shrunk.same_max,
      )
