-- ===== src/Memory/InMemory/Counts.antt =====
-- The counters of the in-memory store agree with its entries, and the limits hold.
use agentlily_runtime.Common.{
  Text, ℕ, suc, ◌+◌, ◌-◌, ◌≤◌, ◌<◌, ◌≡◌, refl, ap, ◌⊎◌, ◌&&◌, Bool, none, some, List, [], ◌∷◌, ◌++◌,
  arith, length, count, text_eq, text_eq_iff, text_eq_refl, ltb, leb, if◌then◌else◌, Bool-cases,
  Option-cases, inl, inr,
}
use agentlily_runtime.Common.Dict.{
  set, delete, Distinct, set-Distinct, delete-Distinct, get-set, get-none, has-delete_self,
  get-delete_ne,
}
use agentlily_runtime.Memory.{MemoryEntry, of_agent}
use agentlily_runtime.Memory.InMemory.{
  InMemoryMemoryStore, count_of, decrement_agent_count, remove_first, evict_for_agent, shift,
  evict_for_capacity, count_by_agent, size,
}

-- The entries of an agent, counted.
abbrev pub entries_of : {V : Type 0} → Text → List (MemoryEntry V) → ℕ
entries_of agent_id es = count (of_agent agent_id) es

pub count_of-set :
    (k j : Text) (n : ℕ) (m : List (Text × ℕ))
    → count_of j (set k n m) ≡ (if text_eq k j then n else count_of j m)
unfolding count_of
count_of-set k j n m = ground (arith, get-set k j n m)

count_of-delete :
    (k j : Text) (m : List (Text × ℕ))
    → Distinct m
    → count_of j (delete k m) ≡ (if text_eq k j then 0 else count_of j m)
unfolding count_of
count_of-delete k j m d =
    ground
      (arith, get-delete_ne k j m, text_eq_iff k j, get-none k (delete k m) (has-delete_self k m d))

count_of-decrement :
    (k j : Text) (m : List (Text × ℕ))
    → Distinct m
    → count_of j (decrement_agent_count k m)
      ≡ (if text_eq k j then count_of k m - 1 else count_of j m)
unfolding decrement_agent_count
count_of-decrement k j m d =
    ground (arith, count_of-set k j (count_of k m - 1) m, count_of-delete k j m d, text_eq_iff k j)

decrement-Distinct :
    (k : Text) (m : List (Text × ℕ)) → Distinct m → Distinct (decrement_agent_count k m)
unfolding decrement_agent_count
decrement-Distinct k m d =
    ground (arith, delete-Distinct k m d, set-Distinct k (count_of k m - 1) m d)

module _ {V : Type 0} where
  pub entries_of-append :
      (a : Text) (es : List (MemoryEntry V)) (e : MemoryEntry V)
      → entries_of a (es ++ e ∷ []) ≡ entries_of a es + (if of_agent a e then 1 else 0)
  entries_of-append a [] e = ground arith
  entries_of-append a (x ∷ es) e = ground (arith, entries_of-append a es e)

  -- Dropping the first entry of an agent takes one off that agent alone.
  remove_first-count :
      (k j : Text) (es rest : List (MemoryEntry V))
      → remove_first k es ≡ some rest
      → entries_of j es ≡ entries_of j rest + (if text_eq k j then 1 else 0)
  unfolding remove_first
  remove_first-count k j [] rest e = cc
  remove_first-count k j (x ∷ es) rest e = elim (Option-cases (remove_first k es)) [
    | inl none_left ↦
        ground (arith, text_eq_iff x.agent_id k, text_eq_iff x.agent_id j, text_eq_iff k j)
    | inr (r, er) ↦ ground (
      arith,
      remove_first-count k j es r er,
      text_eq_iff x.agent_id k,
      text_eq_iff x.agent_id j,
      text_eq_iff k j,
    )
  ]

  remove_first-length :
      (k : Text) (es rest : List (MemoryEntry V))
      → remove_first k es ≡ some rest
      → length es ≡ suc (length rest)
  unfolding remove_first
  remove_first-length k [] rest e = cc
  remove_first-length k (x ∷ es) rest e = elim (Option-cases (remove_first k es)) [
    | inl none_left ↦ ground arith
    | inr (r, er) ↦ ground (arith, remove_first-length k es r er)
  ]

  remove_first-none :
      (k : Text) (es : List (MemoryEntry V)) → remove_first k es ≡ none → entries_of k es ≡ 0
  unfolding remove_first
  remove_first-none k [] e = refl
  remove_first-none k (x ∷ es) e = ground (arith, remove_first-none k es)

  -- Every agent's counter is the number of its entries.
  pub record IsConsistent (s : InMemoryMemoryStore V) : Type 0 where
    pub distinct : Distinct s.agent_counts
    pub counted : (a : Text) → count_by_agent a s ≡ entries_of a s.entries

  pub record IsValid (s : InMemoryMemoryStore V) : Type 0 where
    pub consistent : IsConsistent s
    pub bounded : size s ≤ s.max_entries
    pub per_agent :
        0 < s.max_entries_per_agent → (a : Text) → entries_of a s.entries ≤ s.max_entries_per_agent
    pub positive : 0 < s.max_entries

  -- What an eviction may do to a store.
  pub record Shrinks (s s' : InMemoryMemoryStore V) : Type 0 where
    pub consistent : IsConsistent s'
    pub shorter : size s' ≤ size s
    pub fewer : (a : Text) → entries_of a s'.entries ≤ entries_of a s.entries
    pub same_max : s'.max_entries ≡ s.max_entries
    pub same_per_agent : s'.max_entries_per_agent ≡ s.max_entries_per_agent

  Shrinks-refl : (s : InMemoryMemoryStore V) → IsConsistent s → Shrinks s s
  Shrinks-refl s c = record {
    consistent = c;
    shorter = omega arith;
    fewer = λ a. omega arith;
    same_max = refl;
    same_per_agent = refl;
  }

  -- The store without one entry of an agent.
  abbrev pub without : Text → List (MemoryEntry V) → InMemoryMemoryStore V → InMemoryMemoryStore V
  without k rest s = record s {
    entries = rest;
    agent_counts = decrement_agent_count k s.agent_counts;
  }

  without-Shrinks :
      (k : Text) (rest : List (MemoryEntry V)) (s : InMemoryMemoryStore V)
      → ((j : Text) → entries_of j s.entries ≡ entries_of j rest + (if text_eq k j then 1 else 0))
      → length s.entries ≡ suc (length rest)
      → IsConsistent s
      → Shrinks s (without k rest s)
  unfolding size count_by_agent
  without-Shrinks k rest s h l c = record {
    consistent = record {
      distinct = decrement-Distinct k s.agent_counts c.distinct;
      counted = λ a. ground (
        arith,
        count_of-decrement k a s.agent_counts c.distinct,
        h a,
        c.counted a,
        text_eq_iff k a,
      );
    };
    shorter = omega arith;
    fewer = λ a. ground (arith, h a);
    same_max = refl;
    same_per_agent = refl;
  }

  -- Either the agent is below its limit and nothing is dropped, or its first entry is dropped.
  pub evict_for_agent_cases :
      (k : Text) (s : InMemoryMemoryStore V)
      → IsConsistent s
      → ((evict_for_agent k s ≡ s)
          × (0 < s.max_entries_per_agent → entries_of k s.entries < s.max_entries_per_agent))
        ⊎ ((rest : List (MemoryEntry V)) × (remove_first k s.entries ≡ some rest)
            × (evict_for_agent k s ≡ without k rest s)
            × (0 < s.max_entries_per_agent)
            × (s.max_entries_per_agent ≤ entries_of k s.entries))
  unfolding evict_for_agent count_by_agent
  evict_for_agent_cases k s c = elim (Bool-cases is_full) [
    | inr below ↦ inl (rw (evict_for_agent, below), λ p. ground (arith, c.counted k))
    | inl full ↦ elim (Option-cases (remove_first k s.entries)) [
      | inl absent ↦ inl (
        rw (evict_for_agent, full, absent),
        λ p. omega (arith, remove_first-none k s.entries absent),
      )
      | inr (rest, found) ↦ inr (
        rest,
        found,
        rw (evict_for_agent, full, found),
        ground arith,
        ground (arith, c.counted k),
      )
    ]
  ]
    where
      is_full : Bool
      is_full =
          ltb 0 s.max_entries_per_agent && leb s.max_entries_per_agent (count_of k s.agent_counts)

  pub evict_for_agent-Shrinks :
      (k : Text) (s : InMemoryMemoryStore V) → IsConsistent s → Shrinks s (evict_for_agent k s)
  evict_for_agent-Shrinks k s c = elim (evict_for_agent_cases k s c) [
    | inl (same, _) ↦ rw same (Shrinks-refl s c)
    | inr (rest, found, same, _, _) ↦ rw same (
        without-Shrinks k rest s (λ j. remove_first-count k j s.entries rest found)
          (remove_first-length k s.entries rest found) c)
  ]

  -- An agent that is within its limit is below it once its oldest entry has made room.
  pub evict_for_agent-lt :
      (k : Text) (s : InMemoryMemoryStore V)
      → IsConsistent s
      → 0 < s.max_entries_per_agent
      → entries_of k s.entries ≤ s.max_entries_per_agent
      → entries_of k (evict_for_agent k s).entries < s.max_entries_per_agent
  evict_for_agent-lt k s c p h = elim (evict_for_agent_cases k s c) [
    | inl (same, below) ↦ rw same (below p)
    | inr (rest, found, same, _, _) ↦
        rw same (ground (arith, remove_first-count k k s.entries rest found, text_eq_refl k))
  ]

  pub shift_lem :
      (s : InMemoryMemoryStore V) (e : MemoryEntry V) (rest : List (MemoryEntry V))
      → s.entries ≡ e ∷ rest
      → shift s ≡ without e.agent_id rest s
  unfolding shift
  shift_lem s e rest h = rw h

  shift-Shrinks :
      (s : InMemoryMemoryStore V) (l : List (MemoryEntry V))
      → s.entries ≡ l
      → 0 < size s
      → IsConsistent s
      → Shrinks s (shift s) × (size (shift s) < size s)
  unfolding size
  shift-Shrinks s [] h p c = absurd (ground arith)
  shift-Shrinks s (e ∷ rest) h p c = rw (shift_lem s e rest h) (
    without-Shrinks e.agent_id rest s (λ j. rw h (ground arith)) (ap length h) c,
    rw h (omega arith),
  )

  pub evict_for_capacity-Shrinks :
      (s : InMemoryMemoryStore V)
      → IsConsistent s
      → 0 < s.max_entries
      → size s ≤ s.max_entries
      → Shrinks s (evict_for_capacity s) × (size (evict_for_capacity s) < s.max_entries)
  unfolding evict_for_capacity size
  evict_for_capacity-Shrinks s c p h = elim (Bool-cases (leb s.max_entries (length s.entries))) [
    | inl full ↦
        let (shrunk, less) = shift-Shrinks s s.entries refl (unfold size in ground arith) c in
        rw (full, evict_for_capacity) (shrunk, unfold size in omega arith)
    | inr room ↦ rw (room, evict_for_capacity) (Shrinks-refl s c, ground arith)
  ]
