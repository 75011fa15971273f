-- ===== src/State/Lookup.antt =====
-- What a `put` leaves to be read: the FIFO discipline, and the value of every key.
use agentlily_runtime.Common.{
  Text, ◌≤◌, ◌<◌, ◌≡◌, refl, Bool, false, ◌&&◌, not, none, some, List, [], ◌∷◌, ◌++◌, arith, length,
  ltb, leb, if◌then◌else◌, text_eq, text_eq_iff,
}
use agentlily_runtime.Common.Dict.{get, has, Distinct, get-set, set-new, get-none}
use agentlily_runtime.State.{RuntimeStateStore, evict_oldest, put, get_value, has_key}
use agentlily_runtime.State.Bounds.{evict_oldest_lem, IsValid}

abbrev pub is_oldest {ℓ} : {V : Type ℓ} → Text → List (Text × V) → Bool
is_oldest j [] = false
is_oldest j ((k, v) ∷ m) = text_eq k j

module _ {ℓ} {V : Type ℓ} where
  -- The store is full for a key: a capacity is set and reached, and the key is new.
  abbrev pub IsFull : Text → RuntimeStateStore V → Type 0
  IsFull k s = (0 < s.max_entries) × (has_key k s ≡ false) × (s.max_entries ≤ length s.store)

  -- A `put` of a new key on a full store drops the entry that was inserted first, and no other, and
  -- appends the new one.
  pub put_fifo :
      (k i : Text) (v w : V) (rest : List (Text × V)) (s : RuntimeStateStore V)
      → IsFull k s
      → s.store ≡ (i, w) ∷ rest
      → (put k v s).store ≡ rest ++ (k, v) ∷ []
  unfolding put has_key has
  put_fifo k i v w rest s h e = ground (arith, evict_oldest_lem i w rest, set-new k v rest)

  get-evict_oldest :
      (j : Text) (m : List (Text × V))
      → Distinct m
      → get j (evict_oldest m) ≡ (if is_oldest j m then none else get j m)
  unfolding get evict_oldest
  get-evict_oldest j [] d = refl
  get-evict_oldest j ((k, v) ∷ m) d =
      ground (arith, evict_oldest_lem k v m, text_eq_iff k j, get-none k m)

  -- After a `put` on a valid store a key reads the new value if it is the key put; nothing if it was
  -- the oldest key of a store that was full for the new key; and otherwise what it read before.
  pub get_value-put :
      (k j : Text) (v : V) (s : RuntimeStateStore V)
      → IsValid s
      → get_value j (put k v s) ≡ (
          if text_eq k j
          then some v
          else if ltb 0 s.max_entries
              && not (has_key k s)
              && leb s.max_entries (length s.store)
              && is_oldest j s.store
          then none
          else get_value j s)
  unfolding put get_value has_key
  get_value-put k j v s h = ground (
    arith,
    get-set k j v s.store,
    get-set k j v (evict_oldest s.store),
    get-evict_oldest j s.store h.distinct,
  )
