-- ===== src/State/Bounds.antt =====
-- The bound on the store's size, over any history of calls.
use agentlily_runtime.Common.{
  Text, ◌≤◌, ◌<◌, ◌+◌, ◌≡◌, Option, none, some, List, [], ◌∷◌, arith, length,
}
use agentlily_runtime.Common.Dict.{
  set, Distinct, set-Distinct, delete-Distinct, length-set, length-delete, delete-oldest,
}
use agentlily_runtime.Common.Value.{Number, nat, not_nat}
use agentlily_runtime.Errors.{ok}
use agentlily_runtime.State.{RuntimeStateStore, init, evict_oldest, put, delete_key, clear}

-- The methods that change the store.
pub data Call {ℓ} (V : Type ℓ) : Type ℓ where
  puts : Text → V → Call V
  deletes : Text → Call V
  clears : Call V

module _ {ℓ} {V : Type ℓ} where
  unfoldable pub step : Call V → RuntimeStateStore V → RuntimeStateStore V
  step (puts k v) s = put k v s
  step (deletes k) s = (delete_key k s).0
  step clears s = clear s

  unfoldable pub run : List (Call V) → RuntimeStateStore V → RuntimeStateStore V
  unfolding step
  run [] s = s
  run (c ∷ cs) s = run cs (step c s)

  -- Keys are distinct, and a capacity other than 0 is kept.
  pub record IsValid (s : RuntimeStateStore V) : Type 0 where
    pub distinct : Distinct s.store
    pub bounded : 0 < s.max_entries → length s.store ≤ s.max_entries

  pub evict_oldest_lem : (k : Text) (v : V) (m : List (Text × V)) → evict_oldest ((k, v) ∷ m) ≡ m
  unfolding evict_oldest
  evict_oldest_lem k v m = delete-oldest k v m

  evict_oldest-Distinct : (m : List (Text × V)) → Distinct m → Distinct (evict_oldest m)
  unfolding evict_oldest
  evict_oldest-Distinct [] d = tt
  evict_oldest-Distinct ((k, v) ∷ m) d = delete-Distinct k ((k, v) ∷ m) d

  length-evict_oldest :
      (m : List (Text × V)) → 0 < length m → length (evict_oldest m) + 1 ≡ length m
  length-evict_oldest [] h = absurd (omega arith)
  length-evict_oldest ((k, v) ∷ m) h = rw (evict_oldest_lem k v m) (omega arith)

  length-set-le : (k : Text) (v : V) (m : List (Text × V)) → length (set k v m) ≤ length m + 1
  length-set-le k v m = ground (arith, length-set k v m)

  put-IsValid : (k : Text) (v : V) (s : RuntimeStateStore V) → IsValid s → IsValid (put k v s)
  unfolding put
  put-IsValid k v s h = record {
    distinct = ground (
      arith,
      set-Distinct k v s.store h.distinct,
      set-Distinct k v (evict_oldest s.store) (evict_oldest-Distinct s.store h.distinct),
    );
    bounded = ground (
      arith,
      h.bounded,
      length-set k v s.store,
      length-set-le k v (evict_oldest s.store),
      length-evict_oldest s.store,
    );
  }

  delete-IsValid : (k : Text) (s : RuntimeStateStore V) → IsValid s → IsValid (delete_key k s).0
  unfolding delete_key
  delete-IsValid k s h = record {
    distinct = delete-Distinct k s.store h.distinct;
    bounded = λ p. omega (arith, length-delete k s.store, h.bounded p);
  }

  step-IsValid : (c : Call V) (s : RuntimeStateStore V) → IsValid s → IsValid (step c s)
  unfolding step clear
  step-IsValid (puts k v) s h = put-IsValid k v s h
  step-IsValid (deletes k) s h = delete-IsValid k s h
  step-IsValid clears s h = record { distinct = tt; bounded = λ p. omega arith }

  run-IsValid_of : (cs : List (Call V)) (s : RuntimeStateStore V) → IsValid s → IsValid (run cs s)
  unfolding run
  run-IsValid_of [] s h = h
  run-IsValid_of (c ∷ cs) s h = run-IsValid_of cs (step c s) (step-IsValid c s h)

  init-IsValid : (n : Option Number) (s : RuntimeStateStore V) → init n ≡ ok s → IsValid s
  unfolding init
  init-IsValid none s e = record { distinct = ground arith; bounded = ground arith }
  init-IsValid (some (nat n)) s e = record { distinct = ground arith; bounded = ground arith }
  init-IsValid (some not_nat) s e = cc

  -- After any history of calls on a store that the constructor returned, no key occurs twice and,
  -- unless the capacity is 0, the store holds at most `maxEntries` entries.
  pub run-IsValid_state :
      (n : Option Number) (cs : List (Call V)) (s : RuntimeStateStore V)
      → init n ≡ ok s
      → IsValid (run cs s)
  run-IsValid_state n cs s e = run-IsValid_of cs s (init-IsValid n s e)
