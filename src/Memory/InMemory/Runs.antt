-- ===== src/Memory/InMemory/Runs.antt =====
-- The in-memory store over any history of appends and clears.
use agentlily_runtime.Common.{zero, suc, ◌≡◌, refl, inl, inr, some, List, [], ◌∷◌, arith}
use agentlily_runtime.Common.Dict.{get}
use agentlily_runtime.Common.Value.{Number, nat, not_nat}
use agentlily_runtime.Errors.{Result, ok, err, Result-cases}
use agentlily_runtime.Memory.{MemoryEntry}
use agentlily_runtime.Memory.InMemory.{
  InMemoryMemoryStore, init, append, clear, count_of, size, count_by_agent,
}
use agentlily_runtime.Memory.InMemory.Counts.{IsValid}
use agentlily_runtime.Memory.InMemory.Appends.{append-IsValid}

pub data Call (V : Type 0) : Type 0 where
  appends : MemoryEntry V → Call V
  clears : Call V

module _ {V : Type 0} where
  -- An append that throws leaves the store as it was.
  abbrev after : InMemoryMemoryStore V → Result (InMemoryMemoryStore V) → InMemoryMemoryStore V
  after s (ok s') = s'
  after s (err e) = s

  unfoldable pub step : (V → Result V) → Call V → InMemoryMemoryStore V → InMemoryMemoryStore V
  step clone (appends e) s = after s (append clone e s)
  step clone clears s = clear s

  unfoldable pub run :
      (V → Result V) → List (Call V) → InMemoryMemoryStore V → InMemoryMemoryStore V
  unfolding step
  run clone [] s = s
  run clone (c ∷ cs) s = run clone cs (step clone c s)

  step-IsValid :
      (clone : V → Result V) (c : Call V) (s : InMemoryMemoryStore V)
      → IsValid s
      → IsValid (step clone c s)
  unfolding step
  step-IsValid clone (appends e) s v = elim (Result-cases (append clone e s)) [
    | inl (s', same) ↦ rw same (append-IsValid clone e s s' v same)
    | inr (x, same) ↦ rw same v
  ]
  step-IsValid clone clears s v =
      unfold clear count_by_agent count_of size get in
      record {
        consistent = record { distinct = tt; counted = λ a. refl };
        bounded = omega arith;
        per_agent = λ p a. omega arith;
        positive = v.positive;
      }

  run-IsValid_of :
      (clone : V → Result V) (cs : List (Call V)) (s : InMemoryMemoryStore V)
      → IsValid s
      → IsValid (run clone cs s)
  unfolding run
  run-IsValid_of clone [] s v = v
  run-IsValid_of clone (c ∷ cs) s v =
      run-IsValid_of clone cs (step clone c s) (step-IsValid clone c s v)

  limits-IsValid :
      (max per : Number) (s : InMemoryMemoryStore V) → init (some max) (some per) ≡ ok s → IsValid s
  unfolding init count_by_agent count_of size get
  limits-IsValid (nat (suc n)) (nat k) s e = record {
    consistent = record { distinct = ground arith; counted = λ a. ground arith };
    bounded = ground arith;
    per_agent = λ p a. ground arith;
    positive = ground arith;
  }
  limits-IsValid (nat zero) per s e = cc
  limits-IsValid (nat (suc n)) not_nat s e = cc
  limits-IsValid not_nat per s e = cc

  -- After any history of appends and clears on a store that the constructor returned with given
  -- limits: at most `maxEntries` entries are kept, at most `maxEntriesPerAgent` of each agent
  -- unless that is 0, and `countByAgent` is the number of the agent's entries.
  pub run-IsValid_memory :
      (clone : V → Result V) (max per : Number) (cs : List (Call V)) (s : InMemoryMemoryStore V)
      → init (some max) (some per) ≡ ok s
      → IsValid (run clone cs s)
  run-IsValid_memory clone max per cs s e = run-IsValid_of clone cs s (limits-IsValid max per s e)
