-- ===== src/Agents/Laws.antt =====
-- The bound on the instances, over any history of calls.
use agentlily_runtime.Common.{
  Text, ◌+◌, ◌≤◌, ◌<◌, ◌≡◌, refl, true, false, Option, none, some, List, [], ◌∷◌, arith, length,
  text_eq_iff, is_blank, Bool-cases, Option-cases, ltb, leb, ◌&&◌, inl, inr,
}
use agentlily_runtime.Common.Dict.{
  get, set, delete, Distinct, set-Distinct, delete-Distinct, length-set, length-delete,
  delete-oldest, oldest,
}
use agentlily_runtime.Common.Value.{Number, nat, not_nat}
use agentlily_runtime.Errors.{Result, ok, err, runtime_error, invalid_task}
use agentlily_runtime.Agents.{
  AgentInstance, AgentInstanceManager, init, evict_oldest, make_room, create, get_or_create,
  delete_agent, clear,
}

-- Every instance stands under its own identifier.
abbrev pub Keyed : List (Text × AgentInstance) → Type 0
Keyed [] = Unit
Keyed ((k, a) ∷ m) = (a.agent_id ≡ k) × Keyed m

pub record IsValid (m : AgentInstanceManager) : Type 0 where
  pub distinct : Distinct m.instances
  pub keyed : Keyed m.instances
  pub bounded : 0 < m.max_instances → length m.instances ≤ m.max_instances

delete-Keyed : (k : Text) (m : List (Text × AgentInstance)) → Keyed m → Keyed (delete k m)
unfolding delete
delete-Keyed k [] h = tt
delete-Keyed k ((j, a) ∷ m) h = ground (arith, delete-Keyed k m h.1)

set-Keyed :
    (k t : Text) (m : List (Text × AgentInstance))
    → Keyed m
    → Keyed (set k (record { agent_id = k; created_at = t }) m)
unfolding set
set-Keyed k t [] h = (refl, tt)
set-Keyed k t ((j, a) ∷ m) h = ground (arith, set-Keyed k t m h.1, text_eq_iff j k)

pub get-Keyed :
    (k : Text) (m : List (Text × AgentInstance)) (a : AgentInstance)
    → Keyed m
    → get k m ≡ some a
    → a.agent_id ≡ k
unfolding get
get-Keyed k [] a h e = cc
get-Keyed k ((j, b) ∷ m) a h e = ground (arith, get-Keyed k m a h.1, text_eq_iff j k)

evict_oldest_lem :
    (m : AgentInstanceManager) (k : Text) (a : AgentInstance) (rest : List (Text × AgentInstance))
    → m.instances ≡ (k, a) ∷ rest
    → evict_oldest m ≡ record m { instances = rest; eviction_count = m.eviction_count + 1 }
unfolding evict_oldest
evict_oldest_lem m k a rest e = ground (arith, delete-oldest k a rest)

evict_oldest-count :
    (m : AgentInstanceManager) (l : List (Text × AgentInstance))
    → m.instances ≡ l
    → length (evict_oldest m).instances + (evict_oldest m).eviction_count
      ≡ length m.instances + m.eviction_count
unfolding evict_oldest
evict_oldest-count m [] e = ground arith
evict_oldest-count m ((k, a) ∷ rest) e = ground (arith, delete-oldest k a rest)

-- Room is made by at most one eviction, which is counted.
pub make_room-count :
    (m : AgentInstanceManager)
    → length (make_room m).instances + (make_room m).eviction_count
      ≡ length m.instances + m.eviction_count
unfolding make_room
make_room-count m = ground (arith, evict_oldest-count m m.instances refl)

evict_oldest-bounded :
    (m : AgentInstanceManager) (l : List (Text × AgentInstance))
    → m.instances ≡ l
    → 0 < length m.instances
    → length (evict_oldest m).instances + 1 ≡ length m.instances
unfolding evict_oldest
evict_oldest-bounded m [] e h = ground arith
evict_oldest-bounded m ((k, a) ∷ rest) e h = ground (arith, delete-oldest k a rest)

make_room-bounded :
    (m : AgentInstanceManager)
    → (0 < m.max_instances → length m.instances ≤ m.max_instances)
    → 0 < m.max_instances
    → length (make_room m).instances < m.max_instances
unfolding make_room
make_room-bounded m h p = ground (arith, h p, evict_oldest-bounded m m.instances refl)

-- The capacity is fixed, and what holds of all instances holds after room is made.
make_room-max : (m : AgentInstanceManager) → (make_room m).max_instances ≡ m.max_instances
unfolding make_room evict_oldest
make_room-max m = ground arith

-- What holds of the instances, whichever one is deleted, holds after room is made.
evict_oldest_keeps :
    (P : List (Text × AgentInstance) → Type 0) (m : AgentInstanceManager)
    → P m.instances
    → ((k : Text) → P (delete k m.instances))
    → P (evict_oldest m).instances
unfolding evict_oldest
evict_oldest_keeps P m h d = elim (Option-cases (oldest m.instances)) [
  | inl e ↦ rw (e, evict_oldest) h
  | inr (k, e) ↦ rw (e, evict_oldest) (d k)
]

pub make_room_keeps :
    (P : List (Text × AgentInstance) → Type 0) (m : AgentInstanceManager)
    → P m.instances
    → ((k : Text) → P (delete k m.instances))
    → P (make_room m).instances
unfolding make_room
make_room_keeps P m h d =
    elim (Bool-cases (ltb 0 m.max_instances && leb m.max_instances (length m.instances))) [
      | inl full ↦ rw (full, make_room) (evict_oldest_keeps P m h d)
      | inr room ↦ rw (room, make_room) h
    ]

create-IsValid :
    (id now : Text) (m : AgentInstanceManager) → IsValid m → IsValid (create id now m).0
unfolding create
create-IsValid id now m h = record {
  distinct =
      set-Distinct id _ (make_room m).instances
        (make_room_keeps Distinct m h.distinct (λ k. delete-Distinct k m.instances h.distinct));
  keyed =
      set-Keyed id now (make_room m).instances
        (make_room_keeps Keyed m h.keyed (λ k. delete-Keyed k m.instances h.keyed));
  bounded = λ p. ground (
    arith,
    make_room-max m,
    make_room-bounded m h.bounded,
    length-set id (record { agent_id = id; created_at = now }) (make_room m).instances,
  );
}

-- The methods that change the manager; a `getOrCreate` that throws changes nothing.
pub data Call : Type 0 where
  get_or_creates : (agent_id now : Text) → Call
  deletes : Text → Call
  clears : Call

abbrev after :
    AgentInstanceManager → Result (AgentInstanceManager × AgentInstance) → AgentInstanceManager
after m (ok (m', a)) = m'
after m (err e) = m

unfoldable pub step : Call → AgentInstanceManager → AgentInstanceManager
step (get_or_creates id now) m = after m (get_or_create id now m)
step (deletes id) m = (delete_agent id m).0
step clears m = clear m

unfoldable pub run : List Call → AgentInstanceManager → AgentInstanceManager
unfolding step
run [] m = m
run (c ∷ cs) m = run cs (step c m)

-- The three branches of `getOrCreate`.
module _ (id now : Text) (m : AgentInstanceManager) where
  pub get_or_create_blank :
      is_blank id ≡ true → get_or_create id now m ≡ err (runtime_error invalid_task)
  unfolding get_or_create
  get_or_create_blank b = rw b

  pub get_or_create_known :
      {a : AgentInstance}
      → is_blank id ≡ false
      → get id m.instances ≡ some a
      → get_or_create id now m ≡ ok (m, a)
  unfolding get_or_create
  get_or_create_known b e = rw (b, e)

  pub get_or_create_new :
      is_blank id ≡ false
      → get id m.instances ≡ none
      → get_or_create id now m ≡ ok (create id now m)
  unfolding get_or_create
  get_or_create_new b e = rw (b, e)

get_or_create-IsValid :
    (id now : Text) (m : AgentInstanceManager)
    → IsValid m
    → IsValid (after m (get_or_create id now m))
get_or_create-IsValid id now m h = elim (Bool-cases (is_blank id)) [
  | inl b ↦ rw (get_or_create_blank id now m b) h
  | inr b ↦ elim (Option-cases (get id m.instances)) [
    | inl e ↦ rw (get_or_create_new id now m b e) (create-IsValid id now m h)
    | inr (a, e) ↦ rw (get_or_create_known id now m b e) h
  ]
]

step-IsValid : (c : Call) (m : AgentInstanceManager) → IsValid m → IsValid (step c m)
unfolding step delete_agent clear
step-IsValid (get_or_creates id now) m h = get_or_create-IsValid id now m h
step-IsValid (deletes id) m h = record {
  distinct = delete-Distinct id m.instances h.distinct;
  keyed = delete-Keyed id m.instances h.keyed;
  bounded = λ p. omega (arith, length-delete id m.instances, h.bounded p);
}
step-IsValid clears m h = record { distinct = tt; keyed = tt; bounded = λ p. omega arith }

run-IsValid_of : (cs : List Call) (m : AgentInstanceManager) → IsValid m → IsValid (run cs m)
unfolding run
run-IsValid_of [] m h = h
run-IsValid_of (c ∷ cs) m h = run-IsValid_of cs (step c m) (step-IsValid c m h)

init-IsValid : (n : Option Number) (m : AgentInstanceManager) → init n ≡ ok m → IsValid m
unfolding init
init-IsValid none m e = record {
  distinct = ground arith;
  keyed = ground arith;
  bounded = ground arith;
}
init-IsValid (some (nat n)) m e = record {
  distinct = ground arith;
  keyed = ground arith;
  bounded = ground arith;
}
init-IsValid (some not_nat) m e = cc

-- After any history of calls on a manager that the constructor returned, no identifier occurs
-- twice, every instance stands under its own identifier and, unless the capacity is 0, at most
-- `maxInstances` instances are kept.
pub run-IsValid_agents :
    (n : Option Number) (cs : List Call) (m : AgentInstanceManager)
    → init n ≡ ok m
    → IsValid (run cs m)
run-IsValid_agents n cs m e = run-IsValid_of cs m (init-IsValid n m e)
