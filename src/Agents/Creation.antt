-- ===== src/Agents/Creation.antt =====
-- What `getOrCreate` returns and keeps, and the count of evictions.
use agentlily_runtime.Common.{
  Text, ◌+◌, ◌≡◌, false, none, some, arith, length, text_eq_refl, is_blank, Bool-cases,
  Option-cases, inl, inr, if◌then◌else◌,
}
use agentlily_runtime.Common.Dict.{get, has, length-set, get-set, get-none, get-has, has-delete_le}
use agentlily_runtime.Errors.{ok}
use agentlily_runtime.Agents.{
  AgentInstance, AgentInstanceManager, make_room, create, get_or_create, get_agent, has_agent, size,
}
use agentlily_runtime.Agents.Laws.{
  IsValid, get-Keyed, make_room-count, make_room_keeps, get_or_create_blank, get_or_create_known,
  get_or_create_new,
}

create_found :
    (id now : Text) (m m' : AgentInstanceManager) (a : AgentInstance)
    → ok (create id now m) ≡ ok (m', a)
    → get id m'.instances ≡ some a
unfolding create
create_found id now m m' a e = ground (
  arith,
  get-set id id (record { agent_id = id; created_at = now }) (make_room m).instances,
  text_eq_refl id,
)

create_id :
    (id now : Text) (m m' : AgentInstanceManager) (a : AgentInstance)
    → ok (create id now m) ≡ ok (m', a)
    → a.agent_id ≡ id
unfolding create
create_id id now m m' a e = ground arith

make_room-new :
    (id : Text) (m : AgentInstanceManager)
    → has id m.instances ≡ false
    → has id (make_room m).instances ≡ false
make_room-new id m h =
    make_room_keeps (λ l. has id l ≡ false) m h (λ k. has-delete_le k id m.instances h)

create-count :
    (id now : Text) (m : AgentInstanceManager)
    → get id m.instances ≡ none
    → length (create id now m).0.instances + (create id now m).0.eviction_count
      ≡ 1 + length m.instances + m.eviction_count
unfolding create
create-count id now m new = ground (
  arith,
  make_room-count m,
  make_room-new id m (get-has id m.instances new),
  length-set id (record { agent_id = id; created_at = now }) (make_room m).instances,
)

-- On a valid manager a `getOrCreate` that returns gives an instance with the identifier that was
-- asked for; from then on that instance is found, and a later `getOrCreate` at any time returns it
-- and changes nothing.
pub get_or_create_lem :
    (id now later : Text) (m m' : AgentInstanceManager) (a : AgentInstance)
    → IsValid m
    → get_or_create id now m ≡ ok (m', a)
    → (a.agent_id ≡ id) × (get_agent id m' ≡ some a) × (get_or_create id later m' ≡ ok (m', a))
unfolding get_agent
get_or_create_lem id now later m m' a h e = elim (Bool-cases (is_blank id)) [
  | inl b ↦ cc (get_or_create_blank id now m b)
  | inr b ↦ elim (Option-cases (get id m.instances)) [
    | inl new ↦
        let made : ok (create id now m) ≡ ok (m', a) = cc (get_or_create_new id now m b new) in
        let found : get id m'.instances ≡ some a = create_found id now m m' a made in
        (create_id id now m m' a made, found, get_or_create_known id later m' b found)
    | inr (old, known) ↦
        let found : get id m'.instances ≡ some a =
          ground (arith, get_or_create_known id now m b known) in
        (
          ground
              (arith, get_or_create_known id now m b known, get-Keyed id m.instances old h.keyed),
          found,
          get_or_create_known id later m' b found,
        )
  ]
]

-- Every instance that is created is kept or counted as evicted: a `getOrCreate` that returns adds
-- one to the number of instances and evictions together if the identifier was new, and else none.
get_or_create-count :
    (id now : Text) (m m' : AgentInstanceManager) (a : AgentInstance)
    → get_or_create id now m ≡ ok (m', a)
    → size m' + m'.eviction_count ≡ (if has_agent id m then 0 else 1) + size m + m.eviction_count
unfolding size has_agent
get_or_create-count id now m m' a e = elim (Bool-cases (is_blank id)) [
  | inl b ↦ cc (get_or_create_blank id now m b)
  | inr b ↦ elim (Option-cases (get id m.instances)) [
    | inl new ↦ ground (
      arith,
      get_or_create_new id now m b new,
      create-count id now m new,
      get-has id m.instances new,
    )
    | inr (old, known) ↦
        ground (arith, get_or_create_known id now m b known, get-none id m.instances)
  ]
]
