-- ===== src/Agents.antt =====
-- src/agents/agent-instance-manager.ts: `AgentInstanceManager`. The time at which an instance is
-- created is an argument.
pub mod Laws
pub mod Creation
mod Tests
use agentlily_runtime.Common.{
  Text, ℕ, ◌+◌, Bool, true, false, ◌&&◌, Option, none, some, List, [], ltb, leb, length, get_or,
  if◌then◌else◌,
}
use agentlily_runtime.Common.Dict.{get, has, set, delete, oldest, values}
use agentlily_runtime.Common.Value.{Number, nat, not_nat, str}
use agentlily_runtime.Errors.{Result, ok, err, range_error, ◌>>=◌, ◌>>◌}
use agentlily_runtime.Guards.{assert_non_empty_value}

pub record AgentInstance : Type 0 where
  pub agent_id : Text
  pub created_at : Text

pub record AgentInstanceManager : Type 0 where
  pub instances : List (Text × AgentInstance)
  pub max_instances : ℕ
  pub eviction_count : ℕ

abbrev pub default_max_agent_instances : ℕ
default_max_agent_instances = 5000

unfoldable pub init : Option Number → Result AgentInstanceManager
init max_instances = elim (get_or max_instances (nat default_max_agent_instances)) [
  | nat n ↦ ok (record { instances = []; max_instances = n; eviction_count = 0 })
  | not_nat ↦ err range_error
]

-- The eviction of the oldest instance.
unfoldable pub evict_oldest : AgentInstanceManager → AgentInstanceManager
evict_oldest m = elim (oldest m.instances) [
  | none ↦ m
  | some k ↦ record m { instances = delete k m.instances; eviction_count = m.eviction_count + 1 }
]

-- The eviction that makes room for a new instance.
unfoldable pub make_room : AgentInstanceManager → AgentInstanceManager
unfolding evict_oldest
make_room m =
    if ltb 0 m.max_instances && leb m.max_instances (length m.instances) then evict_oldest m else m

unfoldable pub create : Text → Text → AgentInstanceManager → AgentInstanceManager × AgentInstance
unfolding make_room
create agent_id now m = (
  record (make_room m) {
    instances =
        set agent_id (record { agent_id = agent_id; created_at = now }) (make_room m).instances;
  },
  record { agent_id = agent_id; created_at = now },
)

unfoldable pub get_or_create :
    Text → Text → AgentInstanceManager → Result (AgentInstanceManager × AgentInstance)
unfolding create assert_non_empty_value
get_or_create agent_id now m = do
  assert_non_empty_value (str agent_id)
  ok (elim (get agent_id m.instances) [
    | some existing ↦ (m, existing)
    | none ↦ create agent_id now m
  ])

unfoldable pub get_agent : Text → AgentInstanceManager → Option AgentInstance
get_agent agent_id m = get agent_id m.instances

unfoldable pub has_agent : Text → AgentInstanceManager → Bool
has_agent agent_id m = has agent_id m.instances

unfoldable pub delete_agent : Text → AgentInstanceManager → AgentInstanceManager × Bool
delete_agent agent_id m =
    (record m { instances = delete agent_id m.instances }, has agent_id m.instances)

unfoldable pub clear : AgentInstanceManager → AgentInstanceManager
clear m = record m { instances = [] }

unfoldable pub size : AgentInstanceManager → ℕ
size m = length m.instances

unfoldable pub get_max_instances : AgentInstanceManager → ℕ
get_max_instances m = m.max_instances

unfoldable pub get_eviction_count : AgentInstanceManager → ℕ
get_eviction_count m = m.eviction_count

unfoldable pub list : AgentInstanceManager → List AgentInstance
list m = values m.instances
