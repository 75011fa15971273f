-- ===== src/Agents/Tests.antt =====
-- src/agents/agent-instance-manager.ts on a small manager.
use agentlily_runtime.Common.{
  Text, lit, ◌≡◌, refl, ℕ, ◌+◌, Option, none, some, List, [], ◌∷◌, if◌then◌else◌,
}
use agentlily_runtime.Common.Value.{nat}
use agentlily_runtime.Errors.{ok}
use agentlily_runtime.Agents.{AgentInstance, AgentInstanceManager, init, get_or_create, get_agent}
use agentlily_runtime.Agents.Laws.{get_or_creates, run, IsValid, run-IsValid_agents}
use agentlily_runtime.Agents.Creation.{get_or_create_lem}

abbrev fresh : AgentInstanceManager
fresh = record { instances = []; max_instances = 1; eviction_count = 0 }

abbrev agent : Text → AgentInstance
agent id = record { agent_id = id; created_at = lit "t" }

abbrev one : AgentInstanceManager
one = record fresh { instances = (lit "a", agent (lit "a")) ∷ [] }

-- The second agent drives the first one out.
abbrev other : AgentInstanceManager
other = record fresh { instances = (lit "b", agent (lit "b")) ∷ []; eviction_count = 1 }

run-IsValid_agents_example : IsValid (run (get_or_creates (lit "a") (lit "t") ∷ []) fresh)
unfolding init
run-IsValid_agents_example =
    run-IsValid_agents (some (nat 1)) (get_or_creates (lit "a") (lit "t") ∷ []) fresh refl

get_or_create_lem_example :
    (lit "b" ≡ lit "b")
    × (get_agent (lit "b") other ≡ some (agent (lit "b")))
    × (get_or_create (lit "b") (lit "u") other ≡ ok (other, agent (lit "b")))
unfolding init run get_or_create agentlily_runtime.Common.is_blank agentlily_runtime.Common.text_eq
    agentlily_runtime.Common.Dict.get agentlily_runtime.Common.Dict.set
    agentlily_runtime.Common.Dict.delete
get_or_create_lem_example =
    get_or_create_lem (lit "b") (lit "t") (lit "u") one other (agent (lit "b"))
      (run-IsValid_agents (some (nat 1)) (get_or_creates (lit "a") (lit "t") ∷ []) fresh refl) refl
