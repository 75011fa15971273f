-- ===== src/Context.antt =====
-- src/runtime/context.ts: what a task carries to policies and tools. The services that it also
-- holds (memory, model provider, state) are reached by the tools alone and are left out.
use agentlily_runtime.Common.{Text, Option, none, some, get_or, []}

-- The agent as its readers see it: either property may be missing.
pub record ContextAgent : Type 0 where
  pub agent_id : Option Text
  pub id : Option Text

pub record RuntimeContext : Type 0 where
  pub runtime_id : Text
  pub task_id : Text
  pub agent : Option ContextAgent
  pub now : Text

-- `agent?.agentId`
abbrev pub context_agent_id : RuntimeContext → Option Text
context_agent_id c = elim c.agent [ none ↦ none | some a ↦ a.agent_id ]

-- `agent?.agentId ?? agent?.id ?? ""`, in src/actions/action-executor.ts and the approval policies.
unfoldable pub resolve_agent_id : RuntimeContext → Text
resolve_agent_id c = elim c.agent [ none ↦ [] | some a ↦ get_or a.agent_id (get_or a.id []) ]
