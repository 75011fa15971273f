-- ===== src/Policies/ApprovalPolicy.antt =====
-- src/policies/tool-approval-policy.ts: `ToolApprovalPolicy` over any approval store, whose `consume`
-- gives whether it approves and the reason if not.
pub mod Laws
mod Tests
use agentlily_runtime.Common.{
  Text, lit, Bool, true, false, Option, none, some, List, [], ◌∷◌, ◌++◌, ◌==◌, length, get_or,
  if◌then◌else◌,
}
use agentlily_runtime.Common.Dict.{member}
use agentlily_runtime.Context.{RuntimeContext, ContextAgent}
use agentlily_runtime.Effects.{Action, return, throw, ◌>>=◌}
use agentlily_runtime.Errors.{Result, ok, err, type_error}
use agentlily_runtime.Policies.ToolPolicy.{
  ToolPolicyRequest, ToolPolicy, Decision, verdict, decided, malformed, allows, snapshot,
}
use agentlily_runtime.Policies.ToolApproval.{ToolApprovalConsumeRequest}

abbrev pub ApprovalStore : Type 0 → Type 0 → Type 0
ApprovalStore P S = ToolApprovalConsumeRequest P → Action S (Bool × Option Text)

-- What a base policy that does not allow is answered with: its own refusal, or a general one. It is
-- never asked of a decision that allows.
unfoldable pub base_denial : Decision → Decision
base_denial (verdict false) = verdict false
base_denial (decided false reason) = decided false reason
base_denial (decided true reason) = decided true reason
base_denial (verdict true) = verdict true
base_denial malformed =
    decided false (some (lit "The composed runtime tool policy denied this invocation."))

-- `agent.agentId ?? agent.id ?? ""`; an absent agent throws.
unfoldable pub agent_of : Option ContextAgent → Result Text
agent_of none = err type_error
agent_of (some a) = ok (get_or a.agent_id (get_or a.id []))

abbrev pub missing_agent : Decision
missing_agent = decided false (some (lit "Protected tool invocation is missing an agent identity."))

abbrev pub consumed : Text → Bool × Option Text → Decision
consumed name (true, reason) = decided true none
consumed name (false, reason) =
    decided false (
      some (get_or reason (lit "Tool \"" ++ (name ++ lit "\" requires a current human approval."))))

module _ {P S : Type 0} (store : ApprovalStore P S) where
  -- The invocation that an approval is asked for.
  abbrev pub asked : ToolPolicyRequest P → Text → ToolApprovalConsumeRequest P
  asked q agent_id = record {
    runtime_id = some q.context.runtime_id;
    task_id = q.context.task_id;
    agent_id = agent_id;
    tool_name = q.tool_name;
    payload = q.payload;
  }

  unfoldable pub ask : ToolPolicyRequest P → Result Text → Action S Decision
  ask q (err e) = throw e
  ask q (ok agent_id) =
      let approval = store (asked q agent_id) >>= λ a. return (consumed q.tool_name a) in
      if length agent_id == 0 then return missing_agent else approval

  -- `evaluate` once the base policy has allowed the request.
  unfoldable pub evaluate_protected : List Text → ToolPolicy P S
  unfolding ask agent_of snapshot
  evaluate_protected protected_tools q =
      if member q.tool_name (snapshot protected_tools)
      then ask q (agent_of q.context.agent)
      else return (verdict true)

  unfoldable pub evaluate : Option (ToolPolicy P S) → List Text → ToolPolicy P S
  unfolding evaluate_protected base_denial
  evaluate none protected_tools q = evaluate_protected protected_tools q
  evaluate (some base) protected_tools q = do
    d ← base q
    if allows d then evaluate_protected protected_tools q else return (base_denial d)
