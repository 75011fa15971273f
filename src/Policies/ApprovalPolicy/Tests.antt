-- ===== src/Policies/ApprovalPolicy/Tests.antt =====
-- src/policies/tool-approval-policy.ts: one protected tool, and a store that counts its approvals.
use agentlily_runtime.Common.{
  Text, lit, ◌≡◌, refl, ℕ, ◌+◌, true, false, Option, none, some, List, [], ◌∷◌,
}
use agentlily_runtime.Errors.{ok}
use agentlily_runtime.Policies.ToolPolicy.{ToolPolicyRequest, ToolPolicy, verdict, decided}
use agentlily_runtime.Policies.ApprovalPolicy.{ApprovalStore}
use agentlily_runtime.Policies.ApprovalPolicy.Laws.{Approved, BaseAllows, protected_needs_approval}

abbrev request : ToolPolicyRequest ℕ
request = record {
  tool_name = lit "pay";
  payload = 7;
  context = record {
    runtime_id = lit "r";
    task_id = lit "t";
    agent = some (record { agent_id = some (lit "a"); id = none });
    now = lit "n";
  };
}

abbrev counting : ApprovalStore ℕ ℕ
counting q n = (ok (true, none), n + 1)

abbrev allowing : ToolPolicy ℕ ℕ
allowing q n = (ok (verdict true), n)

protected_needs_approval_example :
    (s1 : ℕ) × BaseAllows counting request (some allowing) 0 s1 × Approved counting request s1 1
unfolding agentlily_runtime.Common.Dict.member agentlily_runtime.Policies.ToolPolicy.snapshot
    agentlily_runtime.Common.Dict.add agentlily_runtime.Common.text_eq
    agentlily_runtime.Policies.ApprovalPolicy.evaluate agentlily_runtime.Policies.ToolPolicy.allows
protected_needs_approval_example =
    protected_needs_approval counting request (some allowing) (lit "pay" ∷ []) 0 1
      (decided true none) refl refl refl
