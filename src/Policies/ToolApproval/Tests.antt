-- ===== src/Policies/ToolApproval/Tests.antt =====
-- src/policies/tool-approval-policy.ts with one approval.
use agentlily_runtime.Common.{
  Text, lit, ◌≡◌, refl, ℕ, true, false, Option, none, some, List, [], ◌∷◌,
}
use agentlily_runtime.Errors.{Result, ok}
use agentlily_runtime.Policies.ToolApproval.{
  ToolApprovalRecord, ToolApprovalConsumeRequest, ToolApprovalStore, get_approval, consume,
}
use agentlily_runtime.Policies.ToolApproval.Laws.{Consumes, consume-Consumes}
use agentlily_runtime.Policies.ToolApproval.Spent.{Call, consumes, revokes, run, spent_for_good}

-- A digest, a clock of one instant, and its text.
abbrev digest : ℕ → Result Text
digest n = ok (n ∷ [])

abbrev instant : Text → Result ℕ
instant t = ok 5

abbrev iso : ℕ → Text
iso n = n ∷ []

abbrev granted : ToolApprovalRecord
granted = record {
  approval_id = lit "k";
  runtime_id = lit "r";
  task_id = lit "t";
  agent_id = lit "a";
  tool_name = lit "pay";
  payload_digest = 7 ∷ [];
  granted_at = 1 ∷ [];
  expires_at = some (lit "e");
  consumed_at = none;
  revoked_at = none;
}

abbrev spent : ToolApprovalRecord
spent = record granted { consumed_at = some (2 ∷ []) }

abbrev store : ToolApprovalStore
store = record { approvals = (lit "k", granted) ∷ []; runtime_id = lit "r" }

abbrev emptied : ToolApprovalStore
emptied = record store { approvals = (lit "k", spent) ∷ [] }

abbrev request : ToolApprovalConsumeRequest ℕ
request = record {
  runtime_id = some (lit "r");
  task_id = lit "t";
  agent_id = lit "a";
  tool_name = lit "pay";
  payload = 7;
}

abbrev history : List (Call ℕ)
history = consumes request (some 3) ∷ revokes (lit "k") (some 4) ∷ []

consume-Consumes_example : Consumes digest instant iso request 2 store spent emptied
unfolding agentlily_runtime.Common.Dict.has consume agentlily_runtime.Common.is_blank
    agentlily_runtime.Common.text_eq agentlily_runtime.Common.Dict.set
consume-Consumes_example =
    consume-Consumes digest instant iso request 2 store spent emptied (refl, tt) refl

spent_for_good_example :
    get_approval digest instant iso (lit "k") (run digest instant iso history emptied) ≡ some spent
unfolding agentlily_runtime.Common.Dict.has get_approval agentlily_runtime.Common.Dict.get
    agentlily_runtime.Common.text_eq
spent_for_good_example =
    spent_for_good digest instant iso history emptied (lit "k") spent (refl, tt) refl refl
