-- ===== src/Actions/Executor.antt =====
-- src/actions/action-executor.ts: `ActionExecutor`. A tool takes its payload and the context,
-- acts on a state `S` and may throw; the policy acts on the same state. Logging is left out.
pub mod Budget
pub mod Execute
mod Tests
use agentlily_runtime.Common.{
  Text, lit, ℕ, zero, suc, ◌+◌, Bool, true, false, ◌&&◌, not, Option, none, some, List, [], ◌∷◌,
  ◌++◌, ltb, leb, length, get_or, is_some, if◌then◌else◌,
}
use agentlily_runtime.Common.Dict.{get, has, set, delete}
use agentlily_runtime.Common.Value.{Number, nat, not_nat}
use agentlily_runtime.Context.{RuntimeContext, resolve_agent_id}
use agentlily_runtime.Effects.{Action, return, throw, lift, ◌>>=◌, ◌>>◌}
use agentlily_runtime.Errors.{
  Result, ok, err, Error, runtime_error, range_error, RuntimeErrorCode, max_tool_calls_exceeded,
  tool_policy_denied,
}
use agentlily_runtime.Errors
use agentlily_runtime.Guards.{assert_max_tool_calls}
use agentlily_runtime.Policies.ToolPolicy.{
  ToolPolicyRequest, ToolPolicy, Decision, verdict, decided, malformed, allows,
}
use agentlily_runtime.Tools.{ToolDefinition, ToolRegistry, get_tool}

-- The two events that the executor emits, without their times.
pub data ToolEvent : Type 0 where
  tool_invoked : (runtime_id task_id agent_id tool_name : Text) → ToolEvent
  tool_denied : (runtime_id task_id agent_id tool_name reason : Text) → ToolEvent

-- The counters and their limits: what the executor decides by.
pub record Budgets : Type 0 where
  pub tool_call_counts : List (Text × ℕ)
  pub max_tool_calls_per_task : Option ℕ
  pub max_tracked_tasks : ℕ

-- The checks of the constructor on its two limits.
unfoldable pub init : Option Number → Number → Result Budgets
init none (nat (suc n)) =
    ok (record { tool_call_counts = []; max_tool_calls_per_task = none; max_tracked_tasks = suc n })
init (some (nat k)) (nat (suc n)) =
    ok (record {
      tool_call_counts = [];
      max_tool_calls_per_task = some k;
      max_tracked_tasks = suc n;
    })
init max_calls max_tracked = err range_error

unfoldable pub get_tool_call_count : Text → Budgets → ℕ
get_tool_call_count task_id b = get_or (get task_id b.tool_call_counts) 0

unfoldable pub reset : Text → Budgets → Budgets
reset task_id b = record b { tool_call_counts = delete task_id b.tool_call_counts }

unfoldable pub reset_all : Budgets → Budgets
reset_all b = record b { tool_call_counts = [] }

-- `while (size >= maxTrackedTasks)`, the oldest entry being the first.
unfoldable pub shrink : ℕ → List (Text × ℕ) → List (Text × ℕ)
shrink limit [] = []
shrink limit ((k, n) ∷ m) =
    let rest = shrink limit m in if leb limit (suc (length m)) then rest else (k, n) ∷ m

unfoldable pub record_tool_call : Text → ℕ → Budgets → Result Budgets
unfolding shrink
record_tool_call task_id count b =
    if has task_id b.tool_call_counts
    then ok (record b { tool_call_counts = set task_id count b.tool_call_counts })
    else if is_some b.max_tool_calls_per_task && leb b.max_tracked_tasks (length b.tool_call_counts)
    then err (runtime_error max_tool_calls_exceeded)
    else ok (record b {
      tool_call_counts = set task_id count (shrink b.max_tracked_tasks b.tool_call_counts);
    })

-- `if (this.maxToolCallsPerTask !== undefined) assertMaxToolCalls(…)`
unfoldable pub check_quota : Text → Budgets → Result (Unit {0})
unfolding get_tool_call_count assert_max_tool_calls
check_quota task_id b = elim b.max_tool_calls_per_task [
  | none ↦ ok tt
  | some max ↦ assert_max_tool_calls (get_tool_call_count task_id b) max
]

-- The part of `execute` between the policy's answer and the tool: it runs without a pause.
unfoldable pub admit : Text → Budgets → Result Budgets
unfolding check_quota record_tool_call get_tool_call_count
admit task_id b =
    Errors.◌>>◌ (check_quota task_id b)
      (record_tool_call task_id (get_tool_call_count task_id b + 1) b)

-- What a tool's `execute` does.
abbrev pub Tool : Type 0 → Type 0 → Type 0 → Type 0
Tool P R S = P → RuntimeContext → Action S R

-- The executor's own state, the events emitted so far and the state that policy and tools act on.
pub record World (S : Type 0) : Type 0 where
  pub budgets : Budgets
  pub events : List ToolEvent
  pub state : S

abbrev pub denied_reason : Text → Text
denied_reason name = lit "Tool \"" ++ (name ++ lit "\" is denied by runtime policy.")

abbrev pub failed_reason : Text → Text
failed_reason name = lit "Tool \"" ++ (name ++ lit "\" denied because policy evaluation failed.")

-- `decision.reason` if it is text, and else the general reason.
abbrev pub reason_of : Text → Decision → Text
reason_of name (decided allowed reason) = get_or reason (denied_reason name)
reason_of name (verdict b) = denied_reason name
reason_of name malformed = denied_reason name

module _ {S : Type 0} where
  unfoldable pub emit : ToolEvent → Action (World S) (Unit {0})
  emit e w = (ok tt, record w { events = w.events ++ e ∷ [] })

  -- An action on the outer state.
  abbrev pub outside : {A : Type 0} → Action S A → Action (World S) A
  outside m w = ((m w.state).0, record w { state = (m w.state).1 })

  unfoldable pub deny_tool : {A : Type 0} → Text → RuntimeContext → Text → Action (World S) A
  unfolding emit
  deny_tool name c reason =
      emit (tool_denied c.runtime_id c.task_id (resolve_agent_id c) name reason)
      >> throw (runtime_error tool_policy_denied)

  -- What follows the policy's evaluation, whether it returned or threw.
  unfoldable pub answer : Text → RuntimeContext → Result Decision → Action (World S) (Unit {0})
  unfolding deny_tool
  answer name c (ok d) = if allows d then return tt else deny_tool name c (reason_of name d)
  answer name c (err e) = deny_tool name c (failed_reason name)

  unfoldable pub assert_tool_allowed :
      {P : Type 0} → Option (ToolPolicy P S) → ToolPolicyRequest P → Action (World S) (Unit {0})
  unfolding answer
  assert_tool_allowed none q w = (ok tt, w)
  assert_tool_allowed (some policy) q w =
      answer q.tool_name q.context (policy q w.state).0 (record w { state = (policy q w.state).1 })

  -- The count is recorded only if the call is admitted.
  unfoldable pub admit_call : Text → Action (World S) (Unit {0})
  unfolding admit
  admit_call task_id w = elim (admit task_id w.budgets) [
    | ok b ↦ (ok tt, record w { budgets = b })
    | err e ↦ (err e, w)
  ]

  unfoldable pub execute :
      {P R : Type 0}
      → ToolRegistry (Tool P R S)
      → Option (ToolPolicy P S)
      → ToolPolicyRequest P
      → Action (World S) R
  unfolding assert_tool_allowed admit_call emit
  execute registry policy q = do
    tool ← lift (get_tool q.tool_name registry)
    assert_tool_allowed policy q
    admit_call q.context.task_id
    emit (
        tool_invoked q.context.runtime_id q.context.task_id (resolve_agent_id q.context)
          q.tool_name)
    outside (tool.execute q.payload q.context)
