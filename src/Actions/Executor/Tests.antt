-- ===== src/Actions/Executor/Tests.antt =====
-- src/actions/action-executor.ts on a small registry and two calls.
use agentlily_runtime.Common.{lit, refl, ℕ, ◌+◌, true, none, some, List, [], ◌∷◌}
use agentlily_runtime.Context.{RuntimeContext}
use agentlily_runtime.Errors.{ok}
use agentlily_runtime.Policies.ToolPolicy.{ToolPolicyRequest, ToolPolicy, verdict}
use agentlily_runtime.Tools.{ToolDefinition, ToolRegistry}
use agentlily_runtime.Actions.Executor.{Budgets, init, Tool, World, execute}
use agentlily_runtime.Actions.Executor.Budget.{Op, calls, resets, run, Agrees, run-Agrees}
use agentlily_runtime.Actions.Executor.Execute.{Outcome, execute-Outcome}

abbrev fresh : Budgets
fresh = record { tool_call_counts = []; max_tool_calls_per_task = some 1; max_tracked_tasks = 2 }

abbrev ops : List Op
ops = calls (lit "t") ∷ calls (lit "t") ∷ resets (lit "t") ∷ calls (lit "t") ∷ []

abbrev context : RuntimeContext
context = record { runtime_id = lit "r"; task_id = lit "t"; agent = none; now = lit "n" }

abbrev request : ToolPolicyRequest ℕ
request = record { tool_name = lit "echo"; payload = 7; context = context }

-- A tool that adds its payload to the state.
abbrev adder : ToolDefinition (Tool ℕ ℕ ℕ)
adder = record { name = lit "echo"; description = []; execute = λ p c s. (ok p, s + p) }

abbrev registry : ToolRegistry (Tool ℕ ℕ ℕ)
registry = record { tools = (lit "echo", adder) ∷ [] }

abbrev allowing : ToolPolicy ℕ ℕ
allowing q s = (ok (verdict true), s)

abbrev world : World ℕ
world = record { budgets = fresh; events = []; state = 0 }

run-Agrees_example : Agrees 1 (run ops (fresh, [])).0 (run ops (fresh, [])).1
unfolding init
run-Agrees_example = run-Agrees 1 2 ops fresh refl

execute-Outcome_example :
    Outcome registry
      (some allowing)
      request
      world
      (execute registry (some allowing) request world).0
      (execute registry (some allowing) request world).1
execute-Outcome_example = execute-Outcome registry (some allowing) request world
