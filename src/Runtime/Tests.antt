-- ===== src/Runtime/Tests.antt =====
-- src/runtime/agent-runtime.ts with one task.
use agentlily_runtime.Common.{Text, lit, ◌≡◌, refl, ℕ, true, Option, none, some, List, [], ◌∷◌}
use agentlily_runtime.Errors.{
  err, Error, runtime_error, runtime_already_stopped, runtime_not_started,
}
use agentlily_runtime.Agents.{AgentInstanceManager}
use agentlily_runtime.Actions.Executor.{Budgets}
use agentlily_runtime.Runtime.{AgentRuntime, init, start, stop, begin_task}
use agentlily_runtime.Runtime.Steps.{Task, Call, starts, begins, run}
use agentlily_runtime.Runtime.Reservations.{
  IsConsistent, IsReserved, run-IsConsistent, in_flight_once,
}
use agentlily_runtime.Runtime.Lifecycle.{stopped_for_good}

abbrev agents : AgentInstanceManager
agents = record { instances = []; max_instances = 5; eviction_count = 0 }

abbrev budgets : Budgets
budgets = record { tool_call_counts = []; max_tool_calls_per_task = none; max_tracked_tasks = 9 }

abbrev task : Task
task = record {
  task_id = lit "t";
  agent_id = lit "a";
  tool_name = lit "echo";
  input = lit "i";
  payload = tt;
}

abbrev history : List Call
history = starts ∷ begins task (lit "n") ∷ []

abbrev fresh : AgentRuntime
fresh = init (lit "r") agents budgets

abbrev running : AgentRuntime
running = record fresh { is_started = true }

abbrev closed : AgentRuntime
closed = record fresh { is_stopped = true; stop_promise = true }

run-IsConsistent_example : IsConsistent (run history (init (lit "r") agents budgets))
run-IsConsistent_example = run-IsConsistent (lit "r") agents budgets history

in_flight_once_example :
    IsReserved (lit "t") 0 (run (starts ∷ []) (run history fresh))
    × ((e : Error) × (begin_task task (lit "m") (run (starts ∷ []) (run history fresh))
          ≡ (err e, run (starts ∷ []) (run history fresh))))
unfolding agentlily_runtime.Common.Dict.get run begin_task start agentlily_runtime.Common.is_blank
    agentlily_runtime.Common.text_eq agentlily_runtime.Common.Dict.member
    agentlily_runtime.Common.Dict.set
in_flight_once_example =
    in_flight_once (lit "t") 0 (starts ∷ []) task (lit "m") (run history fresh)
      (run-IsConsistent (lit "r") agents budgets history) refl tt refl

stopped_for_good_example :
    (start (run history closed) ≡ (err (runtime_error runtime_already_stopped), run history closed))
    × (begin_task task (lit "m") (run history closed)
        ≡ (err (runtime_error runtime_not_started), run history closed))
unfolding stop
stopped_for_good_example =
    stopped_for_good none running closed history task (lit "m") refl refl refl refl
