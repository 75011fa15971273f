-- ===== src/Runtime.antt =====
-- src/runtime/agent-runtime.ts: `AgentRuntime`, by what runs between two awaits: `start`, the two
-- halves of `stop`, and the reservation, the end and the release of a task in `executeTask`. A
-- promise that stands for a task in flight is a number, as only its identity matters. Logging,
-- the listeners of events and the waiting of the drain are left out.
pub mod Steps
pub mod Reservations
pub mod Lifecycle
mod Tests
use agentlily_runtime.Common.{
  Text, ℕ, ◌+◌, Bool, true, false, not, ◌&&◌, ◌||◌, Option, none, some, List, [], ◌∷◌, ◌++◌, leb,
  ◌==◌, length, if◌then◌else◌,
}
use agentlily_runtime.Common.Dict.{get, set, delete, member, add, remove}
use agentlily_runtime.Common.Value.{Number, nat, not_nat, str}
use agentlily_runtime.Context.{RuntimeContext}
use agentlily_runtime.Effects.{Action, return, throw, lift, ◌>>=◌, ◌>>◌}
use agentlily_runtime.Errors.{
  Result, ok, err, runtime_error, range_error, RuntimeErrorCode, runtime_already_started,
  runtime_already_stopped, duplicate_in_flight_task, task_reconciliation_conflict,
}
use agentlily_runtime.Errors
use agentlily_runtime.Guards.{assert_runtime_started, assert_non_empty_value}
use agentlily_runtime.Agents.{AgentInstanceManager, get_or_create}
use agentlily_runtime.Actions.Executor.{Budgets, reset}
use agentlily_runtime.Tasks.Runner.{RuntimeTask}

-- The events of the runtime itself, without times and durations.
pub data LifecycleEvent : Type 0 where
  started : LifecycleEvent
  stopped : (stranded : List Text) → LifecycleEvent
  task_received task_failed : (task_id agent_id : Text) → LifecycleEvent
  task_completed : (task_id agent_id tool_name : Text) → LifecycleEvent

pub record AgentRuntime : Type 0 where
  pub runtime_id : Text
  pub in_flight_tasks : List Text
  pub in_flight_promises : List (Text × ℕ)
  pub next_promise : ℕ
  pub is_started : Bool
  pub is_stopped : Bool
  pub stop_promise : Bool
  pub agents : AgentInstanceManager
  pub budgets : Budgets
  pub events : List LifecycleEvent

abbrev pub max_timer_delay_ms : ℕ
max_timer_delay_ms = 2147483647

abbrev pub init : Text → AgentInstanceManager → Budgets → AgentRuntime
init id agents budgets = record {
  runtime_id = id;
  in_flight_tasks = [];
  in_flight_promises = [];
  next_promise = 0;
  is_started = false;
  is_stopped = false;
  stop_promise = false;
  agents = agents;
  budgets = budgets;
  events = [];
}

unfoldable pub emit : LifecycleEvent → Action AgentRuntime (Unit {0})
emit e r = (ok tt, record r { events = r.events ++ e ∷ [] })

unfoldable pub start : Action AgentRuntime (Unit {0})
unfolding emit
start r =
    if r.is_started
    then (err (runtime_error runtime_already_started), r)
    else if r.is_stopped
    then (err (runtime_error runtime_already_stopped), r)
    else emit started (record r { is_started = true })

-- An absent timeout, or an integer within the platform's bound.
unfoldable pub check_drain_timeout : Option Number → Result (Unit {0})
check_drain_timeout none = ok tt
check_drain_timeout (some (nat n)) = if leb n max_timer_delay_ms then ok tt else err range_error
check_drain_timeout (some not_nat) = err range_error

-- `stop` up to the drain. A second call joins the first.
unfoldable pub stop : Option Number → Action AgentRuntime (Unit {0})
unfolding check_drain_timeout
stop drain_timeout r =
    let closed = record r { is_stopped = true; is_started = false; stop_promise = true } in
    if r.stop_promise || not r.is_started || r.is_stopped
    then (ok tt, r)
    else elim (check_drain_timeout drain_timeout) [ ok _ ↦ (ok tt, closed) | err e ↦ (err e, r) ]

abbrev pub stranded_by : Option Number → List Text → List Text
stranded_by none tasks = []
stranded_by (some n) tasks = tasks

-- `finishStop` after the drain.
unfoldable pub finish_stop : Option Number → Action AgentRuntime (Unit {0})
unfolding emit
finish_stop drain_timeout r =
    emit (stopped (stranded_by drain_timeout r.in_flight_tasks))
      (record r { in_flight_tasks = []; in_flight_promises = [] })

-- The promise that a task in flight is known by, and the context that it runs with.
pub record Reservation : Type 0 where
  pub promise : ℕ
  pub context : RuntimeContext

-- `getOrCreate` of the runtime's manager.
unfoldable pub resolve_agent : (agent_id now : Text) → Action AgentRuntime Text
unfolding get_or_create
resolve_agent agent_id now r = elim (get_or_create agent_id now r.agents) [
  | ok (agents, agent) ↦ (ok agent.agent_id, record r { agents = agents })
  | err e ↦ (err e, r)
]

unfoldable pub check_free : Text → Action AgentRuntime (Unit {0})
check_free task_id r =
    if member task_id r.in_flight_tasks
    then (err (runtime_error duplicate_in_flight_task), r)
    else (ok tt, r)

-- The checks on the runtime and on the task's texts, in the order of the code.
unfoldable pub check_task : {P : Type 0} → RuntimeTask P → Bool → Result (Unit {0})
unfolding assert_runtime_started assert_non_empty_value
check_task task is_started = Errors.◌>>◌ (assert_runtime_started is_started) (
    Errors.◌>>◌ (assert_non_empty_value (str task.task_id)) (
      Errors.◌>>◌ (assert_non_empty_value (str task.agent_id)) (
        Errors.◌>>◌ (assert_non_empty_value (str task.tool_name))
          (assert_non_empty_value (str task.input)))))

unfoldable pub reserve : (task_id now agent_id : Text) → Action AgentRuntime Reservation
reserve task_id now agent_id r = (
  ok (record {
    promise = r.next_promise;
    context = record {
      runtime_id = r.runtime_id;
      task_id = task_id;
      agent = some (record { agent_id = some agent_id; id = none });
      now = now;
    };
  }),
  record r {
    in_flight_tasks = add task_id r.in_flight_tasks;
    in_flight_promises = set task_id r.next_promise r.in_flight_promises;
    next_promise = r.next_promise + 1;
  },
)

-- `executeTask` up to the runner.
unfoldable pub begin_task :
    {P : Type 0} → RuntimeTask P → (now : Text) → Action AgentRuntime Reservation
unfolding check_task check_free resolve_agent reserve emit
begin_task task now = do
  (λ r. (check_task task r.is_started, r))
  check_free task.task_id
  agent_id ← resolve_agent task.agent_id now
  reservation ← reserve task.task_id now agent_id
  emit (task_received task.task_id task.agent_id)
  return reservation

-- What follows the runner, whose result it passes on.
unfoldable pub end_task : {P A : Type 0} → RuntimeTask P → Result A → Action AgentRuntime A
unfolding emit
end_task task (ok a) = emit (task_completed task.task_id task.agent_id task.tool_name) >> return a
end_task task (err e) = emit (task_failed task.task_id task.agent_id) >> throw e

abbrev pub is_promise : Option ℕ → ℕ → Bool
is_promise none p = false
is_promise (some q) p = q == p

-- `releaseTask`, once the tool has settled: only the reservation of this promise is given up.
unfoldable pub release_task : Text → ℕ → AgentRuntime → AgentRuntime
release_task task_id promise r =
    let budgets = reset task_id r.budgets in
    if is_promise (get task_id r.in_flight_promises) promise
    then record r {
      budgets = budgets;
      in_flight_tasks = remove task_id r.in_flight_tasks;
      in_flight_promises = delete task_id r.in_flight_promises;
    }
    else record r { budgets = budgets }

-- The checks of `reconcileUnknownOutcome` in front of the runner's.
unfoldable pub check_reconcilable : Text → Action AgentRuntime (Unit {0})
unfolding assert_runtime_started assert_non_empty_value
check_reconcilable task_id r =
    elim (Errors.◌>>◌ (assert_runtime_started r.is_started)
      (assert_non_empty_value (str task_id))) [
        | err e ↦ (err e, r)
        | ok _ ↦
            if member task_id r.in_flight_tasks
            then (err (runtime_error task_reconciliation_conflict), r)
            else (ok tt, r)
      ]
