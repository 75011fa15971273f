-- ===== src/Runtime/Steps.antt =====
-- The steps of a runtime in any order, and what each does to the tasks in flight.
use agentlily_runtime.Common.{
  Text, ℕ, ◌≡◌, refl, Bool, true, false, not, ◌||◌, ◌⊎◌, inl, inr, Option, List, [], ◌∷◌, arith,
}
use agentlily_runtime.Common.Dict.{set, member, add}
use agentlily_runtime.Common.Value.{Number}
use agentlily_runtime.Errors.{Result, ok, err}
use agentlily_runtime.Tasks.Runner.{RuntimeTask}
use agentlily_runtime.Agents.{AgentInstance, AgentInstanceManager, get_or_create}
use agentlily_runtime.Runtime.{
  AgentRuntime, emit, start, check_drain_timeout, stop, finish_stop, resolve_agent, check_free,
  check_task, reserve, begin_task, end_task, release_task,
}

abbrev pub Task : Type 0
Task = RuntimeTask (Unit {0})

pub data Call : Type 0 where
  starts : Call
  stops finishes : Option Number → Call
  begins : Task → (now : Text) → Call
  ends : Task → Result (Unit {0}) → Call
  releases : Text → ℕ → Call

unfoldable pub step : Call → AgentRuntime → AgentRuntime
step starts r = (start r).1
step (stops drain) r = (stop drain r).1
step (finishes drain) r = (finish_stop drain r).1
step (begins task now) r = (begin_task task now r).1
step (ends task result) r = (end_task task result r).1
step (releases t p) r = release_task t p r

unfoldable pub run : List Call → AgentRuntime → AgentRuntime
unfolding step
run [] r = r
run (c ∷ cs) r = run cs (step c r)

-- A step leaves the tasks in flight alone.
pub record Untouched (r r' : AgentRuntime) : Type 0 where
  pub tasks : r'.in_flight_tasks ≡ r.in_flight_tasks
  pub promises : r'.in_flight_promises ≡ r.in_flight_promises

-- A step reserves a task that was free.
pub record Reserves (t : Text) (r r' : AgentRuntime) : Type 0 where
  pub free : member t r.in_flight_tasks ≡ false
  pub tasks : r'.in_flight_tasks ≡ add t r.in_flight_tasks
  pub promises : r'.in_flight_promises ≡ set t r.next_promise r.in_flight_promises

pub begin_task-cases :
    (task : Task) (now : Text) (r : AgentRuntime)
    → Untouched r (begin_task task now r).1 ⊎ Reserves task.task_id r (begin_task task now r).1
unfolding begin_task check_free resolve_agent reserve emit
begin_task-cases task now r =
    go (check_task task r.is_started) refl (member task.task_id r.in_flight_tasks) refl
      (get_or_create task.agent_id now r.agents) refl
  where
    go :
        (v : Result (Unit {0}))
        → check_task task r.is_started ≡ v
        → (b : Bool) → member task.task_id r.in_flight_tasks ≡ b
        → (a : Result (AgentInstanceManager × AgentInstance))
        → get_or_create task.agent_id now r.agents ≡ a
        → Untouched r (begin_task task now r).1 ⊎ Reserves task.task_id r (begin_task task now r).1
    go (err e) q b m a s = rw q (inl (record { tasks = refl; promises = refl }))
    go (ok _) q true m a s = rw (q, m) (inl (record { tasks = refl; promises = refl }))
    go (ok _) q false m (err e) s =
        rw (q, m, s, resolve_agent) (inl (record { tasks = refl; promises = refl }))
    go (ok _) q false m (ok (agents, agent)) s =
        rw (q, m, s, resolve_agent) (inr (record { free = m; tasks = refl; promises = refl }))

pub stop-Untouched : (drain : Option Number) (r : AgentRuntime) → Untouched r (stop drain r).1
unfolding stop
stop-Untouched drain r =
    go (r.stop_promise || not r.is_started || r.is_stopped) refl (check_drain_timeout drain) refl
  where
    go :
        (b : Bool)
        → r.stop_promise || not r.is_started || r.is_stopped ≡ b
        → (v : Result (Unit {0})) → check_drain_timeout drain ≡ v
        → Untouched r (stop drain r).1
    go true q v s = rw q (record { tasks = refl; promises = refl })
    go false q (ok _) s = rw (q, s) (record { tasks = refl; promises = refl })
    go false q (err e) s = rw (q, s) (record { tasks = refl; promises = refl })

pub start-Untouched : (r : AgentRuntime) → Untouched r (start r).1
unfolding start emit
start-Untouched r = record { tasks = ground arith; promises = ground arith }

pub end_task-Untouched :
    (task : Task) (result : Result (Unit {0})) (r : AgentRuntime)
    → Untouched r (end_task task result r).1
unfolding end_task emit
end_task-Untouched task (ok _) r = record { tasks = refl; promises = refl }
end_task-Untouched task (err e) r = record { tasks = refl; promises = refl }
