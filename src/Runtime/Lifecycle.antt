-- ===== src/Runtime/Lifecycle.antt =====
-- The end of a runtime, over any history of steps.
use agentlily_runtime.Common.{
  Text, ◌≡◌, refl, subst, sym, ap, true, false, Option, List, [], ◌∷◌, arith,
}
use agentlily_runtime.Common.Value.{Number}
use agentlily_runtime.Errors.{
  Result, ok, err, runtime_error, runtime_already_stopped, runtime_not_started,
}
use agentlily_runtime.Runtime.{
  AgentRuntime, emit, start, check_drain_timeout, stop, finish_stop, check_task, begin_task,
  end_task, release_task,
}
use agentlily_runtime.Runtime.Steps.{
  Task, Call, starts, stops, finishes, begins, ends, releases, step, run,
}

-- A shutdown has begun.
pub record IsStopped (r : AgentRuntime) : Type 0 where
  pub closed : r.is_stopped ≡ true
  pub not_started : r.is_started ≡ false

start-IsStopped :
    (r : AgentRuntime) → IsStopped r → start r ≡ (err (runtime_error runtime_already_stopped), r)
unfolding start
start-IsStopped r h = rw (h.not_started, h.closed, start) refl

begin_task-IsStopped :
    (task : Task) (now : Text) (r : AgentRuntime)
    → IsStopped r
    → begin_task task now r ≡ (err (runtime_error runtime_not_started), r)
unfolding begin_task check_task
begin_task-IsStopped task now r h = rw (h.not_started, begin_task) refl

stop-IsStopped : (d : Option Number) (r : AgentRuntime) → IsStopped r → (stop d r).1 ≡ r
unfolding stop
stop-IsStopped d r h = ground (arith, h.closed, h.not_started)

end_task-IsStopped :
    (task : Task) (result : Result (Unit {0})) (r : AgentRuntime)
    → IsStopped r
    → IsStopped (end_task task result r).1
unfolding end_task emit
end_task-IsStopped task (ok _) r h = record { closed = h.closed; not_started = h.not_started }
end_task-IsStopped task (err e) r h = record { closed = h.closed; not_started = h.not_started }

same-IsStopped : (r r' : AgentRuntime) → r' ≡ r → IsStopped r → IsStopped r'
same-IsStopped r r' e h = subst IsStopped (sym e) h

step-IsStopped : (c : Call) (r : AgentRuntime) → IsStopped r → IsStopped (step c r)
unfolding step finish_stop emit release_task
step-IsStopped starts r h = same-IsStopped r (start r).1 (ap (λ o. o.1) (start-IsStopped r h)) h
step-IsStopped (stops d) r h = same-IsStopped r (stop d r).1 (stop-IsStopped d r h) h
step-IsStopped (finishes d) r h = record { closed = h.closed; not_started = h.not_started }
step-IsStopped (begins task now) r h =
    same-IsStopped r (begin_task task now r).1 (ap (λ o. o.1) (begin_task-IsStopped task now r h)) h
step-IsStopped (ends task result) r h = end_task-IsStopped task result r h
step-IsStopped (releases t p) r h = record {
  closed = ground (arith, h.closed);
  not_started = ground (arith, h.not_started);
}

run-IsStopped : (cs : List Call) (r : AgentRuntime) → IsStopped r → IsStopped (run cs r)
unfolding run
run-IsStopped [] r h = h
run-IsStopped (c ∷ cs) r h = run-IsStopped cs (step c r) (step-IsStopped c r h)

-- A `stop` of a running runtime that returns is final: through any later steps, every `start` throws
-- `RUNTIME_ALREADY_STOPPED`, every task is refused with `RUNTIME_NOT_STARTED`, and neither changes
-- anything.
pub stopped_for_good :
    (drain : Option Number) (r r' : AgentRuntime) (cs : List Call) (task : Task) (now : Text)
    → r.is_started ≡ true
    → r.is_stopped ≡ false
    → r.stop_promise ≡ false
    → stop drain r ≡ (ok tt, r')
    → (start (run cs r') ≡ (err (runtime_error runtime_already_stopped), run cs r'))
      × (begin_task task now (run cs r') ≡ (err (runtime_error runtime_not_started), run cs r'))
unfolding stop
stopped_for_good drain r r' cs task now a b p e =
    let h = run-IsStopped cs r' (closed_by (check_drain_timeout drain) refl) in
    (start-IsStopped (run cs r') h, begin_task-IsStopped task now (run cs r') h)
  where
    closed_by : (v : Result (Unit {0})) → check_drain_timeout drain ≡ v → IsStopped r'
    closed_by (ok _) q = record {
      closed = ground (arith, e, q, a, b, p);
      not_started = ground (arith, e, q, a, b, p);
    }
    closed_by (err x) q = absurd (ground (arith, e, q, a, b, p))
