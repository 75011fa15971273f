-- ===== src/Runtime/Reservations.antt =====
-- The reservations of tasks in flight, over any history of steps.
use agentlily_runtime.Common.{
  Text, ℕ, ◌≡◌, refl, true, false, ◌&&◌, ◌⊎◌, inl, inr, some, List, [], ◌∷◌, arith, text_eq,
  text_eq_iff, ◌==◌, Bool-cases,
}
use agentlily_runtime.Common.Dict.{
  get, has, member, Distinct, set-Distinct, delete-Distinct, get-set, has-set, has-delete_ne,
  has-delete_self, get-delete_ne, get-none, member-add, member-remove,
}
use agentlily_runtime.Errors.{Result, ok, err, Error, runtime_error, duplicate_in_flight_task}
use agentlily_runtime.Agents.{AgentInstanceManager}
use agentlily_runtime.Runtime.{
  AgentRuntime, emit, start, stop, finish_stop, check_free, check_task, begin_task, end_task,
  is_promise, release_task,
}
use agentlily_runtime.Actions.Executor.{Budgets}
use agentlily_runtime.Runtime.{init}
use agentlily_runtime.Runtime.Steps.{
  Task, Call, starts, stops, finishes, begins, ends, releases, step, run, Untouched, Reserves,
  begin_task-cases, stop-Untouched, start-Untouched, end_task-Untouched,
}

-- The set of tasks in flight has the keys of the map of their promises.
pub record IsConsistent (r : AgentRuntime) : Type 0 where
  pub distinct : Distinct r.in_flight_promises
  pub agree : (u : Text) → member u r.in_flight_tasks ≡ has u r.in_flight_promises

-- The reservation of a task by a promise.
abbrev pub IsReserved : Text → ℕ → AgentRuntime → Type 0
IsReserved t p r = get t r.in_flight_promises ≡ some p

-- A task that is in flight is refused, whatever else is wrong with the call.
begin_task-duplicate :
    (task : Task) (now : Text) (r : AgentRuntime)
    → member task.task_id r.in_flight_tasks ≡ true
    → (e : Error) × (begin_task task now r ≡ (err e, r))
unfolding begin_task check_free
begin_task-duplicate task now r h = go (check_task task r.is_started) refl
  where
    go :
        (v : Result (Unit {0}))
        → check_task task r.is_started ≡ v
        → (e : Error) × (begin_task task now r ≡ (err e, r))
    go (ok _) q = (runtime_error duplicate_in_flight_task, rw (q, h) refl)
    go (err e) q = (e, rw q refl)

Untouched-IsConsistent : (r r' : AgentRuntime) → Untouched r r' → IsConsistent r → IsConsistent r'
Untouched-IsConsistent r r' s h = record {
  distinct = rw s.promises h.distinct;
  agree = λ u. rw (s.tasks, s.promises) (h.agree u);
}

Reserves-IsConsistent :
    (t : Text) (r r' : AgentRuntime) → Reserves t r r' → IsConsistent r → IsConsistent r'
Reserves-IsConsistent t r r' s h = record {
  distinct = rw s.promises (set-Distinct t r.next_promise r.in_flight_promises h.distinct);
  agree = λ u.
      rw
        (
          s.tasks,
          s.promises,
          member-add t u r.in_flight_tasks,
          has-set t u r.next_promise r.in_flight_promises,
          h.agree u,
        )
        refl;
}

release_task-IsConsistent :
    (t : Text) (p : ℕ) (r : AgentRuntime) → IsConsistent r → IsConsistent (release_task t p r)
unfolding release_task
release_task-IsConsistent t p r h = elim (Bool-cases (is_promise (get t r.in_flight_promises) p)) [
  | inr stale ↦ rw (stale, release_task) (record { distinct = h.distinct; agree = h.agree })
  | inl own ↦
      rw (own, release_task)
        (record {
          distinct = delete-Distinct t r.in_flight_promises h.distinct;
          agree = λ u. ground (
            arith,
            member-remove t u r.in_flight_tasks,
            has-delete_ne t u r.in_flight_promises,
            has-delete_self t r.in_flight_promises h.distinct,
            text_eq_iff t u,
            h.agree u,
          );
        })
]

step-IsConsistent : (c : Call) (r : AgentRuntime) → IsConsistent r → IsConsistent (step c r)
unfolding step finish_stop emit
step-IsConsistent starts r h = Untouched-IsConsistent r _ (start-Untouched r) h
step-IsConsistent (stops d) r h = Untouched-IsConsistent r _ (stop-Untouched d r) h
step-IsConsistent (finishes d) r h = record {
  distinct = tt;
  agree = λ u. unfold member has in refl;
}
step-IsConsistent (begins task now) r h = elim (begin_task-cases task now r) [
  | inl s ↦ Untouched-IsConsistent r _ s h
  | inr s ↦ Reserves-IsConsistent task.task_id r _ s h
]
step-IsConsistent (ends task result) r h =
    Untouched-IsConsistent r _ (end_task-Untouched task result r) h
step-IsConsistent (releases t p) r h = release_task-IsConsistent t p r h

-- No step of the list ends the runtime's custody of the reservation: no shutdown finishes, and this
-- promise is not released.
abbrev pub Spares : Text → ℕ → List Call → Type 0
Spares t p [] = Unit
Spares t p (finishes d ∷ cs) = ⊥
Spares t p (releases u q ∷ cs) = (text_eq u t && (p == q) ≡ false) × Spares t p cs
Spares t p (c ∷ cs) = Spares t p cs

Untouched-IsReserved :
    (t : Text) (p : ℕ) (r r' : AgentRuntime) → Untouched r r' → IsReserved t p r → IsReserved t p r'
Untouched-IsReserved t p r r' s h = rw s.promises h

reserved_member :
    (t : Text) (p : ℕ) (r : AgentRuntime)
    → IsConsistent r
    → IsReserved t p r
    → member t r.in_flight_tasks ≡ true
reserved_member t p r h e = ground (arith, h.agree t, get-none t r.in_flight_promises)

-- A reservation of another task, for the task reserved is not free.
Reserves-IsReserved :
    (t u : Text) (p : ℕ) (r r' : AgentRuntime)
    → IsConsistent r
    → Reserves u r r'
    → IsReserved t p r
    → IsReserved t p r'
Reserves-IsReserved t u p r r' h s e = rw s.promises (
    ground (
      arith,
      get-set u t r.next_promise r.in_flight_promises,
      reserved_member t p r h e,
      s.free,
      text_eq_iff u t,
    ))

release_task-IsReserved :
    (t u : Text) (p q : ℕ) (r : AgentRuntime)
    → (text_eq u t && (p == q)) ≡ false
    → IsReserved t p r
    → IsReserved t p (release_task u q r)
unfolding release_task
release_task-IsReserved t u p q r n e =
    elim (Bool-cases (is_promise (get u r.in_flight_promises) q)) [
      | inr stale ↦ rw (stale, release_task) e
      | inl own ↦
          rw (own, release_task)
            (ground (arith, get-delete_ne u t r.in_flight_promises, text_eq_iff u t, n, e))
    ]

run-IsReserved :
    (t : Text) (p : ℕ) (cs : List Call) (r : AgentRuntime)
    → IsConsistent r
    → IsReserved t p r
    → Spares t p cs
    → IsConsistent (run cs r) × IsReserved t p (run cs r)
unfolding run step
run-IsReserved t p [] r h e s = (h, e)
run-IsReserved t p (starts ∷ cs) r h e s =
    run-IsReserved t p cs (start r).1 (step-IsConsistent starts r h)
      (Untouched-IsReserved t p r _ (start-Untouched r) e) s
run-IsReserved t p (stops d ∷ cs) r h e s =
    run-IsReserved t p cs (stop d r).1 (step-IsConsistent (stops d) r h)
      (Untouched-IsReserved t p r _ (stop-Untouched d r) e) s
run-IsReserved t p (finishes d ∷ cs) r h e s = absurd s
run-IsReserved t p (ends task result ∷ cs) r h e s =
    run-IsReserved t p cs (end_task task result r).1 (step-IsConsistent (ends task result) r h)
      (Untouched-IsReserved t p r _ (end_task-Untouched task result r) e) s
run-IsReserved t p (releases u q ∷ cs) r h e (n, s) =
    run-IsReserved t p cs (release_task u q r) (step-IsConsistent (releases u q) r h)
      (release_task-IsReserved t u p q r n e) s
run-IsReserved t p (begins task now ∷ cs) r h e s =
    run-IsReserved t p cs (begin_task task now r).1 (step-IsConsistent (begins task now) r h)
      (begun (begin_task-cases task now r)) s
  where
    begun :
        Untouched r (begin_task task now r).1 ⊎ Reserves task.task_id r (begin_task task now r).1
        → IsReserved t p (begin_task task now r).1
    begun (inl k) = Untouched-IsReserved t p r _ k e
    begun (inr k) = Reserves-IsReserved t task.task_id p r _ h k e

-- While a shutdown does not finish and the promise of its reservation is not released, a task in
-- flight stays reserved by that promise through any steps of the runtime, and every other attempt to
-- execute a task with its identifier throws and changes nothing.
pub in_flight_once :
    (t : Text) (p : ℕ) (cs : List Call) (task : Task) (now : Text) (r : AgentRuntime)
    → IsConsistent r
    → IsReserved t p r
    → Spares t p cs
    → task.task_id ≡ t
    → IsReserved t p (run cs r)
      × ((e : Error) × (begin_task task now (run cs r) ≡ (err e, run cs r)))
in_flight_once t p cs task now r h e s own =
    let (h', e') = run-IsReserved t p cs r h e s in
    (e', begin_task-duplicate task now (run cs r) (rw own (reserved_member t p (run cs r) h' e')))

init-IsConsistent :
    (id : Text) (agents : AgentInstanceManager) (budgets : Budgets)
    → IsConsistent (init id agents budgets)
unfolding member has
init-IsConsistent id agents budgets = record { distinct = tt; agree = λ u. refl }

run-IsConsistent_of : (cs : List Call) (r : AgentRuntime) → IsConsistent r → IsConsistent (run cs r)
unfolding run
run-IsConsistent_of [] r h = h
run-IsConsistent_of (c ∷ cs) r h = run-IsConsistent_of cs (step c r) (step-IsConsistent c r h)

-- After any steps of a new runtime, the set of tasks in flight has exactly the identifiers that the
-- map of their promises has, each once.
pub run-IsConsistent :
    (id : Text) (agents : AgentInstanceManager) (budgets : Budgets) (cs : List Call)
    → IsConsistent (run cs (init id agents budgets))
run-IsConsistent id agents budgets cs =
    run-IsConsistent_of cs (init id agents budgets) (init-IsConsistent id agents budgets)
