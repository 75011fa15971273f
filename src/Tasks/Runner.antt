-- ===== src/Tasks/Runner.antt =====
-- src/tasks/task-runner.ts: `TaskRunner` over any claim store. The outcome of the tool's promise,
-- of the append to the memory store and of the authority are arguments. What runs between two
-- awaits is one function here; `run` puts them together for an undisturbed run.
pub mod Pieces
pub mod Branches
pub mod Interleaving
pub mod Races
mod Tests
use agentlily_runtime.Common.{
  Text, ℕ, ◌-◌, Bool, true, false, ◌&&◌, ◌||◌, not, Option, none, some, List, [], ◌∷◌, leb, text_eq,
  all, length, lit, trim, is_blank, ◌==◌, if◌then◌else◌,
}
use agentlily_runtime.Common.Dict.{member, add, remove}
use agentlily_runtime.Common.Value.{Number, nat, not_nat, str}
use agentlily_runtime.Context.{RuntimeContext, context_agent_id}
use agentlily_runtime.Effects.{Action, return, throw, lift, catch, ◌>>=◌, ◌>>◌}
use agentlily_runtime.Errors.{
  Result, ok, err, Error, runtime_error, range_error, foreign, RuntimeErrorCode, invalid_task,
  task_outcome_unknown, execution_failed, task_reconciliation_conflict,
  task_reconciliation_rejected, task_reconciliation_unavailable,
}
use agentlily_runtime.Errors
use agentlily_runtime.Guards.{assert_non_empty_value}
use agentlily_runtime.Tasks.ClaimStore.{
  Filled, is_empty, text_of, TaskClaimSnapshot, TaskClaimStore,
}

pub record RuntimeTask (P : Type 0) : Type 0 where
  pub task_id : Text
  pub agent_id : Text
  pub tool_name : Text
  pub input : Text
  pub payload : P

abbrev pub max_timer_delay_ms : ℕ
max_timer_delay_ms = 2147483647

-- The constructor's check of `timeoutMs`.
unfoldable pub init : Option Number → Result (Option ℕ)
init none = ok none
init (some (nat n)) = if leb n max_timer_delay_ms then ok (some n) else err range_error
init (some not_nat) = err range_error

-- The claim store and the runner's two sets of identifiers: those whose tool has not settled
-- (`activeExecutions`), and those whose outcome is unknown (`unknownOutcomeTaskIds`).
pub record World (S : Type 0) : Type 0 where
  pub store : S
  pub active : List Text
  pub unknown : List Text

-- How the tool's promise and the timer end: the value, a rejection, or the timer first.
pub data Settlement (R : Type 0) : Type 0 where
  resolved : R → Settlement R
  rejected : Error → Settlement R
  timed_out : Settlement R

pub record TaskExecutionResult (R : Type 0) : Type 0 where
  pub task_id : Text
  pub agent_id : Text
  pub tool_name : Text
  pub output : R

-- `task.agentId !== contextAgentId`
unfoldable pub same_agent : Text → Option Text → Result (Unit {0})
same_agent agent_id none = err (runtime_error invalid_task)
same_agent agent_id (some other) =
    if text_eq agent_id other then ok tt else err (runtime_error invalid_task)

-- The checks of `run` on the task and the context.
unfoldable pub validate : {P : Type 0} → RuntimeTask P → RuntimeContext → Result (Unit {0})
unfolding assert_non_empty_value same_agent
validate task context = Errors.◌>>◌ (assert_non_empty_value (str task.task_id)) (
    Errors.◌>>◌ (assert_non_empty_value (str task.agent_id)) (
      Errors.◌>>◌ (assert_non_empty_value (str task.tool_name)) (
        Errors.◌>>◌ (assert_non_empty_value (str task.input)) (
          if not (text_eq task.task_id context.task_id)
          then err (runtime_error invalid_task)
          else same_agent task.agent_id (context_agent_id context)))))

module _ {S : Type 0} (c : TaskClaimStore S) where
  -- An operation of the claim store.
  abbrev pub stored : {A : Type 0} → Action S A → Action (World S) A
  stored m w = ((m w.store).0, record w { store = (m w.store).1 })

  unfoldable pub mark_unknown : Text → Action (World S) (Unit {0})
  mark_unknown t w = (ok tt, record w { unknown = add t w.unknown })

  unfoldable pub unmark : Text → Action (World S) (Unit {0})
  unmark t w = (ok tt, record w { unknown = remove t w.unknown })

  -- The local marker is checked against the store before it rejects a run.
  unfoldable pub refresh_unknown : Text → Action (World S) (Unit {0})
  unfolding unmark
  refresh_unknown t w =
      if member t w.unknown
      then (do
        held ← stored (c.has t)
        if held then throw (runtime_error task_outcome_unknown) else unmark t)
          w
      else (ok tt, w)

  unfoldable pub take_claim : (t : Text) (now id : Filled) → Action (World S) (Unit {0})
  unfolding mark_unknown
  take_claim t now id = do
    claimed ← stored (c.claim t now id)
    if claimed then return tt else (mark_unknown t >> throw (runtime_error task_outcome_unknown))

  unfoldable pub release_claim_safely : Text → Action (World S) (Unit {0})
  unfolding mark_unknown unmark
  release_claim_safely t = catch (stored (c.release t) >> unmark t) (λ e. mark_unknown t)

  -- The tool has been started: it is active until its promise settles.
  unfoldable pub start_execution : Text → Action (World S) (Unit {0})
  start_execution t w = (ok tt, record w { active = add t w.active })

  unfoldable pub settle : Text → Action (World S) (Unit {0})
  settle t w = (ok tt, record w { active = remove t w.active })

  -- `executeWithTimeout`; a timer that fires first leaves the tool active.
  unfoldable pub execute_with_timeout : {R : Type 0} → Text → Settlement R → Action (World S) R
  unfolding start_execution settle mark_unknown
  execute_with_timeout t (resolved r) = start_execution t >> (settle t >> return r)
  execute_with_timeout t (rejected e) = start_execution t >> (settle t >> throw e)
  execute_with_timeout t timed_out =
      start_execution t >> (mark_unknown t >> throw (runtime_error execution_failed))

  -- The handler round the execution.
  unfoldable pub after_failure : {R : Type 0} → Text → Error → Action (World S) R
  unfolding release_claim_safely
  after_failure t e w =
      if member t w.unknown then (err e, w) else (release_claim_safely t >> throw e) w

  -- The append to the memory store, and what follows it; `saved` is its outcome.
  unfoldable pub record_result : Text → Result (Unit {0}) → Action (World S) (Unit {0})
  unfolding mark_unknown release_claim_safely
  record_result t (err e) = mark_unknown t >> throw (runtime_error execution_failed)
  record_result t (ok _) = release_claim_safely t

  -- What `run` does once it holds the claim.
  unfoldable pub run_claimed :
      {P R : Type 0}
      → RuntimeTask P
      → Settlement R
      → Result (Unit {0})
      → Action (World S) (TaskExecutionResult R)
  unfolding execute_with_timeout after_failure record_result
  run_claimed task settlement saved = do
    output ← catch (execute_with_timeout task.task_id settlement) (after_failure task.task_id)
    record_result task.task_id saved
    return (record {
      task_id = task.task_id;
      agent_id = task.agent_id;
      tool_name = task.tool_name;
      output = output;
    })

  unfoldable pub run :
      {P R : Type 0}
      → RuntimeTask P
      → RuntimeContext
      → (now id : Filled) → Settlement R
      → Result (Unit {0})
      → Action (World S) (TaskExecutionResult R)
  unfolding refresh_unknown take_claim run_claimed
  run task context now id settlement saved = do
    lift (validate task context)
    refresh_unknown task.task_id
    take_claim task.task_id now id
    run_claimed task settlement saved
