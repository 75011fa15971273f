-- ===== src/Tasks/Runner/Interleaving.antt =====
-- The runs and reconciliations of one runner, interleaved: a step is what runs between two awaits
-- of the code, with the operation of the store that is awaited.
pub mod Safety
use agentlily_runtime.Common.{
  Text, is_blank, ◌≡◌, refl, subst, Bool, true, false, not, ◌&&◌, ◌||◌, [], arith, text_eq,
  text_eq_iff, text_eq_refl,
}
use agentlily_runtime.Common.Dict.{member, member-add, member-remove}
use agentlily_runtime.Errors.{ok, err, Error, runtime_error, execution_failed}
use agentlily_runtime.Tasks.ClaimStore.{
  Filled, is_empty, text_of, TaskClaimSnapshot, TaskClaimStore, ClaimLaws,
}
use agentlily_runtime.Tasks.Runner.{
  World, mark_unknown, refresh_unknown, take_claim, start_execution, settle, after_failure,
  record_result,
}
use agentlily_runtime.Tasks.Reconciliation.{commit_reconciliation}
use agentlily_runtime.Tasks.Runner.Pieces.{
  Only, Keeps, refresh_unknown-Keeps, Taken, ClaimEnds, take_claim-ClaimEnds, Committed, CommitEnds,
  commit-CommitEnds, after_failure-Only, record_result-Only,
}

-- A set of identifiers that the proof keeps, not the code.
abbrev pub Marks : Type 0
Marks = Text → Bool

abbrev pub put : Text → Marks → Marks
put t m u = text_eq t u || m u

abbrev pub drop : Text → Marks → Marks
drop t m u = not (text_eq t u) && m u

-- The runner, and the tasks by what a run waits for: its tool (`running`) or the append of its
-- result (`saving`); and those whose outcome nobody knows (`doubtful`): the timer fired, the
-- append failed, or the process died.
pub record System (S : Type 0) : Type 0 where
  pub world : World S
  pub running : Marks
  pub saving : Marks
  pub doubtful : Marks

abbrev pub busy : {S : Type 0} → System S → Marks
busy s t = s.running t || s.saving t || s.doubtful t

module _ {S : Type 0} (c : TaskClaimStore S) where
  pub data Step : System S → System S → Type 0 where
    refreshes :
        (t : Text) (s : System S) → Step s (record s { world = (refresh_unknown c t s.world).1 })
    -- The checks of `run` have passed, one of which is that the identifier is not blank.
    starts :
        (t : Text) (now id : Filled) (s : System S) (w : World S)
        → is_blank t ≡ false
        → take_claim c t now id s.world ≡ (ok tt, w)
        → Step s (record s { world = (start_execution c t w).1; running = put t s.running })
    refused :
        (t : Text) (now id : Filled) (s : System S) (e : Error) (w : World S)
        → take_claim c t now id s.world ≡ (err e, w)
        → Step s (record s { world = w })
    resolves :
        (t : Text) (s : System S)
        → s.running t ≡ true
        → Step s (record s {
          world = (settle c t s.world).1;
          running = drop t s.running;
          saving = put t s.saving;
        })
    rejects :
        (t : Text) (e : Error) (s : System S)
        → s.running t ≡ true
        → Step s (record s {
          world = (after_failure c {R = Unit {0}} t e (settle c t s.world).1).1;
          running = drop t s.running;
        })
    -- The timer marks the task and throws, and the handler of `run` then decides on the claim.
    times_out :
        (t : Text) (s : System S)
        → s.running t ≡ true
        → Step s (record s {
          world =
              (after_failure c {R = Unit {0}} t
                (runtime_error execution_failed)
                (mark_unknown c t s.world).1).1;
          running = drop t s.running;
          doubtful = put t s.doubtful;
        })
    settles_late :
        (t : Text) (s : System S)
        → s.running t ≡ false
        → Step s (record s { world = (settle c t s.world).1 })
    saves :
        (t : Text) (s : System S)
        → s.saving t ≡ true
        → Step s
            (record s { world = (record_result c t (ok tt) s.world).1; saving = drop t s.saving })
    save_fails :
        (t : Text) (e : Error) (s : System S)
        → s.saving t ≡ true
        → Step s (record s {
          world = (record_result c t (err e) s.world).1;
          saving = drop t s.saving;
          doubtful = put t s.doubtful;
        })
    -- The runtime refuses to reconcile a task in flight, and one whose result is being saved
    -- is in flight.
    reconciles :
        (r : TaskClaimSnapshot) (s : System S) (w : World S)
        → s.saving r.task_id ≡ false
        → commit_reconciliation c r.task_id r s.world ≡ (ok tt, w)
        → Step s (record s { world = w; doubtful = drop r.task_id s.doubtful })
    conflicts :
        (r : TaskClaimSnapshot) (s : System S) (e : Error) (w : World S)
        → commit_reconciliation c r.task_id r s.world ≡ (err e, w)
        → Step s (record s { world = w })
    -- The process dies, and another opens the same store.
    restarts :
        (s : System S)
        → Step s (record {
          world = record { store = s.world.store; active = []; unknown = [] };
          running = λ u. false;
          saving = λ u. false;
          doubtful = busy s;
        })

  -- Reached from a runner that has just opened a store.
  pub data Reach (from : S) : System S → Type 0 where
    opened : Reach from (record {
      world = record { store = from; active = []; unknown = [] };
      running = λ u. false;
      saving = λ u. false;
      doubtful = λ u. false;
    })
    next : (s s' : System S) → Reach from s → Step s s' → Reach from s'
