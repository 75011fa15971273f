-- ===== src/Tasks/Runner/Branches.antt =====
-- How one `run` ends, over a store that keeps its promises.
use agentlily_runtime.Common.{
  ℕ, Text, ◌≡◌, refl, sym, ap, ◌∙◌, List, Bool, true, false, inl, inr, arith, text_eq, text_eq_refl,
  Bool-cases, is_blank,
}
use agentlily_runtime.Common.Dict.{member, add, remove, member-add}
use agentlily_runtime.Context.{RuntimeContext}
use agentlily_runtime.Effects.{continue, return, ◌>>◌}
use agentlily_runtime.Errors.{Result, ok, err, Error, runtime_error, execution_failed}
use agentlily_runtime.Guards.{assert_non_empty_value}
use agentlily_runtime.Tasks.ClaimStore.{
  Filled, is_empty, TaskClaimSnapshot, TaskClaimStore, ClaimLaws,
}
use agentlily_runtime.Tasks.Runner.{
  RuntimeTask, TaskExecutionResult, World, Settlement, resolved, rejected, timed_out, validate,
  mark_unknown, unmark, refresh_unknown, take_claim, start_execution, settle, execute_with_timeout,
  release_claim_safely, after_failure, record_result, run_claimed, run,
}
use agentlily_runtime.Tasks.Runner.Pieces.{
  Only, Keeps, is_blank-is_empty, refresh_unknown-Keeps, ClaimEnds, take_claim-ClaimEnds,
  after_failure-Only, release-Only,
}

module _ {S : Type 0} (c : TaskClaimStore S) (holds : S → Text → Bool)
    (copies : S → TaskClaimSnapshot → ℕ) (IsSound : S → Type 0)
    (laws : ClaimLaws c holds copies IsSound) where
  -- The fences of all identifiers but `t` stay.
  pub record Others (t : Text) (w w' : World S) : Type 0 where
    pub sound : IsSound w'.store
    pub fences : (u : Text) → text_eq t u ≡ false → holds w'.store u ≡ holds w.store u

  -- The claim is kept and the identifier is marked, so that the task cannot be run again.
  pub record Stuck (t : Text) (w w' : World S) : Type 0 where
    pub others : Others t w w'
    pub held : holds w'.store t ≡ true
    pub marked : member t w'.unknown ≡ true

  module _ {P R : Type 0} (task : RuntimeTask P) (settlement : Settlement R)
      (saved : Result (Unit {0})) where
    abbrev t : Text
    t = task.task_id

    abbrev result_of : R → TaskExecutionResult R
    result_of output = record {
      task_id = task.task_id;
      agent_id = task.agent_id;
      tool_name = task.tool_name;
      output = output;
    }

    -- The ways in which a run that holds the claim can end.
    pub data Ran (w : World S) : Result (TaskExecutionResult R) × World S → Type 0 where
      tool_failed :
          (e : Error) (w' : World S) → settlement ≡ rejected e → Others t w w' → Ran w (err e, w')
      timer_fired :
          (w' : World S)
          → settlement ≡ timed_out
          → Stuck t w w'
          → Ran w (err (runtime_error execution_failed), w')
      not_saved :
          (output : R) (e : Error) (w' : World S)
          → settlement ≡ resolved output
          → saved ≡ err e
          → Stuck t w w'
          → Ran w (err (runtime_error execution_failed), w')
      completed :
          (output : R) (w' : World S)
          → settlement ≡ resolved output
          → saved ≡ ok tt
          → Others t w w'
          → Ran w (ok (result_of output), w')

  release-ok :
      (t : Text) (w : World S)
      → release_claim_safely c t w ≡ (ok tt, (release_claim_safely c t w).1)
  unfolding release_claim_safely mark_unknown unmark
  release-ok t w = go (c.release t w.store) refl
    where
      go :
          (r : Result (Unit {0}) × S)
          → c.release t w.store ≡ r
          → release_claim_safely c t w ≡ (ok tt, (release_claim_safely c t w).1)
      go (ok _, s') e = rw e refl
      go (err x, s') e = rw e refl

  after_failure-err :
      (R : Type 0) (t : Text) (e : Error) (w : World S)
      → after_failure c {R = R} t e w ≡ (err e, (after_failure c {R = R} t e w).1)
  unfolding after_failure
  after_failure-err R t e w = elim (Bool-cases (member t w.unknown)) [
    | inl m ↦ rw (m, after_failure) refl
    | inr m ↦ rw (m, after_failure, release-ok t w) refl
  ]

  now_marked : (t : Text) (l : List Text) → member t (add t l) ≡ true
  now_marked t l = ground (arith, member-add t t l, text_eq_refl t)

  module _ (t : Text) (w : World S) (h : IsSound w.store) where
    Stuck-intro :
        (w' : World S)
        → holds w.store t ≡ true
        → w'.store ≡ w.store
        → member t w'.unknown ≡ true
        → Stuck t w w'
    Stuck-intro w' held e m = record {
      others = record { sound = rw e h; fences = λ u o. rw e refl };
      held = rw e held;
      marked = m;
    }

    others_of :
        (w1 w' : World S)
        → w1.store ≡ w.store
        → Only c holds copies IsSound laws t w1 w'
        → Others t w w'
    others_of w1 w' e k = record {
      sound = k.sound;
      fences = λ u o. k.others u o ∙ ap (λ s. holds s u) e;
    }

  -- The world once the tool has started and settled.
  abbrev settled : Text → World S → World S
  settled t w = record w { active = remove t (add t w.active) }

  module _ {P R : Type 0} (task : RuntimeTask P) (w : World S) where
    rejected_end :
        (e : Error) (saved : Result (Unit {0}))
        → run_claimed c {R = R} task (rejected e) saved w
          ≡ (err e, (after_failure c {R = R} task.task_id e (settled task.task_id w)).1)
    unfolding run_claimed execute_with_timeout start_execution settle
    rejected_end e saved =
        ap
          (continue {A = R} (λ output.
            record_result c task.task_id saved
            >> return (record {
              task_id = task.task_id;
              agent_id = task.agent_id;
              tool_name = task.tool_name;
              output = output;
            })))
          (after_failure-err R task.task_id e (settled task.task_id w))

    timed_out_end :
        (saved : Result (Unit {0}))
        → run_claimed c {R = R} task timed_out saved w ≡ (
          err (runtime_error execution_failed),
          record w { active = add task.task_id w.active; unknown = add task.task_id w.unknown },
        )
    unfolding run_claimed execute_with_timeout start_execution mark_unknown after_failure
    timed_out_end saved = rw (now_marked task.task_id w.unknown, after_failure) refl

    completed_end :
        (r : R)
        → run_claimed c task (resolved r) (ok tt) w ≡ (
          ok (record {
            task_id = task.task_id;
            agent_id = task.agent_id;
            tool_name = task.tool_name;
            output = r;
          }),
          (release_claim_safely c task.task_id (settled task.task_id w)).1,
        )
    unfolding run_claimed execute_with_timeout start_execution settle record_result
    completed_end r =
        ap
          (continue (λ _. return (record {
            task_id = task.task_id;
            agent_id = task.agent_id;
            tool_name = task.tool_name;
            output = r;
          })))
          (release-ok task.task_id (settled task.task_id w))

    run_claimed-Ran :
        (settlement : Settlement R) (saved : Result (Unit {0}))
        → IsSound w.store
        → holds w.store task.task_id ≡ true
        → Ran task settlement saved w (run_claimed c task settlement saved w)
    unfolding run_claimed execute_with_timeout start_execution settle mark_unknown record_result
    run_claimed-Ran (resolved r) (ok _) h held = rw (completed_end r) (
        completed r _ refl refl (
          others_of task.task_id w h (settled task.task_id w) _ refl
            (release-Only c holds copies IsSound laws task.task_id (settled task.task_id w) h)))
    run_claimed-Ran (resolved r) (err e) h held =
        not_saved r e _ refl refl
          (Stuck-intro task.task_id w h _ held refl (now_marked task.task_id w.unknown))
    run_claimed-Ran (rejected e) saved h held = rw (rejected_end e saved) (
        tool_failed e _ refl (
          others_of task.task_id w h (settled task.task_id w) _ refl (
            after_failure-Only c holds copies IsSound laws task.task_id (settled task.task_id w) h R
              e)))
    run_claimed-Ran timed_out saved h held = rw (timed_out_end saved) (
        timer_fired _ refl
          (Stuck-intro task.task_id w h _ held refl (now_marked task.task_id w.unknown)))

  module _ {P R : Type 0} (task : RuntimeTask P) (context : RuntimeContext)
      (settlement : Settlement R) (saved : Result (Unit {0})) where
    -- The ways in which a run can end.
    pub data Ended (w : World S) : Result (TaskExecutionResult R) × World S → Type 0 where
      -- The task or the context is refused; the store is not asked.
      invalid : (e : Error) → validate task context ≡ err e → Ended w (err e, w)
      -- The tool is not called, and all fences are as they were.
      not_started :
          (e : Error) (w' : World S)
          → validate task context ≡ ok tt
          → Keeps c holds copies IsSound laws w w'
          → Ended w (err e, w')
      -- The identifier was free, and its claim is taken before the tool is called.
      started :
          (w1 : World S) (p : Result (TaskExecutionResult R) × World S)
          → validate task context ≡ ok tt
          → holds w.store task.task_id ≡ false
          → holds w1.store task.task_id ≡ true
          → Others task.task_id w w1
          → Ran task settlement saved w1 p
          → Ended w p

    validate-is_empty : validate task context ≡ ok tt → is_empty task.task_id ≡ false
    unfolding validate assert_non_empty_value
    validate-is_empty v = elim (Bool-cases (is_blank task.task_id)) [
      | inl blank ↦ absurd (err-ne-ok (rw (blank, validate, assert_non_empty_value) at v))
      | inr named ↦ is_blank-is_empty task.task_id named
    ]
      where
        err-ne-ok : {e : Error} → ◌≡◌ {A = Result (Unit {0})} (err e) (ok tt) → ⊥
        err-ne-ok h = cc

    run_after_claim :
        (w w0 : World S) (k : Keeps c holds copies IsSound laws w w0)
        (r : Result (Unit {0}) × World S)
        → validate task context ≡ ok tt
        → ClaimEnds c holds copies IsSound laws task.task_id w0 k.sound r
        → Ended w (continue (λ _. run_claimed c task settlement saved) r)
    run_after_claim w w0 k (ok _, w1) v (free, taken) =
        let (now_held, only) = taken (validate-is_empty v) in
        started w1 _ v (sym (k.fences task.task_id) ∙ free) now_held
          (record { sound = only.sound; fences = λ u o. only.others u o ∙ k.fences u })
          (run_claimed-Ran task w1 settlement saved only.sound now_held)
    run_after_claim w w0 k (err e, w1) v k1 = not_started e w1 v (record {
      sound = k1.sound;
      active = k1.active ∙ k.active;
      fences = λ u. k1.fences u ∙ k.fences u;
    })

    run_after_refresh :
        (now id : Filled) (w : World S) (r : Result (Unit {0}) × World S)
        → validate task context ≡ ok tt
        → Keeps c holds copies IsSound laws w r.1
        → Ended w (
            continue
              (λ _. take_claim c task.task_id now id >> run_claimed c task settlement saved)
              r)
    run_after_refresh now id w (ok _, w0) v k =
        run_after_claim w w0 k (take_claim c task.task_id now id w0) v
          (take_claim-ClaimEnds c holds copies IsSound laws task.task_id w0 k.sound now id)
    run_after_refresh now id w (err e, w0) v k = not_started e w0 v k

    -- Over a store that keeps its promises a run ends in one of the ways of `Ended`: a tool is called
    -- only under a claim that was free, and the claim stays when the timer fires or the append fails.
    pub run-Ended :
        (now id : Filled) (w : World S)
        → IsSound w.store
        → Ended w (run c task context now id settlement saved w)
    unfolding run
    run-Ended now id w h = go (validate task context) refl
      where
        go :
            (r : Result (Unit {0}))
            → validate task context ≡ r
            → Ended w (run c task context now id settlement saved w)
        go (ok _) e = rw e (
            run_after_refresh now id w (refresh_unknown c task.task_id w) e
              (refresh_unknown-Keeps c holds copies IsSound laws task.task_id w h))
        go (err x) e = rw e (invalid x e)
