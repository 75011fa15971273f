-- ===== src/Actions/Executor/Execute.antt =====
-- When a tool runs: the branches of `execute`.
use agentlily_runtime.Common.{
  Text, ◌≡◌, refl, ap, inl, inr, true, Option, none, some, [], ◌∷◌, ◌++◌, Bool-cases,
}
use agentlily_runtime.Context.{resolve_agent_id}
use agentlily_runtime.Errors.{
  Result, ok, err, Error, Result-cases, runtime_error, tool_policy_denied,
}
use agentlily_runtime.Policies.ToolPolicy.{ToolPolicyRequest, ToolPolicy, Decision, allows}
use agentlily_runtime.Policies.ToolPolicy.Laws.{Allows, Refuses}
use agentlily_runtime.Tools.{ToolDefinition, ToolRegistry, get_tool}
use agentlily_runtime.Actions.Executor.{
  Budgets, ToolEvent, tool_invoked, tool_denied, World, Tool, admit, execute, answer, deny_tool,
  assert_tool_allowed, admit_call, reason_of, failed_reason,
}

-- What the policy said of the request in a state, and the state that it left.
abbrev pub consult :
    {P S : Type 0} → Option (ToolPolicy P S) → ToolPolicyRequest P → S → Result Decision × S
consult none q s = (ok (Decision.verdict true), s)
consult (some p) q s = p q s

assert_tool_allowed_lem :
    {P S : Type 0} (policy : Option (ToolPolicy P S)) (q : ToolPolicyRequest P) (w : World S)
    → assert_tool_allowed policy q w
      ≡ answer q.tool_name q.context
          (consult policy q w.state).0
          (record w { state = (consult policy q w.state).1 })
unfolding assert_tool_allowed allows
assert_tool_allowed_lem none q w = refl
assert_tool_allowed_lem (some p) q w = refl

module _ {P R S : Type 0} (registry : ToolRegistry (Tool P R S)) (policy : Option (ToolPolicy P S))
    (q : ToolPolicyRequest P) where
  abbrev pub invoked : ToolEvent
  invoked =
      tool_invoked q.context.runtime_id q.context.task_id (resolve_agent_id q.context) q.tool_name

  abbrev pub denied : Text → ToolEvent
  denied =
      tool_denied q.context.runtime_id q.context.task_id (resolve_agent_id q.context) q.tool_name

  -- The ways in which `execute` can end, from a world `w`: what is returned or thrown, and the world
  -- after it.
  pub data Outcome (w : World S) (r : Result R) (w' : World S) : Type 0 where
    -- The name is not registered: nothing changes, and the policy is not consulted.
    unknown :
        (e : Error) → get_tool q.tool_name registry ≡ err e → r ≡ err e → w' ≡ w → Outcome w r w'
    -- The policy does not allow the call, or throws: no tool runs and no budget is used.
    refused :
        (reason : Text)
        → Refuses (consult policy q w.state).0
        → r ≡ err (runtime_error tool_policy_denied)
        → w' ≡ record w {
          state = (consult policy q w.state).1;
          events = w.events ++ denied reason ∷ [];
        }
        → Outcome w r w'
    -- The budget is used up: no tool runs, and nothing is emitted.
    over_budget :
        (e : Error)
        → Allows (consult policy q w.state).0
        → admit q.context.task_id w.budgets ≡ err e
        → r ≡ err e
        → w' ≡ record w { state = (consult policy q w.state).1 }
        → Outcome w r w'
    -- The tool runs once, on the state that the policy left, after the call is counted and announced;
    -- what it returns or throws is the outcome.
    ran :
        (tool : ToolDefinition (Tool P R S)) (b : Budgets)
        → get_tool q.tool_name registry ≡ ok tool
        → Allows (consult policy q w.state).0
        → admit q.context.task_id w.budgets ≡ ok b
        → r ≡ (tool.execute q.payload q.context (consult policy q w.state).1).0
        → w' ≡ record {
          budgets = b;
          events = w.events ++ invoked ∷ [];
          state = (tool.execute q.payload q.context (consult policy q w.state).1).1;
        }
        → Outcome w r w'

  module _ (w : World S) where
    -- The world once the policy has answered.
    abbrev asked : World S
    asked = record w { state = (consult policy q w.state).1 }

    execute_unknown :
        (e : Error)
        → get_tool q.tool_name registry ≡ err e
        → execute registry policy q w ≡ (err e, w)
    unfolding execute
    execute_unknown e h = rw h

    module _ (tool : ToolDefinition (Tool P R S))
        (known : get_tool q.tool_name registry ≡ ok tool) where
      execute_refused :
          (reason : Text)
          → answer q.tool_name q.context (consult policy q w.state).0 asked
            ≡ deny_tool q.tool_name q.context reason asked
          → execute registry policy q w ≡ (
            err (runtime_error tool_policy_denied),
            record asked { events = w.events ++ denied reason ∷ [] },
          )
      unfolding execute deny_tool
      execute_refused reason h = rw (known, assert_tool_allowed_lem policy q w, h)

      module _
          (allowed : answer q.tool_name q.context (consult policy q w.state).0 asked
            ≡ (ok tt, asked)) where
        execute_over_budget :
            (e : Error)
            → admit q.context.task_id w.budgets ≡ err e
            → execute registry policy q w ≡ (err e, asked)
        unfolding execute
        execute_over_budget e h =
            rw (known, assert_tool_allowed_lem policy q w, allowed, h, admit_call)

        execute_ran :
            (b : Budgets)
            → admit q.context.task_id w.budgets ≡ ok b
            → execute registry policy q w ≡ (
              (tool.execute q.payload q.context asked.state).0,
              record {
                budgets = b;
                events = w.events ++ invoked ∷ [];
                state = (tool.execute q.payload q.context asked.state).1;
              },
            )
        unfolding execute
        execute_ran b h = rw (known, assert_tool_allowed_lem policy q w, allowed, h, admit_call)

  -- Every run of `execute` ends in one of these ways: a tool runs only if it is registered, the
  -- policy allowed this request and the budget admitted it, and then exactly once.
  pub execute-Outcome :
      (w : World S) → Outcome w (execute registry policy q w).0 (execute registry policy q w).1
  unfolding answer
  execute-Outcome w = elim (Result-cases (get_tool q.tool_name registry)) [
    | inr (e, h) ↦
        unknown e h (ap (λ o. o.0) (execute_unknown w e h)) (ap (λ o. o.1) (execute_unknown w e h))
    | inl (tool, known) ↦ elim (Result-cases (consult policy q w.state).0) [
      | inr (e, threw) ↦
          refused_by tool known (failed_reason q.tool_name) (rw threw tt) (rw (threw, answer))
      | inl (d, said) ↦ elim (Bool-cases (allows d)) [
        | inr no_d ↦
            refused_by tool known (reason_of q.tool_name d) (rw said no_d) (rw (said, answer, no_d))
        | inl yes_d ↦
            let let_through : answer q.tool_name q.context (consult policy q w.state).0 (asked w)
                ≡ (ok tt, asked w) =
              rw (said, answer, yes_d) in
            elim (Result-cases (admit q.context.task_id w.budgets)) [
              | inr (e, over) ↦
                  let same = execute_over_budget w tool known let_through e over in
                  over_budget e (rw said yes_d) over (ap (λ o. o.0) same) (ap (λ o. o.1) same)
              | inl (b, fits) ↦
                  let same = execute_ran w tool known let_through b fits in
                  ran tool b known (rw said yes_d) fits (ap (λ o. o.0) same) (ap (λ o. o.1) same)
            ]
      ]
    ]
  ]
    where
      refused_by :
          (tool : ToolDefinition (Tool P R S))
          → get_tool q.tool_name registry ≡ ok tool
          → (reason : Text) → Refuses (consult policy q w.state).0
          → answer q.tool_name q.context (consult policy q w.state).0 (asked w)
            ≡ deny_tool q.tool_name q.context reason (asked w)
          → Outcome w (execute registry policy q w).0 (execute registry policy q w).1
      refused_by tool known reason r h =
          let same = execute_refused w tool known reason h in
          refused reason r (ap (λ o. o.0) same) (ap (λ o. o.1) same)
