-- ===== src/Policies/ApprovalPolicy/Laws.antt =====
-- A protected tool runs only under an approval that the store has just consumed.
use agentlily_runtime.Common.{
  Text, any, text_eq, ◌≡◌, refl, ap, ◌∙◌, Bool, true, false, inl, inr, ◌⊎◌, get_or, Option, none,
  some, List, [], ◌==◌, length, arith, Bool-cases,
}
use agentlily_runtime.Common.Dict.{member}
use agentlily_runtime.Context.{ContextAgent}
use agentlily_runtime.Effects.{Action-cases, continue, return}
use agentlily_runtime.Errors.{Result, ok, err, Error, ok-injective}
use agentlily_runtime.Policies.ToolPolicy.{
  ToolPolicyRequest, ToolPolicy, Decision, verdict, decided, malformed, allows, snapshot,
}
use agentlily_runtime.Policies.ToolPolicy.Laws.{member-snapshot}
use agentlily_runtime.Policies.ApprovalPolicy.{
  ApprovalStore, base_denial, agent_of, consumed, asked, ask, evaluate_protected, evaluate,
}

module _ {P S : Type 0} (store : ApprovalStore P S) (q : ToolPolicyRequest P) where
  -- The identifier of an agent: its `agentId`, or else its `id`.
  abbrev pub IsNamed : Option ContextAgent → Text → Type 0
  IsNamed none agent_id = ⊥
  IsNamed (some a) agent_id =
      (a.agent_id ≡ some agent_id) ⊎ ((a.agent_id ≡ none) × (a.id ≡ some agent_id))

  -- The store approved exactly this invocation, of a named agent, and left `t`.
  pub record Approved (s t : S) : Type 0 where
    pub agent_id : Text
    pub named : IsNamed q.context.agent agent_id
    pub not_empty : (length agent_id == 0) ≡ false
    pub reason : Option Text
    pub approval :
        store
          (record {
            runtime_id = some q.context.runtime_id;
            task_id = q.context.task_id;
            agent_id = agent_id;
            tool_name = q.tool_name;
            payload = q.payload;
          })
          s
        ≡ (ok (true, reason), t)

  choice-IsNamed :
      (a : ContextAgent) (first second : Option Text) (agent_id : Text)
      → a.agent_id ≡ first
      → a.id ≡ second
      → get_or first (get_or second []) ≡ agent_id
      → (length agent_id == 0) ≡ false
      → IsNamed (some a) agent_id
  choice-IsNamed a (some x) second agent_id e f g full = inl (e ∙ ap some g)
  choice-IsNamed a none (some y) agent_id e f g full = inr (e, f ∙ ap some g)
  choice-IsNamed a none none agent_id e f g full = absurd (ground arith)

  agent_of-IsNamed :
      (o : Option ContextAgent) (agent_id : Text)
      → agent_of o ≡ ok agent_id
      → (length agent_id == 0) ≡ false
      → IsNamed o agent_id
  unfolding agent_of
  agent_of-IsNamed none agent_id e full = absurd (ground arith)
  agent_of-IsNamed (some a) agent_id e full =
      choice-IsNamed a a.agent_id a.id agent_id refl refl (ok-injective e) full

  ask-Approved :
      (a : Result Text) (s t : S) (d : Decision)
      → agent_of q.context.agent ≡ a
      → ask store q a s ≡ (ok d, t)
      → allows d ≡ true
      → Approved s t
  unfolding ask allows
  ask-Approved (err x) s t d n e y = absurd (ground arith)
  ask-Approved (ok id) s t d n e y = elim (Bool-cases (length id == 0)) [
    | inl empty ↦ absurd (ground (arith, empty))
    | inr full ↦ answered full (store (asked store q id) s) refl (rw (full, ask) at e)
  ]
    where
      answered :
          (length id == 0) ≡ false
          → (r : Result (Bool × Option Text) × S) → store (asked store q id) s ≡ r
          → continue (λ a. return (consumed q.tool_name a)) (store (asked store q id) s) ≡ (ok d, t)
          → Approved s t
      answered full (err x, u) g f = absurd (ground (arith, rw g at f))
      answered full (ok (false, why), u) g f = absurd (ground (arith, rw g at f))
      answered full (ok (true, why), u) g f = record {
        agent_id = id;
        named = agent_of-IsNamed q.context.agent id n full;
        not_empty = full;
        reason = why;
        approval = g ∙ ap (λ o. (ok (true, why), o.1)) (rw g at f);
      }

  -- The base policy, if there is one, allowed the request from `s` and left `s1`.
  abbrev pub BaseAllows : Option (ToolPolicy P S) → S → S → Type 0
  BaseAllows none s s1 = s1 ≡ s
  BaseAllows (some base) s s1 = (d : Decision) × (base q s ≡ (ok d, s1)) × (allows d ≡ true)

  protected_of :
      (names : List Text) (s t : S) (d : Decision)
      → member q.tool_name (snapshot names) ≡ true
      → evaluate_protected store names q s ≡ (ok d, t)
      → allows d ≡ true
      → Approved s t
  unfolding evaluate_protected
  protected_of names s t d m e y =
      ask-Approved (agent_of q.context.agent) s t d refl (rw (m, evaluate_protected) at e) y

  denial_denies : (d : Decision) → allows d ≡ false → allows (base_denial d) ≡ false
  unfolding allows base_denial
  denial_denies (verdict b) h = ground arith
  denial_denies (decided b r) h = ground arith
  denial_denies malformed h = refl

  -- A tool whose name is among those protected is allowed only if the base policy, if there is one,
  -- allowed the request first, and the store then approved this invocation, with the runtime, task,
  -- tool and payload of the request and the `agentId`, or else the `id`, of its agent, which is not
  -- empty.
  pub protected_needs_approval :
      (base : Option (ToolPolicy P S)) (names : List Text) (s t : S) (d : Decision)
      → any (λ n. text_eq n q.tool_name) names ≡ true
      → evaluate store base names q s ≡ (ok d, t)
      → allows d ≡ true
      → (s1 : S) × BaseAllows base s s1 × Approved s1 t
  unfolding evaluate
  protected_needs_approval none names s t d m e y =
      (s, refl, protected_of names s t d (member-snapshot q.tool_name names ∙ m) e y)
  protected_needs_approval (some base) names s t d m e y = elim (Action-cases (base q s)) [
    | inr (x, u, g) ↦ absurd (threw (rw (g, evaluate) at e))
    | inl (d', u, g) ↦ elim (Bool-cases (allows d')) [
      | inl yes_d ↦ (
        u,
        (d', g, yes_d),
        protected_of names u t d (member-snapshot q.tool_name names ∙ m)
            (rw (g, yes_d, evaluate) at e) y,
      )
      | inr no_d ↦ absurd (denied d' u no_d (rw (g, no_d, evaluate) at e))
    ]
  ]
    where
      threw : {x : Error} {u : S} → ◌≡◌ {A = Result Decision × S} (err x, u) (ok d, t) → ⊥
      threw q' = ground arith

      denied :
          (d' : Decision) (u : S)
          → allows d' ≡ false
          → ◌≡◌ {A = Result Decision × S} (ok (base_denial d'), u) (ok d, t)
          → ⊥
      denied d' u no_d q' = ground (arith, denial_denies d' no_d)
