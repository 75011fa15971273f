-- ===== src/Policies/ToolPolicy/Tests.antt =====
-- src/policies/tool-policy.ts on a small request.
use agentlily_runtime.Common.{lit, ◌≡◌, refl, ℕ, ◌+◌, ◌↔◌, true, false, none, [], ◌∷◌, ◌++◌}
use agentlily_runtime.Context.{RuntimeContext}
use agentlily_runtime.Errors.{ok}
use agentlily_runtime.Policies.ToolPolicy.{
  ToolPolicyRequest, ToolPolicy, Decision, verdict, allows, all_of,
}
use agentlily_runtime.Policies.ToolPolicy.Laws.{
  AllAllow, done, next, all_of_iff, all_of_first_refusal,
}

abbrev context : RuntimeContext
context = record { runtime_id = lit "r"; task_id = lit "t"; agent = none; now = lit "n" }

abbrev request : ToolPolicyRequest ℕ
request = record { tool_name = lit "echo"; payload = 7; context = context }

-- A policy that counts its calls, and one that refuses.
abbrev counting : ToolPolicy ℕ ℕ
counting q n = (ok (verdict true), n + 1)

abbrev refusing : ToolPolicy ℕ ℕ
refusing q n = (ok (verdict false), n)

all_of_iff_example :
    ((d : Decision) × (all_of (counting ∷ []) request 0 ≡ (ok d, 1)) × (allows d ≡ true))
    ↔ AllAllow request (counting ∷ []) 0 1
all_of_iff_example = all_of_iff request (counting ∷ []) 0 1

all_of_first_refusal_example :
    all_of ((counting ∷ []) ++ refusing ∷ counting ∷ []) request 0 ≡ refusing request 1
unfolding allows
all_of_first_refusal_example =
    all_of_first_refusal request {ps = counting ∷ []} {s = 0} {t = 1} refusing (counting ∷ [])
      (next (verdict true) 1 refl refl done) refl
