-- ===== src/Policies/ToolPolicy.antt =====
-- src/policies/tool-policy.ts. A policy may act on a state `S` of its own (it may consume an
-- approval) and may throw; a payload is of a type `P` that the caller fixes.
pub mod Laws
mod Tests
use agentlily_runtime.Common.{
  Text, lit, Bool, true, false, Option, none, some, List, [], ◌∷◌, ◌++◌, if◌then◌else◌,
}
use agentlily_runtime.Common.Dict.{member, add}
use agentlily_runtime.Context.{RuntimeContext}
use agentlily_runtime.Effects.{Action, return, ◌>>=◌}
use agentlily_runtime.Errors.{Result, ok, err, range_error}

pub record ToolPolicyRequest (P : Type 0) : Type 0 where
  pub tool_name : Text
  pub payload : P
  pub context : RuntimeContext

-- What `evaluate` gives: a boolean, an object, or a value that is neither.
pub data Decision : Type 0 where
  verdict : Bool → Decision
  decided : (allowed : Bool) → (reason : Option Text) → Decision
  malformed : Decision

abbrev pub ToolPolicy : Type 0 → Type 0 → Type 0
ToolPolicy P S = ToolPolicyRequest P → Action S Decision

-- `decision === true`, or an object with `allowed === true`
unfoldable pub allows : Decision → Bool
allows (verdict b) = b
allows (decided allowed reason) = allowed
allows malformed = false

unfoldable pub add_all : List Text → List Text → List Text
add_all known [] = known
add_all known (name ∷ names) = add_all (add name known) names

-- `new Set(toolNames)`
unfoldable pub snapshot : List Text → List Text
unfolding add_all
snapshot names = add_all [] names

-- `listAllowedTools()`
unfoldable pub list_allowed_tools : List Text → List Text
unfolding snapshot
list_allowed_tools names = snapshot names

unfoldable pub allowlist_denial : Text → Text
allowlist_denial name = lit "Tool \"" ++ (name ++ lit "\" is not in the runtime allowlist.")

module _ {P S : Type 0} where
  -- `ToolAllowlistPolicy`, over the snapshot that its constructor takes.
  unfoldable pub tool_allowlist_policy : List Text → ToolPolicy P S
  unfolding snapshot allowlist_denial
  tool_allowlist_policy names request s =
      if member request.tool_name (snapshot names)
      then (ok (decided true none), s)
      else (ok (decided false (some (allowlist_denial request.tool_name))), s)

  -- The loop of `AllOfToolPolicy.evaluate`.
  unfoldable pub all_of : List (ToolPolicy P S) → ToolPolicy P S
  all_of [] request = return (decided true none)
  all_of (policy ∷ policies) request = do
    decision ← policy request
    let rest = all_of policies request
    if allows decision then rest else return decision

  -- `new AllOfToolPolicy(policies)`
  unfoldable pub all_of_tool_policy : List (ToolPolicy P S) → Result (ToolPolicy P S)
  unfolding all_of
  all_of_tool_policy [] = err range_error
  all_of_tool_policy (p ∷ ps) = ok (all_of (p ∷ ps))
