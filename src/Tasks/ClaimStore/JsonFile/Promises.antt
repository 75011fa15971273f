-- ===== src/Tasks/ClaimStore/JsonFile/Promises.antt =====
-- The file store keeps the promises of the interface.
use agentlily_runtime.Common.{
  Text, Bool, true, false, none, some, List, [], ◌∷◌, ◌++◌, any, if◌then◌else◌,
}
use agentlily_runtime.Tasks.ClaimStore.{Filled, text_of, TaskClaimRecord, TaskClaimSnapshot}
use agentlily_runtime.Tasks.ClaimStore.JsonFile.{Plan, answer, write, is_for, others, splice}

abbrev claim_plan : (t : Text) (now id : Filled) → List TaskClaimRecord → Plan Bool
claim_plan t now id claims =
    if any (is_for t) claims
    then answer false
    else write true (
        claims
        ++ record { task_id = t; claimed_at = text_of now; claim_id = some (text_of id) } ∷ [])

abbrev release_plan : Text → List TaskClaimRecord → Plan (Unit {0})
release_plan t claims = if any (is_for t) claims then write tt (others t claims) else answer tt

abbrev matches_plan : TaskClaimSnapshot → List TaskClaimRecord → Plan Bool
matches_plan s claims = elim (splice s claims) [ none ↦ answer false | some rest ↦ write true rest ]
