-- ===== src/Tasks/Reconciliation.antt =====
-- src/tasks/task-runner.ts: `reconcileUnknownOutcome` and `parseReconciliationDecision`, with the
-- types of src/tasks/task-outcome-reconciliation.ts. The authority is an argument, as is the
-- time; a claim store that lacks the optional operations of its interface is left out. The
-- evidence that is passed through to the authority is part of the authority here.
pub mod Laws
pub mod Outcomes
use agentlily_runtime.Common.{
  Text, ℕ, ◌-◌, Bool, true, false, ◌&&◌, ◌||◌, not, Option, none, some, List, [], ◌∷◌, leb, text_eq,
  all, length, lit, trim, is_blank, ◌==◌, if◌then◌else◌,
}
use agentlily_runtime.Common.Dict.{member, add, remove}
use agentlily_runtime.Common.Value.{Number, nat, not_nat, str}
use agentlily_runtime.Context.{RuntimeContext, context_agent_id}
use agentlily_runtime.Effects.{Action, return, throw, lift, catch, ◌>>=◌, ◌>>◌}
use agentlily_runtime.Errors.{
  Result, ok, err, Error, runtime_error, range_error, foreign, RuntimeErrorCode, invalid_task,
  task_outcome_unknown, execution_failed, task_reconciliation_conflict,
  task_reconciliation_rejected, task_reconciliation_unavailable,
}
use agentlily_runtime.Errors
use agentlily_runtime.Guards.{assert_non_empty_value}
use agentlily_runtime.Tasks.ClaimStore.{TaskClaimSnapshot, TaskClaimStore}
use agentlily_runtime.Tasks.Runner.{World, stored, unmark}

-- What an authority returns, or that it throws; a field of another type than it should have is
-- `none`, as is a value that is no object.
pub record RawDecision : Type 0 where
  pub confirmed_not_applied : Option Bool
  pub confirmed_quiescent : Option Bool
  pub authority_reference : Option Text
  pub evidence_sha256 : Option Text

pub record ReconciliationDecision : Type 0 where
  pub authority_reference : Text
  pub evidence_sha256 : Text

abbrev pub is_true : Option Bool → Bool
is_true none = false
is_true (some b) = b

-- /^[\x20-\x7e]{1,512}$/
unfoldable pub safe_audit_reference : Text → Bool
safe_audit_reference s =
    leb 1 (length s) && leb (length s) 512 && all (λ c. leb 32 c && leb c 126) s

-- /^[a-f0-9]{64}$/
unfoldable pub sha256_hex : Text → Bool
sha256_hex s =
    length s == 64 && all (λ c. (leb b'a' c && leb c b'f') || (leb b'0' c && leb c b'9')) s

-- The checks of the two texts of a decision.
unfoldable pub parse_texts : Option Text → Option Text → Option ReconciliationDecision
unfolding safe_audit_reference sha256_hex
parse_texts (some reference) (some evidence) =
    if not (safe_audit_reference reference) || is_blank reference || not (sha256_hex evidence)
    then none
    else some (record { authority_reference = trim reference; evidence_sha256 = evidence })
parse_texts _ _ = none

unfoldable pub parse_reconciliation_decision : Option RawDecision → Option ReconciliationDecision
unfolding parse_texts
parse_reconciliation_decision none = none
parse_reconciliation_decision (some d) =
    if not (is_true d.confirmed_not_applied) || not (is_true d.confirmed_quiescent)
    then none
    else parse_texts d.authority_reference d.evidence_sha256

pub record ReconciliationReceipt : Type 0 where
  pub task_id : Text
  pub claim_id : Text
  pub claimed_at : Text
  pub reconciled_at : Text
  pub authority_reference : Text
  pub evidence_sha256 : Text

-- The authority, asked about one claim.
abbrev pub Authority : Type 0
Authority = TaskClaimSnapshot → Result (Option RawDecision)

unfoldable pub required : Option ReconciliationDecision → Result ReconciliationDecision
required none = err (runtime_error task_reconciliation_rejected)
required (some d) = ok d

-- The authority's answer; nothing short of a complete proof is taken.
unfoldable pub decision_of : Result (Option RawDecision) → Result ReconciliationDecision
unfolding required parse_reconciliation_decision
decision_of (ok raw) = required (parse_reconciliation_decision raw)
decision_of (err e) = err (runtime_error task_reconciliation_rejected)

module _ {S : Type 0} (c : TaskClaimStore S) where
  abbrev conflict : Error
  conflict = runtime_error task_reconciliation_conflict

  -- A task whose tool is active here is not reconciled.
  unfoldable pub check_inactive : Text → Action (World S) (Unit {0})
  check_inactive t w = if member t w.active then (err conflict, w) else (ok tt, w)

  -- Why a task has no claim that could be inspected.
  unfoldable pub refuse_unclaimed : Text → Action (World S) TaskClaimSnapshot
  refuse_unclaimed t = do
    legacy ← stored c (c.has t)
    if legacy
        then throw (runtime_error task_reconciliation_unavailable)
        else throw (runtime_error task_reconciliation_rejected)

  unfoldable pub inspect_claim : Text → Action (World S) TaskClaimSnapshot
  unfolding refuse_unclaimed
  inspect_claim t = do
    found ← stored c (c.inspect t)
    elim found [ some claim ↦ return claim | none ↦ refuse_unclaimed t ]

  -- The end of a reconciliation: the claim that was inspected is released if it is still the one.
  unfoldable pub commit_reconciliation :
      (t : Text) → TaskClaimSnapshot → Action (World S) (Unit {0})
  unfolding check_inactive unmark
  commit_reconciliation t claim = do
    check_inactive t
    released ← stored c (c.release_if_matches claim)
    if released then unmark c t else throw conflict

  unfoldable pub reconcile_unknown_outcome :
      Option Authority → (t now : Text) → Action (World S) ReconciliationReceipt
  unfolding assert_non_empty_value check_inactive inspect_claim decision_of commit_reconciliation
  reconcile_unknown_outcome none t now = do
    lift (assert_non_empty_value (str t))
    check_inactive t
    throw (runtime_error task_reconciliation_unavailable)
  reconcile_unknown_outcome (some authority) t now = do
    lift (assert_non_empty_value (str t))
    check_inactive t
    claim ← inspect_claim t
    decision ← lift (decision_of (authority claim))
    commit_reconciliation t claim
    return (record {
      task_id = t;
      claim_id = claim.claim_id;
      claimed_at = claim.claimed_at;
      reconciled_at = now;
      authority_reference = decision.authority_reference;
      evidence_sha256 = decision.evidence_sha256;
    })
