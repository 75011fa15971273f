-- ===== src/Tasks/Reconciliation/Outcomes.antt =====
-- What a reconciliation needs, over a store that keeps its promises.
use agentlily_runtime.Common.{ℕ, Text, ◌≡◌, Bool, true, false, Option, some, text_eq}
use agentlily_runtime.Common.Dict.{member}
use agentlily_runtime.Errors.{Result, ok, err, Error}
use agentlily_runtime.Tasks.ClaimStore.{TaskClaimSnapshot, TaskClaimStore, ClaimLaws}
use agentlily_runtime.Tasks.Runner.{World}
use agentlily_runtime.Tasks.Reconciliation.{
  RawDecision, ReconciliationDecision, ReconciliationReceipt, Authority,
}
use agentlily_runtime.Tasks.Runner.Pieces.{Keeps}
use agentlily_runtime.Tasks.Reconciliation.Laws.{Proven}

module _ {S : Type 0} (c : TaskClaimStore S) (holds : S → Text → Bool)
    (copies : S → TaskClaimSnapshot → ℕ) (IsSound : S → Type 0)
    (laws : ClaimLaws c holds copies IsSound) where
  -- The ways in which a reconciliation of `t` can end.
  pub data Reconciliation (authority : Option Authority) (t : Text) (w : World S)
      : Result ReconciliationReceipt × World S → Type 0 where
    -- No fence changes.
    refused :
        (e : Error) (w' : World S)
        → Keeps c holds copies IsSound laws w w'
        → Reconciliation authority t w (err e, w')
    -- No tool of the task was active, its claim was held, and the authority gave a complete proof of
    -- that claim; the receipt names both. No other fence changes.
    released :
        (a : Authority) (claim : TaskClaimSnapshot) (raw : RawDecision) (d : ReconciliationDecision)
        (now : Text) (w' : World S)
        → authority ≡ some a
        → member t w.active ≡ false
        → claim.task_id ≡ t
        → holds w.store t ≡ true
        → a claim ≡ ok (some raw)
        → Proven raw d
        → IsSound w'.store
        → ((u : Text) → text_eq t u ≡ false → holds w'.store u ≡ holds w.store u)
        → Reconciliation authority t w (
          ok (record {
            task_id = t;
            claim_id = claim.claim_id;
            claimed_at = claim.claimed_at;
            reconciled_at = now;
            authority_reference = d.authority_reference;
            evidence_sha256 = d.evidence_sha256;
          }),
          w',
        )

  -- What `inspect_claim` finds: a claim of the task, which is held.
  abbrev InspectEnds : Text → World S → Result TaskClaimSnapshot × World S → Type 0
  InspectEnds t w (ok r, w') =
      (r.task_id ≡ t) × (holds w.store t ≡ true) × Keeps c holds copies IsSound laws w w'
  InspectEnds t w (err _, w') = Keeps c holds copies IsSound laws w w'

  module _ (authority : Authority) (t now : Text) (w : World S) where
    abbrev receipt_of : TaskClaimSnapshot → ReconciliationDecision → ReconciliationReceipt
    receipt_of claim d = record {
      task_id = t;
      claim_id = claim.claim_id;
      claimed_at = claim.claimed_at;
      reconciled_at = now;
      authority_reference = d.authority_reference;
      evidence_sha256 = d.evidence_sha256;
    }
