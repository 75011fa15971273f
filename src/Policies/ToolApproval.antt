-- ===== src/Policies/ToolApproval.antt =====
-- src/policies/tool-approval-policy.ts: `InMemoryToolApprovalStore`. The digest of a payload, which
-- can throw, and the platform's dates are arguments: `instant` parses a canonical instant, `iso`
-- prints one. A time is its milliseconds, or none for an invalid date.
pub mod Laws
pub mod Spent
mod Tests
use agentlily_runtime.Common.{
  Text, ℕ, Bool, true, false, not, ◌&&◌, ◌||◌, Option, none, some, List, [], ◌∷◌, leb, ltb, text_eq,
  is_some, is_blank, get_or, if◌then◌else◌,
}
use agentlily_runtime.Common.Dict.{get, has, set}
use agentlily_runtime.Errors.{Result, ok, err, range_error, type_error, ◌>>=◌, ◌>>◌}

pub record ToolApprovalGrantRequest (P : Type 0) : Type 0 where
  pub approval_id : Option Text
  pub task_id : Text
  pub agent_id : Text
  pub tool_name : Text
  pub payload : P
  pub expires_at : Option Text

pub record ToolApprovalRecord : Type 0 where
  pub approval_id : Text
  pub runtime_id : Text
  pub task_id : Text
  pub agent_id : Text
  pub tool_name : Text
  pub payload_digest : Text
  pub granted_at : Text
  pub expires_at : Option Text
  pub consumed_at : Option Text
  pub revoked_at : Option Text

pub record ToolApprovalConsumeRequest (P : Type 0) : Type 0 where
  pub runtime_id : Option Text
  pub task_id : Text
  pub agent_id : Text
  pub tool_name : Text
  pub payload : P

-- A refusal, without its reason, or the record that was consumed.
pub data ConsumeDecision : Type 0 where
  refused : ConsumeDecision
  approved : ToolApprovalRecord → ConsumeDecision

pub record ToolApprovalStore : Type 0 where
  pub approvals : List (Text × ToolApprovalRecord)
  pub runtime_id : Text

unfoldable pub require_non_empty : Text → Result (Unit {0})
require_non_empty value = if is_blank value then err type_error else ok tt

unfoldable pub init : Text → Result ToolApprovalStore
unfolding require_non_empty
init runtime_id = do
  require_non_empty runtime_id
  ok (record { approvals = []; runtime_id = runtime_id })

unfoldable pub check_new : Text → ToolApprovalStore → Result (Unit {0})
check_new id s = if has id s.approvals then err range_error else ok tt

module _ {P : Type 0} (digest : P → Result Text) (instant : Text → Result ℕ) (iso : ℕ → Text) where
  -- The expiry of a grant is later than the grant.
  unfoldable pub check_expiry : Option Text → ℕ → Result (Unit {0})
  check_expiry none now = ok tt
  check_expiry (some at) now = instant at >>= λ t. if leb t now then err range_error else ok tt

  -- `now.toISOString()`
  abbrev pub valid_time : Option ℕ → Result ℕ
  valid_time none = err range_error
  valid_time (some now) = ok now

  -- `fresh` is the identity that the platform makes when the request has none.
  unfoldable pub approve :
      ToolApprovalGrantRequest P
      → (fresh : Text) → (now : Option ℕ) → ToolApprovalStore
      → Result (ToolApprovalStore × ToolApprovalRecord)
  unfolding require_non_empty check_new check_expiry
  approve q fresh now s =
      let id = get_or q.approval_id fresh in
      require_non_empty q.task_id
      >> (require_non_empty q.agent_id
          >> (require_non_empty q.tool_name
              >> ((if is_some q.approval_id then require_non_empty id else ok tt)
                  >> (check_new id s
                      >> (valid_time now >>= λ t.
                          check_expiry q.expires_at t
                          >> (digest q.payload >>= λ d.
                              let made : ToolApprovalRecord = record {
                                approval_id = id;
                                runtime_id = s.runtime_id;
                                task_id = q.task_id;
                                agent_id = q.agent_id;
                                tool_name = q.tool_name;
                                payload_digest = d;
                                granted_at = iso t;
                                expires_at = q.expires_at;
                                consumed_at = none;
                                revoked_at = none;
                              } in
                              ok (record s { approvals = set id made s.approvals }, made)))))))

  -- A record that is spent is not revoked.
  unfoldable pub revoke :
      Text → (now : Option ℕ) → ToolApprovalStore → Result (ToolApprovalStore × Bool)
  unfolding require_non_empty
  revoke id now s = require_non_empty id >> elim (get id s.approvals) [
    | none ↦ ok (s, false)
    | some r ↦
        if is_some r.consumed_at || is_some r.revoked_at
        then ok (s, false)
        else (valid_time now >>= λ t. ok (
          record s { approvals = set id (record r { revoked_at = some (iso t) }) s.approvals },
          true,
        ))
  ]

  unfoldable pub get_approval : Text → ToolApprovalStore → Option ToolApprovalRecord
  get_approval id s = get id s.approvals

  -- The record is for this invocation, and neither consumed nor revoked.
  unfoldable pub is_match : ToolApprovalConsumeRequest P → Text → Text → ToolApprovalRecord → Bool
  is_match q runtime_id d r =
      text_eq r.runtime_id runtime_id
      && text_eq r.task_id q.task_id
      && text_eq r.agent_id q.agent_id
      && text_eq r.tool_name q.tool_name
      && text_eq r.payload_digest d
      && not (is_some r.consumed_at)
      && not (is_some r.revoked_at)

  unfoldable pub is_current : ToolApprovalRecord → ℕ → Result Bool
  is_current r now = elim r.expires_at [
    | none ↦ ok true
    | some at ↦ instant at >>= λ t. ok (ltb now t)
  ]

  -- The loop of `consume`, up to the record that it takes.
  unfoldable pub first_valid :
      ToolApprovalConsumeRequest P
      → Text
      → Text
      → ℕ
      → List (Text × ToolApprovalRecord)
      → Result (Option (Text × ToolApprovalRecord))
  unfolding is_match is_current
  first_valid q runtime_id d now [] = ok none
  first_valid q runtime_id d now ((k, r) ∷ m) =
      let rest = first_valid q runtime_id d now m in
      if is_match q runtime_id d r
      then (is_current r now >>= λ c. if c then ok (some (k, r)) else rest)
      else rest

  -- The record is marked in place.
  unfoldable pub take_approval :
      ℕ
      → Option (Text × ToolApprovalRecord)
      → ToolApprovalStore
      → ToolApprovalStore × ConsumeDecision
  take_approval now none s = (s, refused)
  take_approval now (some (k, r)) s = (
    record s { approvals = set k (record r { consumed_at = some (iso now) }) s.approvals },
    approved (record r { consumed_at = some (iso now) }),
  )

  -- What follows the checks of the request's runtime, payload and time.
  unfoldable pub consume_at :
      ToolApprovalConsumeRequest P
      → Text
      → Result Text
      → Option ℕ
      → ToolApprovalStore
      → Result (ToolApprovalStore × ConsumeDecision)
  unfolding first_valid take_approval
  consume_at q runtime_id (ok d) (some now) s =
      first_valid q runtime_id d now s.approvals >>= λ found. ok (take_approval now found s)
  consume_at q runtime_id (ok d) none s = ok (s, refused)
  consume_at q runtime_id (err e) now s = ok (s, refused)

  unfoldable pub consume :
      ToolApprovalConsumeRequest P
      → (now : Option ℕ) → ToolApprovalStore
      → Result (ToolApprovalStore × ConsumeDecision)
  unfolding consume_at
  consume q now s =
      let runtime_id = get_or q.runtime_id s.runtime_id in
      if (is_some q.runtime_id && is_blank runtime_id) || not (text_eq runtime_id s.runtime_id)
      then ok (s, refused)
      else consume_at q runtime_id (digest q.payload) now s
