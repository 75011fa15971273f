-- ===== src/Policies/PaymentIntent.antt =====
-- src/policies/payment-intent-policy.ts: what the controller of a wallet lets the simulated payment
-- tool prepare. The files below model the configuration (`Rules`) and the payload object
-- (`Payload`); this one models the decision.
pub mod Rules
pub mod Payload
mod Limits
mod Laws
mod Tests
use agentlily_runtime.Common.{
  ℕ, Bool, true, false, ◌&&◌, ◌||◌, not, List, [], ◌∷◌, Option, none, some, Text, lit, text_eq, ltb,
  ◌==◌, length, is_some, if◌then◌else◌,
}
use agentlily_runtime.Common.Dict.{get, member}
use agentlily_runtime.Context.{RuntimeContext}
use agentlily_runtime.Errors.{Result, ok, err}
use agentlily_runtime.Actions.PaymentPrep.{
  PaymentPrepPayload, PaymentPrepResult, payment_prep_tool_name, execute,
}
use agentlily_runtime.Actions.PaymentPrep.Amount.{JsNumber}
use agentlily_runtime.Policies.PaymentIntent.Payload.{
  RawPayload, plain, PayloadObject, snapshot_payment_payload, bind_authorized_payment_payload,
}
use agentlily_runtime.Policies.PaymentIntent.Rules.{
  parse_exact_stroops, CompiledWalletPolicy, asset_identity,
}
use agentlily_runtime.Policies.ToolPolicy.{ToolPolicyRequest, Decision, decided}

abbrev pub denial : Text → Decision
denial reason = decided false (some reason)

abbrev pub allow : Decision
allow = decided true none

-- `value !== undefined && set.has(value)`
abbrev pub holds : List Text → Option Text → Bool
holds values none = false
holds values (some v) = member v values

abbrev pub is_filled : Option Text → Bool
is_filled none = false
is_filled (some s) = not (length s == 0)

-- A limit against the amount in stroops.
unfoldable pub over_limit : Option ℕ → Option ℕ → Option Text
over_limit none amount_stroops = none
over_limit (some max) none = some (lit "Payment amount cannot be evaluated safely by policy.")
over_limit (some max) (some amount_stroops) =
    if ltb max amount_stroops
    then some (lit "Payment amount exceeds the wallet policy limit.")
    else none

-- An allowlist against a value.
unfoldable pub unlisted : Text → Option (List Text) → Option Text → Option Text
unlisted reason none v = none
unlisted reason (some values) v = if not (holds values v) then some reason else none

module _ {M : Type 0} (rule : CompiledWalletPolicy) (prepared : PaymentPrepResult M) where
  -- The four tests of a prepared payment; `none` lets it pass, a reason does not.
  unfoldable pub amount_denial : Option Text
  unfolding over_limit parse_exact_stroops
  amount_denial = over_limit rule.max_amount_stroops (parse_exact_stroops prepared.amount)

  unfoldable pub recipient_denial : Option Text
  unfolding unlisted
  recipient_denial =
      if rule.require_recipient && not (is_some prepared.recipient_id)
      then some (lit "Payment policy requires an explicit recipient.")
      else unlisted (lit "Payment recipient is not authorized by wallet policy.")
          rule.allowed_recipient_ids prepared.recipient_id

  unfoldable pub asset_denial : Option Text
  unfolding unlisted asset_identity
  asset_denial =
      unlisted (lit "Payment asset is not authorized by wallet policy.") rule.allowed_assets
        (some (asset_identity prepared.asset_code prepared.asset_issuer))

  unfoldable pub memo_denial : Option Text
  memo_denial =
      if rule.require_memo && not (is_filled prepared.memo)
      then some (lit "Payment policy requires a non-empty memo.")
      else none

-- The first reason of several.
abbrev pub or_else : Option Text → Option Text → Option Text
or_else none second = second
or_else (some d) second = some d

unfoldable pub denied : {M : Type 0} → CompiledWalletPolicy → PaymentPrepResult M → Option Text
unfolding amount_denial recipient_denial asset_denial memo_denial
denied rule prepared = or_else (amount_denial rule prepared) (
    or_else (recipient_denial rule prepared)
      (or_else (asset_denial rule prepared) (memo_denial rule prepared)))

module _ {N M : Type 0} (js : JsNumber N) (sha256 : Text → Text) (clock : Text)
    (policies : List (Text × CompiledWalletPolicy)) where
  -- The end of `evaluate`: the object is read again and frozen.
  unfoldable pub bound : Bool × PayloadObject N M → Decision × RawPayload N M
  bound (true, o) = (allow, plain o)
  bound (false, o) = (denial (lit "Payment payload changed during policy evaluation."), plain o)

  -- From the lookup of the wallet's rule on. `authorized` is the snapshot, `later` the object as it
  -- is after the wait for the tool.
  unfoldable pub decide :
      PaymentPrepPayload N (Option M)
      → PayloadObject N M
      → PaymentPrepResult (Option M)
      → Option CompiledWalletPolicy
      → Decision × RawPayload N M
  unfolding denied bound
  decide authorized later prepared none =
      (denial (lit "Wallet is not authorized for payment preparation."), plain later)
  decide authorized later prepared (some rule) = elim (denied rule prepared) [
    | some reason ↦ (denial reason, plain later)
    | none ↦ bound (bind_authorized_payment_payload js later authorized)
  ]

  unfoldable pub after_execute :
      PaymentPrepPayload N (Option M)
      → PayloadObject N M
      → Result (PaymentPrepResult (Option M))
      → Decision × RawPayload N M
  unfolding decide
  after_execute authorized later (err thrown) =
      (denial (lit "Payment intent is invalid."), plain later)
  after_execute authorized later (ok prepared) =
      decide authorized later prepared (get prepared.wallet_id policies)

  unfoldable pub after_snapshot :
      RuntimeContext
      → RawPayload N M
      → PayloadObject N M
      → Option (PaymentPrepPayload N (Option M))
      → Decision × RawPayload N M
  unfolding after_execute
  after_snapshot context payload later none =
      (denial (lit "Payment policy requires a plain data payload."), payload)
  after_snapshot context payload later (some authorized) =
      after_execute authorized later (execute js sha256 clock authorized context)

  -- `evaluate`: the decision, and the payload object that it leaves. `later` is what the caller has
  -- made of a plain payload when the wait for the tool is over.
  unfoldable pub evaluate :
      ToolPolicyRequest (RawPayload N M) → PayloadObject N M → Decision × RawPayload N M
  unfolding after_snapshot
  evaluate request later =
      if not (text_eq request.tool_name payment_prep_tool_name)
      then (allow, request.payload)
      else after_snapshot request.context request.payload later
          (snapshot_payment_payload request.payload)
