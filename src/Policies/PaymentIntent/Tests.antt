-- ===== src/Policies/PaymentIntent/Tests.antt =====
-- The payment policy with the rule of one wallet.
use agentlily_runtime.Common.{
  ℕ, ◌*◌, ◌≡◌, refl, ◌⊎◌, inl, inr, Bool, true, false, List, [], ◌∷◌, Option, none, some, Text, lit,
  leb, ◌==◌, ==_iff, arith,
}
use agentlily_runtime.Common.Decimal.{decimal, big_int}
use agentlily_runtime.Common.Value.{str}
use agentlily_runtime.Context.{RuntimeContext}
use agentlily_runtime.Errors.{ok, err, range_error}
use agentlily_runtime.Actions.PaymentPrep.Amount.{JsNumber}
use agentlily_runtime.Actions.PaymentPrep.{
  absent, text, number, PaymentPrepPayload, PaymentPrepResult, execute, payment_prep_tool_name,
}
use agentlily_runtime.Policies.PaymentIntent.Laws.{allow-authorizes}
use agentlily_runtime.Policies.PaymentIntent.Limits.{Authorized}
use agentlily_runtime.Policies.PaymentIntent.Payload.{
  PayloadObject, RawPayload, plain, unset, value, accessor,
}
use agentlily_runtime.Policies.PaymentIntent.Payload.Binding.{seen_by_tool}
use agentlily_runtime.Policies.PaymentIntent.Rules.{
  CompiledWalletPolicy, StellarPaymentWalletPolicy, ids, no_flag, flag,
  stellar_payment_intent_policy, WalletPolicies,
}
use agentlily_runtime.Policies.PaymentIntent.{evaluate, allow, denial}
use agentlily_runtime.Policies.ToolPolicy.{ToolPolicyRequest}

abbrev naturals : JsNumber ℕ
naturals = record {
  is_finite = λ x. true;
  is_not_positive = λ x. leb x 0;
  is_integer = λ x. true;
  is_safe_integer = λ x. true;
  times = λ x n. x * n;
  to_text = λ x. decimal x;
  to_fixed = λ x n. decimal x;
  parse = λ s. big_int s;
  same = λ x y. x == y;
}

naturals_strict : (x y : ℕ) → (x == y) ≡ true → (x ≡ y) ⊎ (leb y 0 ≡ true)
naturals_strict x y h = inl ((==_iff x y).0 h)

abbrev keep_text : Text → Text
keep_text s = s

abbrev configured : StellarPaymentWalletPolicy
configured = record {
  wallet_id = str (lit "wallet");
  max_amount = some (lit "10");
  allowed_recipient_ids = ids (str (lit "friend") ∷ []);
  allowed_assets = none;
  require_recipient = flag true;
  require_memo = no_flag;
}

abbrev compiled : CompiledWalletPolicy
compiled = record {
  max_amount_stroops = some 100000000;
  allowed_recipient_ids = some (lit "friend" ∷ []);
  allowed_assets = none;
  require_recipient = true;
  require_memo = false;
}

compile_one :
    stellar_payment_intent_policy (some (some configured ∷ [])) ≡ ok ((lit "wallet", compiled) ∷ [])
unfolding stellar_payment_intent_policy agentlily_runtime.Common.text_eq
    agentlily_runtime.Common.trim agentlily_runtime.Common.Dict.has
    agentlily_runtime.Common.Dict.set agentlily_runtime.Common.Dict.add
compile_one = refl

compile_twice :
    stellar_payment_intent_policy (some (some configured ∷ some configured ∷ [])) ≡ err range_error
unfolding stellar_payment_intent_policy agentlily_runtime.Common.text_eq
    agentlily_runtime.Common.trim agentlily_runtime.Common.Dict.has
    agentlily_runtime.Common.Dict.set
compile_twice = refl

abbrev policies : WalletPolicies
policies = (lit "wallet", compiled) ∷ []

abbrev context : RuntimeContext
context = record {
  runtime_id = lit "runtime";
  task_id = lit "task-1";
  agent = none;
  now = lit "now";
}

abbrev object : PayloadObject ℕ Bool
object = record {
  wallet_id = value (text (lit "wallet"));
  amount = value (number 3);
  recipient_id = value (text (lit "friend"));
  asset_code = unset;
  asset_issuer = unset;
  memo = unset;
  metadata = unset;
  is_extensible = true;
  is_frozen = false;
}

abbrev request : ToolPolicyRequest (RawPayload ℕ Bool)
request = record { tool_name = payment_prep_tool_name; payload = plain object; context = context }

-- What the policy leaves of the object.
abbrev frozen : PayloadObject ℕ Bool
frozen = record {
  wallet_id = value (text (lit "wallet"));
  amount = value (number 3);
  recipient_id = value (text (lit "friend"));
  asset_code = value absent;
  asset_issuer = value absent;
  memo = value absent;
  metadata = value none;
  is_extensible = false;
  is_frozen = true;
}

evaluate_object : evaluate naturals keep_text [] policies request object ≡ (allow, plain frozen)
unfolding evaluate agentlily_runtime.Common.text_eq
    agentlily_runtime.Policies.PaymentIntent.Payload.snapshot_payment_payload execute
    agentlily_runtime.Common.Dict.get agentlily_runtime.Common.Dict.member
    agentlily_runtime.Policies.PaymentIntent.Payload.bind_authorized_payment_payload
evaluate_object = refl

evaluate_again :
    evaluate naturals keep_text [] policies (record request { payload = plain frozen }) frozen
    ≡ (allow, plain frozen)
unfolding evaluate agentlily_runtime.Common.text_eq
    agentlily_runtime.Policies.PaymentIntent.Payload.snapshot_payment_payload execute
    agentlily_runtime.Common.Dict.get agentlily_runtime.Common.Dict.member
    agentlily_runtime.Policies.PaymentIntent.Payload.bind_authorized_payment_payload
evaluate_again = refl

evaluate_changed :
    evaluate naturals keep_text [] policies request (record object { amount = value (number 4) })
    ≡ (
      denial (lit "Payment payload changed during policy evaluation."),
      plain (record object { amount = value (number 4) }),
    )
unfolding evaluate agentlily_runtime.Common.text_eq
    agentlily_runtime.Policies.PaymentIntent.Payload.snapshot_payment_payload execute
    agentlily_runtime.Common.Dict.get agentlily_runtime.Common.Dict.member
    agentlily_runtime.Policies.PaymentIntent.Payload.bind_authorized_payment_payload
evaluate_changed = refl

evaluate_too_much :
    evaluate naturals keep_text [] policies
      (record request { payload = plain (record object { amount = value (number 11) }) })
      (record object { amount = value (number 11) })
    ≡ (
      denial (lit "Payment amount exceeds the wallet policy limit."),
      plain (record object { amount = value (number 11) }),
    )
unfolding evaluate agentlily_runtime.Common.text_eq
    agentlily_runtime.Policies.PaymentIntent.Payload.snapshot_payment_payload execute
    agentlily_runtime.Common.Dict.get
evaluate_too_much = refl

-- A prototype on which every field has been polluted.
abbrev polluted : PaymentPrepPayload ℕ (Option Bool)
polluted = record {
  wallet_id = text (lit "other");
  amount = number 1000000;
  recipient_id = text (lit "thief");
  asset_code = text (lit "EUR");
  asset_issuer = text (lit "issuer");
  memo = text (lit "memo");
  metadata = some true;
}

allow-authorizes_example :
    (o : PayloadObject ℕ Bool) × (r : PaymentPrepResult (Option Bool)) × (plain frozen ≡ plain o)
    × (o.is_frozen ≡ true)
    × (execute naturals keep_text [] (seen_by_tool polluted o) context ≡ ok r)
    × Authorized policies r
unfolding agentlily_runtime.Common.text_eq
allow-authorizes_example =
    allow-authorizes naturals keep_text [] policies request object (plain frozen) polluted []
      naturals_strict refl evaluate_object
