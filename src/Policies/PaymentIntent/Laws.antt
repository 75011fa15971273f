-- ===== src/Policies/PaymentIntent/Laws.antt =====
-- What a payment is that the policy allows, and that it is the payment which the tool then prepares.
use agentlily_runtime.Common.{
  ◌≡◌, refl, sym, ap, inl, inr, Bool, true, false, List, Option, Text, text_eq, Option-cases,
}
use agentlily_runtime.Common.Dict.{get}
use agentlily_runtime.Context.{RuntimeContext}
use agentlily_runtime.Errors.{ok, Result-cases}
use agentlily_runtime.Actions.PaymentPrep.Amount.{JsNumber}
use agentlily_runtime.Actions.PaymentPrep.{
  Field, PaymentPrepPayload, PaymentPrepResult, payment_prep_tool_name, execute, prepared_time,
}
use agentlily_runtime.Policies.PaymentIntent.Payload.{
  RawPayload, plain, PayloadObject, snapshot_payment_payload, bind_authorized_payment_payload, Slot,
  same_field,
}
use agentlily_runtime.Policies.PaymentIntent.Payload.Binding.{
  Bound, IsBound, bind-Bound, look_up, seen_by_tool,
}
use agentlily_runtime.Policies.PaymentIntent.Payload.Replay.{
  IsStrictEquality, SameFields, execute-SameFields,
}
use agentlily_runtime.Policies.PaymentIntent.Rules.{CompiledWalletPolicy}
use agentlily_runtime.Policies.PaymentIntent.{
  denial, allow, denied, bound, decide, after_execute, after_snapshot, evaluate,
}
use agentlily_runtime.Policies.ToolPolicy.{ToolPolicyRequest, Decision}
use agentlily_runtime.Policies.PaymentIntent.Limits.{
  Authorized, Authorized-later, denied-Authorized,
}

-- A bound object gives the tool the fields of the snapshot, whatever is inherited.
Bound-SameFields :
    {N M : Type 0} (js : JsNumber N) (inherited a : PaymentPrepPayload N (Option M))
    (o : PayloadObject N M)
    → Bound js a o
    → SameFields js (seen_by_tool inherited o) a
unfolding seen_by_tool
Bound-SameFields {N} js inherited a o b = record {
  wallet = seen a.wallet_id inherited.wallet_id o.wallet_id b.wallet;
  amount = seen a.amount inherited.amount o.amount b.amount;
  recipient = seen a.recipient_id inherited.recipient_id o.recipient_id b.recipient;
  code = seen a.asset_code inherited.asset_code o.asset_code b.code;
  issuer = seen a.asset_issuer inherited.asset_issuer o.asset_issuer b.issuer;
  memo = seen a.memo inherited.memo o.memo b.memo;
}
  where
    seen :
        (f g : Field N) (slot : Slot (Field N))
        → IsBound js f slot
        → same_field js (look_up g slot) f ≡ true
    seen f g slot (own, there, same) = rw there (unfold look_up in same)

module _ {N M : Type 0} (js : JsNumber N) (sha256 : Text → Text) (clock : Text)
    (policies : List (Text × CompiledWalletPolicy)) where
  -- What an allowed payment is: prepared by the tool from the snapshot, authorized by a rule, and
  -- bound to the object.
  record Allowed (context : RuntimeContext) (left : RawPayload N M) : Type 0 where
    snapshot : PaymentPrepPayload N (Option M)
    prepared : PaymentPrepResult (Option M)
    object : PayloadObject N M
    run : execute js sha256 clock snapshot context ≡ ok prepared
    authorized : Authorized policies prepared
    same_object : left ≡ plain object
    is_bound : Bound js snapshot object

  bound-allow :
      (r : Bool × PayloadObject N M) (left : RawPayload N M)
      → bound js sha256 clock policies r ≡ (allow, left)
      → (o : PayloadObject N M) × (r ≡ (true, o)) × (left ≡ plain o)
  unfolding bound
  bound-allow (true, o) left e = (o, refl, sym (ap (λ (p : Decision × RawPayload N M). p.1) e))
  bound-allow (false, o) left e = cc

  denial-ne-allow :
      (reason : Text) (o left : RawPayload N M)
      → ◌≡◌ {A = Decision × RawPayload N M} (denial reason, o) (allow, left)
      → ⊥
  denial-ne-allow reason o left e = cc

  decide-Allowed :
      (context : RuntimeContext) (a : PaymentPrepPayload N (Option M)) (later : PayloadObject N M)
      (left : RawPayload N M) (r : PaymentPrepResult (Option M))
      → execute js sha256 clock a context ≡ ok r
      → decide js sha256 clock policies a later r (get r.wallet_id policies) ≡ (allow, left)
      → Allowed context left
  unfolding decide
  decide-Allowed context a later left r ran e = elim (Option-cases (get r.wallet_id policies)) [
    | inl unknown ↦ absurd (denial-ne-allow _ _ left (rw (unknown, decide) at e))
    | inr (rule, found) ↦ elim (Option-cases (denied rule r)) [
      | inr (reason, refused) ↦
          absurd (denial-ne-allow reason _ left (rw (found, refused, decide) at e))
      | inl passed ↦
          let (o, bind, same) =
            bound-allow (bind_authorized_payment_payload js later a) left
              (rw (found, passed, decide) at e) in
          record {
            snapshot = a;
            prepared = r;
            object = o;
            run = ran;
            authorized = denied-Authorized policies rule r found passed;
            same_object = same;
            is_bound = bind-Bound js later a o bind;
          }
    ]
  ]

  after_execute-Allowed :
      (context : RuntimeContext) (a : PaymentPrepPayload N (Option M)) (later : PayloadObject N M)
      (left : RawPayload N M)
      → after_execute js sha256 clock policies a later (execute js sha256 clock a context)
        ≡ (allow, left)
      → Allowed context left
  unfolding after_execute
  after_execute-Allowed context a later left e =
      elim (Result-cases (execute js sha256 clock a context)) [
        | inr (thrown, failed) ↦ absurd (denial-ne-allow _ _ left (rw (failed, after_execute) at e))
        | inl (r, ran) ↦ decide-Allowed context a later left r ran (rw (ran, after_execute) at e)
      ]

  evaluate-Allowed :
      (request : ToolPolicyRequest (RawPayload N M)) (later : PayloadObject N M)
      (left : RawPayload N M)
      → text_eq request.tool_name payment_prep_tool_name ≡ true
      → evaluate js sha256 clock policies request later ≡ (allow, left)
      → Allowed request.context left
  unfolding evaluate after_snapshot
  evaluate-Allowed request later left named e =
      elim (Option-cases (snapshot_payment_payload request.payload)) [
        | inl odd ↦ absurd (denial-ne-allow _ _ left (rw (named, odd, after_snapshot) at e))
        | inr (a, taken) ↦
            after_execute-Allowed request.context a later left
              (rw (named, taken, after_snapshot) at e)
      ]

  -- If the policy allows a call of the payment tool, whatever the caller made of the payload while
  -- the policy waited, then the payload is left frozen, and the tool, reading it at any later time,
  -- prepares a payment that a rule of its wallet authorizes. This is so whatever
  -- prototypes or getters answer a lookup that finds no own value.
  pub allow-authorizes :
      (request : ToolPolicyRequest (RawPayload N M)) (later : PayloadObject N M)
      (left : RawPayload N M) (inherited : PaymentPrepPayload N (Option M)) (run_clock : Text)
      → IsStrictEquality js
      → text_eq request.tool_name payment_prep_tool_name ≡ true
      → evaluate js sha256 clock policies request later ≡ (allow, left)
      → (o : PayloadObject N M) × (r : PaymentPrepResult (Option M)) × (left ≡ plain o)
        × (o.is_frozen ≡ true)
        × (execute js sha256 run_clock (seen_by_tool inherited o) request.context ≡ ok r)
        × Authorized policies r
  allow-authorizes request later left inherited run_clock strict named e =
      let allowed = evaluate-Allowed request later left named e in
      let r = allowed.prepared in
      let o = allowed.object in
      let p = seen_by_tool inherited o in
      (
        o,
        record r {
          metadata = p.metadata;
          prepared_at = prepared_time request.context.now run_clock;
        },
        allowed.same_object,
        allowed.is_bound.frozen,
        execute-SameFields js sha256 clock run_clock p allowed.snapshot request.context r strict
            (Bound-SameFields js inherited allowed.snapshot o allowed.is_bound) allowed.run,
        Authorized-later allowed.authorized p.metadata
            (prepared_time request.context.now run_clock),
      )
