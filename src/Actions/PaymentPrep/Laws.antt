-- ===== src/Actions/PaymentPrep/Laws.antt =====
-- What a payment is that the tool has prepared, and what its identifier depends on.
use agentlily_runtime.Actions.PaymentPrep.Fields.{
  IsAsset, IsCode, IsMemo, IsNamed, IsOptionalText, IsText, asset_code_of-read,
  asset_issuer_of-IsAsset, non_empty-IsText, normalize_memo-IsMemo, or_native-IsNamed,
  recipient_of-IsOptionalText, text-injective,
}
use agentlily_runtime.Common.{
  ℕ, ◌≤◌, ◌≡◌, refl, sym, ◌∙◌, ap, subst, true, Option, none, some, Text, lit, List, [], ◌∷◌, ◌++◌,
  arith,
}
use agentlily_runtime.Common.Encoding.{json_array}
use agentlily_runtime.Common.Decimal.{decimal}
use agentlily_runtime.Context.{RuntimeContext}
use agentlily_runtime.Errors.{ok, ok_of_bind, ok-injective}
use agentlily_runtime.Actions.PaymentPrep.Amount.{
  JsNumber, PaymentAmount, NormalizedAmount, normalize_stellar_amount, exact_stroops,
  checked_stroops, in_range, amount_text, with_stroops, max_stellar_amount_stroops,
}
use agentlily_runtime.Actions.PaymentPrep.{
  Field, absent, null, other, number, text, Intent, with_issuer, native_intent, canonical_intent,
  PaymentPrepPayload, PaymentPrepResult, non_empty, recipient_of, asset_code_of, asset_issuer_of,
  normalize_memo, amount_of, execute, create_transaction_stub_id,
}

exact_stroops_bounds :
    (s : Text) (n : ℕ) → exact_stroops s ≡ some n → (1 ≤ n) × (n ≤ max_stellar_amount_stroops)
unfolding exact_stroops checked_stroops in_range
exact_stroops_bounds s n e = ground arith

with_stroops-ok :
    (s : Text) (o : Option ℕ) (r : NormalizedAmount)
    → with_stroops s o ≡ ok r
    → (s ≡ r.amount) × (o ≡ some r.stroops)
unfolding with_stroops
with_stroops-ok s none r e = cc
with_stroops-ok s (some n) r e =
    let same = ok-injective e in
    (
      ap (λ (x : NormalizedAmount). x.amount) same,
      ap (λ (x : NormalizedAmount). some x.stroops) same,
    )

amount_worth :
    {N : Type 0} (js : JsNumber N) (a : PaymentAmount N) (r : NormalizedAmount)
    → normalize_stellar_amount js a ≡ ok r
    → exact_stroops r.amount ≡ some r.stroops
unfolding normalize_stellar_amount
amount_worth js a r e =
    let (s, found, e') = ok_of_bind (amount_text js a) (λ s. with_stroops s (exact_stroops s)) e in
    let (same, worth) = with_stroops-ok s (exact_stroops s) r e' in
    ap exact_stroops (sym same) ∙ worth

-- The issuer is the last part of the intent, and no part if there is none.
abbrev pub issuer_part : Option Text → List (Option Text)
issuer_part none = []
issuer_part (some issuer) = some issuer ∷ []

-- A payment as its payload has it, with the tests that it has passed.
pub record Prepared {N M : Type 0} (sha256 : Text → Text) (payload : PaymentPrepPayload N M)
    (context : RuntimeContext) (r : PaymentPrepResult M) : Type 0 where
  pub wallet : IsText payload.wallet_id r.wallet_id
  pub recipient : IsOptionalText payload.recipient_id r.recipient_id
  pub code_named : IsNamed payload.asset_code r.asset_code
  pub code : IsCode r.asset_code
  pub issuer : IsOptionalText payload.asset_issuer r.asset_issuer
  pub asset : IsAsset r.asset_code r.asset_issuer
  pub memo : IsMemo payload.memo r.memo
  pub stroops : ℕ
  pub worth : exact_stroops r.amount ≡ some stroops
  pub bounds : (1 ≤ stroops) × (stroops ≤ 9223372036854775807)
  pub simulated : r.is_simulated ≡ true
  pub metadata : r.metadata ≡ payload.metadata
  pub identified :
      r.transaction_stub_id
      ≡ lit "stellar-stub-"
        ++ (context.task_id
            ++ (lit "-"
                ++ (r.wallet_id
                    ++ (lit "-"
                        ++ sha256 (
                            json_array (
                              some context.task_id
                              ∷ some r.wallet_id
                              ∷ r.recipient_id
                              ∷ some r.asset_code
                              ∷ some (decimal stroops)
                              ∷ r.memo
                              ∷ issuer_part r.asset_issuer))))))

issued : (o : Option Text) (i : List (Option Text)) → with_issuer o i ≡ i ++ issuer_part o
issued none [] = refl
issued none (x ∷ i) = rw (← issued none i) refl
issued (some issuer) i = refl

create_transaction_stub_id_lem :
    (sha256 : Text → Text) (i : Intent)
    → create_transaction_stub_id sha256 i
      ≡ lit "stellar-stub-"
        ++ (i.task_id
            ++ (lit "-"
                ++ (i.wallet_id
                    ++ (lit "-"
                        ++ sha256 (
                            json_array (
                              some i.task_id
                              ∷ some i.wallet_id
                              ∷ i.recipient_id
                              ∷ some i.asset_code
                              ∷ some (decimal i.amount_stroops)
                              ∷ i.memo
                              ∷ issuer_part i.asset_issuer))))))
unfolding create_transaction_stub_id canonical_intent native_intent
create_transaction_stub_id_lem sha256 i = rw (issued i.asset_issuer (native_intent i)) refl

module _ {N M : Type 0} (js : JsNumber N) (sha256 : Text → Text) (clock : Text) where
  -- A payment that the tool returns has the wallet and the recipient of the payload, if any, which are
  -- not blank, its asset code, or XLM if it has none, of 1 to 12 letters and digits, its issuer,
  -- exactly if the asset is not XLM, with no outer white space and valid, its memo of at most 28
  -- bytes, if any, and an amount that is worth 1 to 2^63 - 1 stroops; the stub identifier is made of
  -- the task, the wallet and the digest of the JSON array of the task, the wallet, the recipient, the
  -- code, the stroops, the memo and the issuer.
  pub execute-Prepared :
      (payload : PaymentPrepPayload N M) (context : RuntimeContext) (r : PaymentPrepResult M)
      → execute js sha256 clock payload context ≡ ok r
      → Prepared sha256 payload context r
  unfolding execute
  execute-Prepared payload context r e =
      let (wallet_id, p1, e1) = ok_of_bind (non_empty payload.wallet_id) _ e in
      let (recipient_id, p2, e2) = ok_of_bind (recipient_of payload.recipient_id) _ e1 in
      let (asset_code, p3, e3) = ok_of_bind (asset_code_of payload.asset_code) _ e2 in
      let (asset_issuer, p4, e4) =
        ok_of_bind (asset_issuer_of asset_code payload.asset_issuer) _ e3 in
      let (memo, p5, e5) = ok_of_bind (normalize_memo payload.memo) _ e4 in
      let (amount, p6, e6) = ok_of_bind (amount_of payload.amount) _ e5 in
      let (normalized, p7, e7) = ok_of_bind (normalize_stellar_amount js amount) _ e6 in
      let read = asset_code_of-read payload.asset_code asset_code p3 in
      let issuer = asset_issuer_of-IsAsset asset_code payload.asset_issuer asset_issuer p4 in
      subst (Prepared sha256 payload context) (ok-injective e7) (record {
        wallet = non_empty-IsText payload.wallet_id wallet_id p1;
        recipient = recipient_of-IsOptionalText payload.recipient_id recipient_id p2;
        code_named = or_native-IsNamed payload.asset_code asset_code read.0;
        code = read.1;
        issuer = issuer.0;
        asset = issuer.1;
        memo = normalize_memo-IsMemo payload.memo memo p5;
        stroops = normalized.stroops;
        worth = amount_worth js amount normalized p7;
        bounds =
            exact_stroops_bounds normalized.amount normalized.stroops
              (amount_worth js amount normalized p7);
        simulated = refl;
        metadata = refl;
        identified = create_transaction_stub_id_lem sha256 (record {
          task_id = context.task_id;
          wallet_id = wallet_id;
          recipient_id = recipient_id;
          asset_code = asset_code;
          asset_issuer = asset_issuer;
          amount_stroops = normalized.stroops;
          memo = memo;
        });
      })

some-injective : {a b : ℕ} → some a ≡ some b → a ≡ b
some-injective e = cc

optional_unique :
    {N : Type 0} (f : Field N) (r r' : Option Text)
    → IsOptionalText f r
    → IsOptionalText f r'
    → r ≡ r'
optional_unique f none none h h' = refl
optional_unique f none (some s) h h' = cc
optional_unique f (some s) none h h' = cc
optional_unique f (some s) (some t) h h' = cc

named_unique : {N : Type 0} (f : Field N) (r r' : Text) → IsNamed f r → IsNamed f r' → r ≡ r'
named_unique absent r r' h h' = cc
named_unique null r r' h h' = cc
named_unique (text s) r r' h h' = text-injective (sym h.0 ∙ h'.0)
named_unique (number x) r r' h h' = text-injective (sym h.0 ∙ h'.0)
named_unique other r r' h h' = text-injective (sym h.0 ∙ h'.0)

memo_unique : {N : Type 0} (f : Field N) (r r' : Option Text) → IsMemo f r → IsMemo f r' → r ≡ r'
memo_unique f none none h h' = refl
memo_unique f none (some s) h h' = cc
memo_unique f (some s) none h h' = cc
memo_unique f (some s) (some t) h h' = cc

module _ {N M : Type 0} (js : JsNumber N) (sha256 : Text → Text) where
  -- Two preparations for one task, of payloads that differ in their metadata and in the spelling of
  -- the amount alone, give one transaction stub if the amounts returned are worth the same.
  pub stub_ignores_spelling :
      (clock clock' : Text) (p : PaymentPrepPayload N M) (amount : Field N) (metadata : M)
      (context context' : RuntimeContext) (r r' : PaymentPrepResult M)
      → context.task_id ≡ context'.task_id
      → execute js sha256 clock p context ≡ ok r
      → execute js sha256 clock' (record p { amount = amount; metadata = metadata }) context'
        ≡ ok r'
      → exact_stroops r.amount ≡ exact_stroops r'.amount
      → r.transaction_stub_id ≡ r'.transaction_stub_id
  stub_ignores_spelling clock clock' p amount metadata context context' r r' task e e' worth =
      let a = execute-Prepared js sha256 clock p context r e in
      let b =
        execute-Prepared js sha256 clock' (record p { amount = amount; metadata = metadata })
          context' r' e' in
      let wallet = text-injective (sym a.wallet.0 ∙ b.wallet.0) in
      let recipient =
        optional_unique p.recipient_id r.recipient_id r'.recipient_id a.recipient b.recipient in
      let code = named_unique p.asset_code r.asset_code r'.asset_code a.code_named b.code_named in
      let issuer =
        optional_unique p.asset_issuer r.asset_issuer r'.asset_issuer a.issuer b.issuer in
      let memo = memo_unique p.memo r.memo r'.memo a.memo b.memo in
      let stroops : a.stroops ≡ b.stroops = some-injective (sym a.worth ∙ worth ∙ b.worth) in
      a.identified ∙ rw (task, wallet, recipient, code, issuer, stroops, memo) (sym b.identified)
