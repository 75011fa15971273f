-- ===== src/Policies/PaymentIntent/Limits.antt =====
-- The tests of a prepared payment, and what a payment is that passes them.
use agentlily_runtime.Common.{
  ℕ, ◌≤◌, ◌≡◌, refl, subst, inl, inr, true, not, ◌||◌, ◌&&◌, List, Option, none, some, Text,
  is_some, arith, Bool-cases, Option-cases,
}
use agentlily_runtime.Common.Dict.{get}
use agentlily_runtime.Actions.PaymentPrep.Amount.{exact_stroops, decimal_amount_re}
use agentlily_runtime.Actions.PaymentPrep.{PaymentPrepResult}
use agentlily_runtime.Policies.PaymentIntent.Rules.{
  CompiledWalletPolicy, asset_identity, parse_exact_stroops,
}
use agentlily_runtime.Policies.PaymentIntent.{
  denied, amount_denial, recipient_denial, asset_denial, memo_denial, or_else, is_filled, holds,
  over_limit, unlisted,
}

-- The policy and the tool read amounts alike.
pub parse_exact_stroops-eq : (s : Text) → parse_exact_stroops s ≡ exact_stroops s
unfolding parse_exact_stroops exact_stroops
parse_exact_stroops-eq s = elim (Bool-cases (decimal_amount_re s)) [
  | inl fits ↦ rw fits refl
  | inr unfit ↦ rw unfit refl
]

abbrev pub WithinLimit : Option ℕ → Text → Type 0
WithinLimit none amount = Unit
WithinLimit (some max) amount =
    (stroops : ℕ) × (exact_stroops amount ≡ some stroops) × (stroops ≤ max)

abbrev pub IsListed : Option (List Text) → Option Text → Type 0
IsListed none v = Unit
IsListed (some values) v = holds values v ≡ true

-- A payment that a rule of its own wallet lets pass.
pub record Authorized {M : Type 0} (policies : List (Text × CompiledWalletPolicy))
    (r : PaymentPrepResult M) : Type 0 where
  pub rule : CompiledWalletPolicy
  pub found : get r.wallet_id policies ≡ some rule
  pub amount : WithinLimit rule.max_amount_stroops r.amount
  pub has_required_recipient : not rule.require_recipient || is_some r.recipient_id ≡ true
  pub recipient : IsListed rule.allowed_recipient_ids r.recipient_id
  pub asset : IsListed rule.allowed_assets (some (asset_identity r.asset_code r.asset_issuer))
  pub has_required_memo : not rule.require_memo || is_filled r.memo ≡ true

some-ne-none : {A : Type 0} {a : A} → some a ≡ none → ⊥
some-ne-none e = cc

over_limit-le : (max stroops : ℕ) → over_limit (some max) (some stroops) ≡ none → stroops ≤ max
unfolding over_limit
over_limit-le max stroops h = ground arith

over_limit-none :
    (max : Option ℕ) (amount : Text)
    → over_limit max (exact_stroops amount) ≡ none
    → WithinLimit max amount
over_limit-none none amount e = tt
over_limit-none (some max) amount e = elim (Option-cases (exact_stroops amount)) [
  | inl unread ↦ absurd (refused (rw unread at e))
  | inr (stroops, read) ↦ (stroops, read, over_limit-le max stroops (rw read at e))
]
  where
    refused : over_limit (some max) none ≡ none → ⊥
    refused h = unfold over_limit in cc

unlisted-none :
    (reason : Text) (values : Option (List Text)) (v : Option Text)
    → unlisted reason values v ≡ none
    → IsListed values v
unfolding unlisted
unlisted-none reason none v e = tt
unlisted-none reason (some values) v e = elim (Bool-cases (holds values v)) [
  | inl known ↦ known
  | inr unknown ↦ ground arith
]

module _ {M : Type 0} (rule : CompiledWalletPolicy) (r : PaymentPrepResult M) where
  amount_denial-none : amount_denial rule r ≡ none → WithinLimit rule.max_amount_stroops r.amount
  unfolding amount_denial
  amount_denial-none e =
      over_limit-none rule.max_amount_stroops r.amount (
        subst (λ o. over_limit rule.max_amount_stroops o ≡ none) (parse_exact_stroops-eq r.amount)
          e)

  recipient_denial-none :
      recipient_denial rule r ≡ none
      → (not rule.require_recipient || is_some r.recipient_id ≡ true)
        × IsListed rule.allowed_recipient_ids r.recipient_id
  unfolding recipient_denial
  recipient_denial-none e =
      elim (Bool-cases (rule.require_recipient && not (is_some r.recipient_id))) [
        | inl missing ↦ absurd (some-ne-none (rw (missing, recipient_denial) at e))
        | inr fine ↦ (
          ground arith,
          unlisted-none _ rule.allowed_recipient_ids r.recipient_id
              (rw (fine, recipient_denial) at e),
        )
      ]

  asset_denial-none :
      asset_denial rule r ≡ none
      → IsListed rule.allowed_assets (some (asset_identity r.asset_code r.asset_issuer))
  unfolding asset_denial
  asset_denial-none e = unlisted-none _ rule.allowed_assets _ e

  memo_denial-none : memo_denial rule r ≡ none → not rule.require_memo || is_filled r.memo ≡ true
  unfolding memo_denial
  memo_denial-none e = ground arith

or_else-none : (a b : Option Text) → or_else a b ≡ none → (a ≡ none) × (b ≡ none)
or_else-none none b e = (refl, e)
or_else-none (some d) b e = cc

pub denied-Authorized :
    {M : Type 0} (policies : List (Text × CompiledWalletPolicy)) (rule : CompiledWalletPolicy)
    (r : PaymentPrepResult M)
    → get r.wallet_id policies ≡ some rule
    → denied rule r ≡ none
    → Authorized policies r
unfolding denied
denied-Authorized policies rule r found e =
    let (a, e1) = or_else-none (amount_denial rule r) _ e in
    let (b, e2) = or_else-none (recipient_denial rule r) _ e1 in
    let (c, d) = or_else-none (asset_denial rule r) (memo_denial rule r) e2 in
    record {
      rule = rule;
      found = found;
      amount = amount_denial-none rule r a;
      has_required_recipient = (recipient_denial-none rule r b).0;
      recipient = (recipient_denial-none rule r b).1;
      asset = asset_denial-none rule r c;
      has_required_memo = memo_denial-none rule r d;
    }

-- The time and the metadata of a payment are not judged.
pub Authorized-later :
    {M : Type 0} {policies : List (Text × CompiledWalletPolicy)} {r : PaymentPrepResult M}
    → Authorized policies r
    → (m : M) (time : Text) → Authorized policies (record r { metadata = m; prepared_at = time })
Authorized-later a m time = record {
  rule = a.rule;
  found = a.found;
  amount = a.amount;
  has_required_recipient = a.has_required_recipient;
  recipient = a.recipient;
  asset = a.asset;
  has_required_memo = a.has_required_memo;
}
