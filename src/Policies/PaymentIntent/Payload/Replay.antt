-- ===== src/Policies/PaymentIntent/Payload/Replay.antt =====
-- A payload whose fields are the same as those of a prepared one is prepared alike.
use agentlily_runtime.Common.{
  ◌≡◌, ◌∙◌, refl, ap, ◌⊎◌, inl, inr, Bool, true, false, not, Option, Text, text_eq_iff, Bool-cases,
}
use agentlily_runtime.Context.{RuntimeContext}
use agentlily_runtime.Errors.{ok, err, ok_of_bind, ok-injective, runtime_error, invalid_task}
use agentlily_runtime.Actions.PaymentPrep.Amount.{
  JsNumber, PaymentAmount, normalize_stellar_amount, amount_text, normalize_numeric_amount,
}
use agentlily_runtime.Actions.PaymentPrep.{
  Field, absent, null, other, text, number, PaymentPrepPayload, PaymentPrepResult, non_empty,
  recipient_of, asset_code_of, asset_issuer_of, normalize_memo, amount_of, execute, prepared_time,
}
use agentlily_runtime.Guards.{assert_non_empty_value}
use agentlily_runtime.Policies.PaymentIntent.Payload.{same_field}

-- `===` on numbers: two that are the same are one value, or the two zeros, which are not positive.
abbrev pub IsStrictEquality : {N : Type 0} → JsNumber N → Type 0
IsStrictEquality {N} js = (x y : N) → js.same x y ≡ true → (x ≡ y) ⊎ (js.is_not_positive y ≡ true)

-- `undefined`, `null` and texts.
abbrev is_plain : {N : Type 0} → Field N → Bool
is_plain absent = true
is_plain null = true
is_plain (text s) = true
is_plain _ = false

same_field-eq :
    {N : Type 0} (js : JsNumber N) (f a : Field N)
    → is_plain a ≡ true
    → same_field js f a ≡ true
    → f ≡ a
unfolding same_field
same_field-eq js absent absent p h = refl
same_field-eq js null null p h = refl
same_field-eq js (text s) (text t) p h = ap (λ s. text s) ((text_eq_iff s t).0 h)
same_field-eq js (number x) (number y) p h = cc
same_field-eq js _ _ p h = cc

abbrev is_usable : {N : Type 0} → JsNumber N → Field N → Bool
is_usable js (text s) = true
is_usable js (number x) = not (js.is_not_positive x)
is_usable js _ = false

same_amount-eq :
    {N : Type 0} (js : JsNumber N)
    → IsStrictEquality js
    → (f a : Field N) → is_usable js a ≡ true
    → same_field js f a ≡ true
    → f ≡ a
unfolding same_field
same_amount-eq js strict (number x) (number y) p h = elim (strict x y h) [
  | inl same ↦ ap (λ x. number x) same
  | inr zero ↦ absurd (cc)
]
same_amount-eq js strict (text s) (text t) p h = ap (λ s. text s) ((text_eq_iff s t).0 h)
same_amount-eq js strict absent absent p h = cc
same_amount-eq js strict null null p h = cc
same_amount-eq js strict _ _ p h = cc

numeric-positive :
    {N : Type 0} (js : JsNumber N) (x : N) (s : Text)
    → normalize_numeric_amount js x ≡ ok s
    → not (js.is_not_positive x) ≡ true
unfolding normalize_numeric_amount
numeric-positive js x s e = elim (Bool-cases (js.is_not_positive x)) [
  | inl zero ↦ elim (Bool-cases (js.is_finite x)) [
    | inl finite ↦ absurd (err-ne-ok (rw (zero, finite, normalize_numeric_amount) at e))
    | inr infinite ↦ absurd (err-ne-ok (rw (zero, infinite, normalize_numeric_amount) at e))
  ]
  | inr positive ↦ rw positive refl
]
  where
    err-ne-ok : err (runtime_error invalid_task) ≡ ok s → ⊥
    err-ne-ok h = cc

module _ {N : Type 0} where
  non_empty-plain : (f : Field N) (s : Text) → non_empty f ≡ ok s → is_plain f ≡ true
  unfolding non_empty assert_non_empty_value
  non_empty-plain (text s) t e = refl
  non_empty-plain _ t e = cc

  recipient_of-plain : (f : Field N) (s : Option Text) → recipient_of f ≡ ok s → is_plain f ≡ true
  unfolding recipient_of non_empty assert_non_empty_value
  recipient_of-plain absent s e = refl
  recipient_of-plain (text t) s e = refl
  recipient_of-plain _ s e = cc

  asset_code_of-plain : (f : Field N) (s : Text) → asset_code_of f ≡ ok s → is_plain f ≡ true
  unfolding asset_code_of non_empty assert_non_empty_value
  asset_code_of-plain (number x) s e = cc
  asset_code_of-plain other s e = cc
  asset_code_of-plain _ s e = refl

  asset_issuer_of-plain :
      (c : Text) (f : Field N) (s : Option Text) → asset_issuer_of c f ≡ ok s → is_plain f ≡ true
  unfolding asset_issuer_of non_empty assert_non_empty_value
  asset_issuer_of-plain c absent s e = refl
  asset_issuer_of-plain c (text t) s e = refl
  asset_issuer_of-plain c _ s e = cc

  normalize_memo-plain :
      (f : Field N) (s : Option Text) → normalize_memo f ≡ ok s → is_plain f ≡ true
  unfolding normalize_memo
  normalize_memo-plain absent s e = refl
  normalize_memo-plain (text t) s e = refl
  normalize_memo-plain _ s e = cc

  amount-usable :
      (js : JsNumber N) (f : Field N) (a : PaymentAmount N) (s : Text)
      → amount_of f ≡ ok a
      → amount_text js a ≡ ok s
      → is_usable js f ≡ true
  unfolding amount_of amount_text
  amount-usable js (text t) a s e e' = refl
  amount-usable js (number x) a s e e' =
      numeric-positive js x s (ap (λ a. amount_text js a) (ok-injective e) ∙ e')
  amount-usable js _ a s e e' = cc

-- The fields of one payload are the same as those of another.
pub record SameFields {N M : Type 0} (js : JsNumber N) (p a : PaymentPrepPayload N M) : Type 0 where
  pub wallet : same_field js p.wallet_id a.wallet_id ≡ true
  pub amount : same_field js p.amount a.amount ≡ true
  pub recipient : same_field js p.recipient_id a.recipient_id ≡ true
  pub code : same_field js p.asset_code a.asset_code ≡ true
  pub issuer : same_field js p.asset_issuer a.asset_issuer ≡ true
  pub memo : same_field js p.memo a.memo ≡ true

module _ {N M : Type 0} (js : JsNumber N) (sha256 : Text → Text) where
  pub execute-SameFields :
      (clock clock' : Text) (p a : PaymentPrepPayload N M) (context : RuntimeContext)
      (r : PaymentPrepResult M)
      → IsStrictEquality js
      → SameFields js p a
      → execute js sha256 clock a context ≡ ok r
      → execute js sha256 clock' p context
        ≡ ok (record r { metadata = p.metadata; prepared_at = prepared_time context.now clock' })
  unfolding execute
  execute-SameFields clock clock' p a context r strict same e =
      let (wallet_id, p1, e1) = ok_of_bind (non_empty a.wallet_id) _ e in
      let (recipient_id, p2, e2) = ok_of_bind (recipient_of a.recipient_id) _ e1 in
      let (asset_code, p3, e3) = ok_of_bind (asset_code_of a.asset_code) _ e2 in
      let (asset_issuer, p4, e4) = ok_of_bind (asset_issuer_of asset_code a.asset_issuer) _ e3 in
      let (memo, p5, e5) = ok_of_bind (normalize_memo a.memo) _ e4 in
      let (amount, p6, e6) = ok_of_bind (amount_of a.amount) _ e5 in
      let (normalized, p7, e7) = ok_of_bind (normalize_stellar_amount js amount) _ e6 in
      let (amount_str, p8, _) =
        ok_of_bind (amount_text js amount) _ (unfold normalize_stellar_amount in p7) in
      let q1 =
        ap (λ f. non_empty f)
          (same_field-eq js p.wallet_id a.wallet_id (non_empty-plain a.wallet_id wallet_id p1)
            same.wallet)
        ∙ p1 in
      let q2 =
        ap (λ f. recipient_of f)
          (same_field-eq js p.recipient_id a.recipient_id
            (recipient_of-plain a.recipient_id recipient_id p2) same.recipient)
        ∙ p2 in
      let q3 =
        ap (λ f. asset_code_of f)
          (same_field-eq js p.asset_code a.asset_code
            (asset_code_of-plain a.asset_code asset_code p3) same.code)
        ∙ p3 in
      let q4 =
        ap (λ f. asset_issuer_of asset_code f)
          (same_field-eq js p.asset_issuer a.asset_issuer
            (asset_issuer_of-plain asset_code a.asset_issuer asset_issuer p4) same.issuer)
        ∙ p4 in
      let q5 =
        ap (λ f. normalize_memo f)
          (same_field-eq js p.memo a.memo (normalize_memo-plain a.memo memo p5) same.memo)
        ∙ p5 in
      let q6 =
        ap (λ f. amount_of f)
          (same_amount-eq js strict p.amount a.amount
            (amount-usable js a.amount amount amount_str p6 p8) same.amount)
        ∙ p6 in
      rw (q1, q2, q3, q4, q5, q6, p7)
        (ap
          (λ (r : PaymentPrepResult M).
            ok (record r { metadata = p.metadata; prepared_at = prepared_time context.now clock' }))
          (ok-injective e7))
