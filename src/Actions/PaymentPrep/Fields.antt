-- ===== src/Actions/PaymentPrep/Fields.antt =====
-- What the tool has checked of each field of a payload.
use agentlily_runtime.Common.{
  ℕ, ◌≤◌, ◌≡◌, refl, sym, ◌∙◌, ap, subst, inl, inr, Bool, true, false, not, Option, none, some,
  Text, lit, [], ◌∷◌, ◌⊎◌, all, length, ltb, text_eq_iff, is_blank, text_eq, trim, arith,
  Bool-cases, if◌then◌else◌,
}
use agentlily_runtime.Common.Encoding.{byte_length}
use agentlily_runtime.Errors.{ok, ok_of_bind, ok-injective}
use agentlily_runtime.Guards.{assert_non_empty_value}
use agentlily_runtime.Actions.PaymentPrep.Account.{is_valid_stellar_account_id}
use agentlily_runtime.Actions.PaymentPrep.{
  Field, absent, null, other, number, text, is_alphanumeric, invalid, non_empty, recipient_of,
  asset_code_of, asset_issuer_of, normalize_memo, stellar_asset_code_re, is_native, checked_issuer,
  memo_text_max_bytes, or_native,
}

-- A text that is not blank.
abbrev pub IsText : {N : Type 0} → Field N → Text → Type 0
IsText f s = (f ≡ text s) × (is_blank s ≡ false)

abbrev pub IsOptionalText : {N : Type 0} → Field N → Option Text → Type 0
IsOptionalText f none = f ≡ absent
IsOptionalText f (some s) = IsText f s

-- The native asset has no issuer, every other asset a valid one.
abbrev pub IsAsset : Text → Option Text → Type 0
IsAsset asset_code none = asset_code ≡ lit "XLM"
IsAsset asset_code (some issuer) =
    (asset_code ≡ lit "XLM" → ⊥)
    × (issuer ≡ trim issuer)
    × (is_valid_stellar_account_id issuer ≡ true)

-- An ASCII letter or digit.
abbrev pub IsLetterOrDigit : ℕ → Type 0
IsLetterOrDigit c =
    ((b'A' ≤ c) × (c ≤ b'Z')) ⊎ (((b'a' ≤ c) × (c ≤ b'z')) ⊎ ((b'0' ≤ c) × (c ≤ b'9')))

abbrev pub AllLettersOrDigits : Text → Type 0
AllLettersOrDigits [] = Unit
AllLettersOrDigits (c ∷ s) = IsLetterOrDigit c × AllLettersOrDigits s

-- The code is that of the payload, or the native one if the payload names none.
abbrev pub IsNamed : {N : Type 0} → Field N → Text → Type 0
IsNamed absent code = code ≡ lit "XLM"
IsNamed null code = code ≡ lit "XLM"
IsNamed f code = IsText f code

-- A memo may be blank.
abbrev pub IsMemo : {N : Type 0} → Field N → Option Text → Type 0
IsMemo f none = f ≡ absent
IsMemo f (some memo) = (f ≡ text memo) × (byte_length memo ≤ 28)

-- The three tests of an issuer, passed.
tests_passed :
    (trimmed native valid : Bool) (issuer : Text) (r : Option Text)
    → (if not trimmed
        then invalid
        else (if native then invalid else (if not valid then invalid else ok (some issuer))))
      ≡ ok r
    → (some issuer ≡ r) × (trimmed ≡ true) × (native ≡ false) × (valid ≡ true)
tests_passed true false true issuer r e = (ok-injective e, refl, refl, refl)
tests_passed true false false issuer r e = cc
tests_passed true true valid issuer r e = cc
tests_passed false native valid issuer r e = cc

checked_issuer-IsAsset :
    (asset_code issuer : Text) (r : Option Text)
    → checked_issuer asset_code issuer ≡ ok r
    → (some issuer ≡ r) × IsAsset asset_code (some issuer)
unfolding checked_issuer
checked_issuer-IsAsset asset_code issuer r e =
    let (same, trimmed, issued, valid) =
      tests_passed (text_eq issuer (trim issuer)) (is_native asset_code)
        (is_valid_stellar_account_id issuer) issuer r e in
    (
      same,
      (
        λ native. ground (arith, issued, (text_eq_iff asset_code (lit "XLM")).1 native),
        (text_eq_iff issuer (trim issuer)).0 trimmed,
        valid,
      ),
    )

all_alphanumeric : (s : Text) → all is_alphanumeric s ≡ true → AllLettersOrDigits s
all_alphanumeric [] h = tt
all_alphanumeric (c ∷ s) h = (ground arith, all_alphanumeric s (ground arith))

-- One to twelve letters and digits.
pub record IsCode (s : Text) : Type 0 where
  pub filled : 1 ≤ length s
  pub short : length s ≤ 12
  pub characters : AllLettersOrDigits s

stellar_asset_code_re-IsCode : (s : Text) → stellar_asset_code_re s ≡ true → IsCode s
unfolding stellar_asset_code_re
stellar_asset_code_re-IsCode s h = record {
  filled = ground arith;
  short = ground arith;
  characters = all_alphanumeric s (ground arith);
}

pub text-injective : {N : Type 0} {s t : Text} → ◌≡◌ {A = Field N} (text s) (text t) → s ≡ t
text-injective e = cc

module _ {N : Type 0} where
  pub non_empty-IsText : (f : Field N) (s : Text) → non_empty f ≡ ok s → IsText f s
  unfolding non_empty assert_non_empty_value
  non_empty-IsText (text s) t e = elim (Bool-cases (is_blank s)) [
    | inl blank ↦ ground arith
    | inr filled ↦ ground arith
  ]
  non_empty-IsText _ t e = ground arith

  pub recipient_of-IsOptionalText :
      (f : Field N) (r : Option Text) → recipient_of f ≡ ok r → IsOptionalText f r
  unfolding recipient_of
  recipient_of-IsOptionalText absent r e = subst (IsOptionalText absent) (ok-injective e) refl
  recipient_of-IsOptionalText f r e =
      let (s, found, e') = ok_of_bind (non_empty f) (λ s. ok (some s)) e in
      subst (IsOptionalText f) {x = some s} (ok-injective e') (non_empty-IsText f s found)

  pub asset_code_of-read :
      (f : Field N) (s : Text)
      → asset_code_of f ≡ ok s
      → (non_empty (or_native f) ≡ ok s) × IsCode s
  unfolding asset_code_of
  asset_code_of-read f s e =
      let (code, filled, e') = ok_of_bind (non_empty (or_native f)) _ e in
      elim (Bool-cases (stellar_asset_code_re code)) [
        | inr unfit ↦ absurd (ground (arith, unfit))
        | inl fits ↦
            let same : code ≡ s = ground (arith, fits) in
            (
              filled ∙ ap (λ s. ok s) same,
              subst IsCode same (stellar_asset_code_re-IsCode code fits),
            )
      ]

  pub or_native-IsNamed : (f : Field N) (s : Text) → non_empty (or_native f) ≡ ok s → IsNamed f s
  or_native-IsNamed absent s e = sym (text-injective (non_empty-IsText (text (lit "XLM")) s e).0)
  or_native-IsNamed null s e = sym (text-injective (non_empty-IsText (text (lit "XLM")) s e).0)
  or_native-IsNamed (text s) t e = non_empty-IsText (text s) t e
  or_native-IsNamed (number x) t e = non_empty-IsText (number x) t e
  or_native-IsNamed other t e = non_empty-IsText other t e

  pub asset_issuer_of-IsAsset :
      (asset_code : Text) (f : Field N) (r : Option Text)
      → asset_issuer_of asset_code f ≡ ok r
      → IsOptionalText f r × IsAsset asset_code r
  unfolding asset_issuer_of
  asset_issuer_of-IsAsset asset_code absent none e =
      (refl, (text_eq_iff asset_code (lit "XLM")).0 (ground arith))
  asset_issuer_of-IsAsset asset_code absent (some i) e = absurd (ground arith)
  asset_issuer_of-IsAsset asset_code f r e =
      let (issuer, found, e') = ok_of_bind (non_empty f) (checked_issuer asset_code) e in
      let (same, asset) = checked_issuer-IsAsset asset_code issuer r e' in
      subst (λ r. IsOptionalText f r × IsAsset asset_code r) same
        (non_empty-IsText f issuer found, asset)

  pub normalize_memo-IsMemo : (f : Field N) (m : Option Text) → normalize_memo f ≡ ok m → IsMemo f m
  unfolding normalize_memo
  normalize_memo-IsMemo absent m e = subst (IsMemo absent) (ok-injective e) refl
  normalize_memo-IsMemo (text s) m e = elim (Bool-cases (ltb memo_text_max_bytes (byte_length s))) [
    | inl long ↦ absurd (ground (arith, long))
    | inr fits ↦
        let same : some s ≡ m = ground (arith, fits) in
        subst (IsMemo (text s)) same (refl, ground (arith, fits))
  ]
  normalize_memo-IsMemo _ m e = cc
