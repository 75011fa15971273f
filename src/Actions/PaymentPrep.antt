-- ===== src/Actions/PaymentPrep.antt =====
-- src/actions/payment-prep-action.ts: the tool `wallet.prepare_payment`. SHA-256 and the clock are
-- parameters, and so are the platform's numbers.
pub mod Amount
pub mod Account
pub mod Fields
pub mod Laws
mod Tests
use agentlily_runtime.Common.{
  ℕ, ◌+◌, Bool, true, false, ◌&&◌, ◌||◌, not, List, [], ◌∷◌, ◌++◌, Option, none, some, Text, lit,
  all, length, ltb, leb, text_eq, trim, is_blank, if◌then◌else◌,
}
use agentlily_runtime.Common.Decimal.{decimal}
use agentlily_runtime.Common.Encoding.{byte_length, json_array}
use agentlily_runtime.Common.Value.{Unknown, str, not_str}
use agentlily_runtime.Context.{RuntimeContext}
use agentlily_runtime.Errors.{Result, ok, err, ◌>>=◌, ◌>>◌, runtime_error, invalid_task}
use agentlily_runtime.Guards.{assert_non_empty_value}
use agentlily_runtime.Actions.PaymentPrep.Account.{is_valid_stellar_account_id}
use agentlily_runtime.Actions.PaymentPrep.Amount.{
  JsNumber, PaymentAmount, NormalizedAmount, normalize_stellar_amount,
}

abbrev pub payment_prep_tool_name : Text
payment_prep_tool_name = lit "wallet.prepare_payment"

abbrev pub memo_text_max_bytes : ℕ
memo_text_max_bytes = 28

-- A property of a payload; its type is not checked before the tool reads it.
pub data Field (N : Type 0) : Type 0 where
  absent null other : Field N
  text : Text → Field N
  number : N → Field N

pub record PaymentPrepPayload (N M : Type 0) : Type 0 where
  pub wallet_id : Field N
  pub amount : Field N
  pub recipient_id : Field N
  pub asset_code : Field N
  pub asset_issuer : Field N
  pub memo : Field N
  pub metadata : M

pub record PaymentPrepResult (M : Type 0) : Type 0 where
  pub status : Text
  pub wallet_id : Text
  pub amount : Text
  pub recipient_id : Option Text
  pub asset_code : Text
  pub asset_issuer : Option Text
  pub memo : Option Text
  pub prepared_at : Text
  pub transaction_stub_id : Text
  pub is_simulated : Bool
  pub metadata : M

abbrev pub invalid {ℓ} : {A : Type ℓ} → Result A
invalid = err (runtime_error invalid_task)

abbrev pub is_alphanumeric : ℕ → Bool
is_alphanumeric c =
    (leb b'A' c && leb c b'Z') || (leb b'a' c && leb c b'z') || (leb b'0' c && leb c b'9')

-- `STELLAR_ASSET_CODE_RE.test(value)`: `^[A-Za-z0-9]{1,12}$`
unfoldable pub stellar_asset_code_re : Text → Bool
stellar_asset_code_re value =
    leb 1 (length value) && leb (length value) 12 && all is_alphanumeric value

abbrev pub is_native : Text → Bool
is_native asset_code = text_eq asset_code (lit "XLM")

-- The fields of `createTransactionStubId`.
pub record Intent : Type 0 where
  pub task_id : Text
  pub wallet_id : Text
  pub recipient_id : Option Text
  pub asset_code : Text
  pub asset_issuer : Option Text
  pub amount_stroops : ℕ
  pub memo : Option Text

unfoldable pub native_intent : Intent → List (Option Text)
unfolding decimal
native_intent input =
    some input.task_id
    ∷ some input.wallet_id
    ∷ input.recipient_id
    ∷ some input.asset_code
    ∷ some (decimal input.amount_stroops)
    ∷ input.memo
    ∷ []

abbrev pub with_issuer : Option Text → List (Option Text) → List (Option Text)
with_issuer none intent = intent
with_issuer (some issuer) intent = intent ++ some issuer ∷ []

unfoldable pub canonical_intent : Intent → Text
unfolding native_intent json_array
canonical_intent input = json_array (with_issuer input.asset_issuer (native_intent input))

-- `sha256` gives the digest of a text in hexadecimal digits.
unfoldable pub create_transaction_stub_id : (Text → Text) → Intent → Text
unfolding canonical_intent
create_transaction_stub_id sha256 input =
    lit "stellar-stub-"
    ++ (input.task_id
        ++ (lit "-" ++ (input.wallet_id ++ (lit "-" ++ sha256 (canonical_intent input)))))

-- `context.now || new Date().toISOString()`
abbrev pub prepared_time : Text → Text → Text
prepared_time [] clock = clock
prepared_time (c ∷ now) clock = c ∷ now

unfoldable pub checked_issuer : Text → Text → Result (Option Text)
unfolding is_valid_stellar_account_id
checked_issuer asset_code issuer =
    if not (text_eq issuer (trim issuer))
    then invalid
    else (if is_native asset_code
        then invalid
        else (if not (is_valid_stellar_account_id issuer) then invalid else ok (some issuer)))

module _ {N : Type 0} where
  -- `assertNonEmptyValue(value)`, which leaves a text.
  unfoldable pub non_empty : Field N → Result Text
  unfolding assert_non_empty_value
  non_empty (text s) = do assert_non_empty_value (str s); ok s
  non_empty _ = do assert_non_empty_value not_str; ok []

  unfoldable pub recipient_of : Field N → Result (Option Text)
  unfolding non_empty
  recipient_of absent = ok none
  recipient_of f = do s ← non_empty f; ok (some s)

  -- `value ?? "XLM"`
  abbrev pub or_native : Field N → Field N
  or_native absent = text (lit "XLM")
  or_native null = text (lit "XLM")
  or_native f = f

  unfoldable pub asset_code_of : Field N → Result Text
  unfolding non_empty stellar_asset_code_re
  asset_code_of f = do
    asset_code ← non_empty (or_native f)
    if not (stellar_asset_code_re asset_code) then invalid else ok asset_code

  unfoldable pub asset_issuer_of : Text → Field N → Result (Option Text)
  unfolding non_empty checked_issuer
  asset_issuer_of asset_code absent = if not (is_native asset_code) then invalid else ok none
  asset_issuer_of asset_code f = do issuer ← non_empty f; checked_issuer asset_code issuer

  unfoldable pub normalize_memo : Field N → Result (Option Text)
  unfolding byte_length
  normalize_memo absent = ok none
  normalize_memo (text memo) =
      if ltb memo_text_max_bytes (byte_length memo) then invalid else ok (some memo)
  normalize_memo _ = invalid

  unfoldable pub amount_of : Field N → Result (PaymentAmount N)
  unfolding is_blank
  amount_of (text s) = if is_blank s then invalid else ok (PaymentAmount.text s)
  amount_of (number x) = ok (PaymentAmount.number x)
  amount_of _ = invalid

module _ {N M : Type 0} (js : JsNumber N) (sha256 : Text → Text) (clock : Text) where
  unfoldable pub execute : PaymentPrepPayload N M → RuntimeContext → Result (PaymentPrepResult M)
  unfolding non_empty recipient_of asset_code_of asset_issuer_of normalize_memo amount_of
      normalize_stellar_amount create_transaction_stub_id
  execute payload context = do
    wallet_id ← non_empty payload.wallet_id
    recipient_id ← recipient_of payload.recipient_id
    asset_code ← asset_code_of payload.asset_code
    asset_issuer ← asset_issuer_of asset_code payload.asset_issuer
    memo ← normalize_memo payload.memo
    amount ← amount_of payload.amount
    normalized ← normalize_stellar_amount js amount
    ok (record {
      status = lit "prepared";
      wallet_id = wallet_id;
      amount = normalized.amount;
      recipient_id = recipient_id;
      asset_code = asset_code;
      asset_issuer = asset_issuer;
      memo = memo;
      prepared_at = prepared_time context.now clock;
      transaction_stub_id = create_transaction_stub_id sha256 (record {
        task_id = context.task_id;
        wallet_id = wallet_id;
        recipient_id = recipient_id;
        asset_code = asset_code;
        asset_issuer = asset_issuer;
        amount_stroops = normalized.stroops;
        memo = memo;
      });
      is_simulated = true;
      metadata = payload.metadata;
    })
