-- ===== src/Actions/PaymentPrep/Tests.antt =====
-- The payment tool at inputs from its domain. Numbers are natural numbers here.
use agentlily_runtime.Common.{
  ℕ, ◌+◌, ◌*◌, ◌^◌, ◌<◌, ◌≡◌, refl, Bool, true, false, List, [], ◌∷◌, ◌++◌, Option, none, some,
  Text, lit, leb, ltb, all, length, ◌==◌, arith,
}
use agentlily_runtime.Common.Decimal.{decimal, big_int}
use agentlily_runtime.Context.{RuntimeContext}
use agentlily_runtime.Errors.{ok, err, runtime_error, invalid_task}
use agentlily_runtime.Actions.PaymentPrep.Account.{
  decode_base32, is_valid_stellar_account_id, crc16_xmodem,
}
use agentlily_runtime.Actions.PaymentPrep.Account.Decoding.{decode_base32_lem, text_value}
use agentlily_runtime.Actions.PaymentPrep.Account.Digit.{bytes_value}
use agentlily_runtime.Actions.PaymentPrep.Amount.{
  JsNumber, PaymentAmount, normalize_stellar_amount, exact_stroops,
}
use agentlily_runtime.Actions.PaymentPrep.Amount.RoundTrip.{print_stroops, normalize-print}
use agentlily_runtime.Actions.PaymentPrep.Laws.{Prepared, execute-Prepared, stub_ignores_spelling}
use agentlily_runtime.Actions.PaymentPrep.{
  absent, text, number, PaymentPrepPayload, PaymentPrepResult, execute, create_transaction_stub_id,
}

abbrev naturals : JsNumber ℕ
naturals = record {
  is_finite = λ x. true;
  is_not_positive = λ x. leb x 0;
  is_integer = λ x. true;
  is_safe_integer = λ x. true;
  times = λ x n. x * n;
  to_text = λ x. decimal x;
  to_fixed = λ x n. decimal x;
  parse = λ s. big_int s;
  same = λ x y. x == y;
}

exact_stroops_one_and_a_half : exact_stroops (lit "1.5") ≡ some 15000000
unfolding exact_stroops
exact_stroops_one_and_a_half = refl

exact_stroops_eight_digits : exact_stroops (lit "1.00000000") ≡ none
unfolding exact_stroops
exact_stroops_eight_digits = refl

exact_stroops_no_digit : exact_stroops (lit ".5") ≡ none
unfolding exact_stroops
exact_stroops_no_digit = refl

exact_stroops_largest : exact_stroops (lit "922337203685.4775807") ≡ some 9223372036854775807
unfolding exact_stroops
exact_stroops_largest = refl

exact_stroops_too_large : exact_stroops (lit "922337203685.4775808") ≡ none
unfolding exact_stroops
exact_stroops_too_large = refl

abbrev abcde : List ℕ
abcde = 97 ∷ 98 ∷ 99 ∷ 100 ∷ 101 ∷ []

decode_base32_letters : decode_base32 (lit "MFRGGZDF") ≡ some abcde
unfolding decode_base32
decode_base32_letters = refl

decode_base32_bits_left : decode_base32 (lit "MF7") ≡ none
unfolding decode_base32
decode_base32_bits_left = refl

crc16_xmodem_check : crc16_xmodem (lit "123456789") ≡ 0x31c3
unfolding crc16_xmodem
crc16_xmodem_check = refl

abbrev issuer : Text
issuer = lit "GA7QYNF7SOWQ3GLR2BGMZEHXAVIRZA4KVWLTJJFC7MGXUA74P7UJVSGZ"

issuer_is_valid : is_valid_stellar_account_id issuer ≡ true
unfolding is_valid_stellar_account_id
issuer_is_valid = refl

issuer_with_a_slip :
    is_valid_stellar_account_id (lit "GA7QYNF7SOWQ3GLR2BGMZEHXAVIRZA4KVWLTJJFC7MGXUA74P7UJVSGY")
    ≡ false
unfolding is_valid_stellar_account_id
issuer_with_a_slip = refl

normalize-print_example :
    normalize_stellar_amount naturals (PaymentAmount.text (print_stroops 12345678))
    ≡ ok (record { amount = print_stroops 12345678; stroops = 12345678 })
normalize-print_example = normalize-print naturals 12345678 (omega arith) (omega arith)

decode_base32_lem_example :
    (k : ℕ) × (k < 8)
    × (5 * length (lit "MFRGGZDF") ≡ 8 * length abcde + k)
    × (text_value 0 (lit "MFRGGZDF") ≡ some (bytes_value 0 abcde * 2 ^ k))
    × (all (λ b. ltb b 256) abcde ≡ true)
decode_base32_lem_example = decode_base32_lem (lit "MFRGGZDF") abcde decode_base32_letters

abbrev context : RuntimeContext
context = record {
  runtime_id = lit "runtime";
  task_id = lit "task-1";
  agent = none;
  now = lit "2024-05-01T00:00:00.000Z";
}

-- A digest that keeps the text.
abbrev keep_text : Text → Text
keep_text s = s

abbrev payload : PaymentPrepPayload ℕ Bool
payload = record {
  wallet_id = text (lit "wallet");
  amount = text (lit "1.0");
  recipient_id = text (lit "friend");
  asset_code = text (lit "USDC");
  asset_issuer = text issuer;
  memo = absent;
  metadata = true;
}

abbrev prepared : Text → Bool → PaymentPrepResult Bool
prepared amount metadata = record {
  status = lit "prepared";
  wallet_id = lit "wallet";
  amount = amount;
  recipient_id = some (lit "friend");
  asset_code = lit "USDC";
  asset_issuer = some issuer;
  memo = none;
  prepared_at = lit "2024-05-01T00:00:00.000Z";
  transaction_stub_id = create_transaction_stub_id keep_text (record {
    task_id = lit "task-1";
    wallet_id = lit "wallet";
    recipient_id = some (lit "friend");
    asset_code = lit "USDC";
    asset_issuer = some issuer;
    amount_stroops = 10000000;
    memo = none;
  });
  is_simulated = true;
  metadata = metadata;
}

execute_payload : execute naturals keep_text [] payload context ≡ ok (prepared (lit "1.0") true)
unfolding execute agentlily_runtime.Common.text_eq
execute_payload = refl

execute_number :
    execute naturals keep_text [] (record payload { amount = number 1; metadata = false }) context
    ≡ ok (prepared (lit "1") false)
unfolding execute agentlily_runtime.Common.text_eq
execute_number = refl

execute_no_issuer :
    execute naturals keep_text [] (record payload { asset_issuer = absent }) context
    ≡ err (runtime_error invalid_task)
unfolding execute agentlily_runtime.Common.text_eq
execute_no_issuer = refl

execute-Prepared_example : Prepared keep_text payload context (prepared (lit "1.0") true)
execute-Prepared_example =
    execute-Prepared naturals keep_text [] payload context (prepared (lit "1.0") true)
      execute_payload

stub_ignores_spelling_example :
    (prepared (lit "1.0") true).transaction_stub_id ≡ (prepared (lit "1") false).transaction_stub_id
unfolding exact_stroops
stub_ignores_spelling_example =
    stub_ignores_spelling naturals keep_text [] [] payload (number 1) false context context
      (prepared (lit "1.0") true) (prepared (lit "1") false) refl execute_payload execute_number
      refl
