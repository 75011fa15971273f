-- ===== src/Policies/PaymentIntent/Rules.antt =====
-- src/policies/payment-intent-policy.ts, lines 15-169 and 314-356: the rules of the wallets, as
-- configured and as compiled.
use agentlily_runtime.Common.{
  ℕ, Bool, false, ◌&&◌, ◌||◌, not, List, [], ◌∷◌, ◌++◌, Option, none, some, Text, length, text_eq,
  trim, get_or, is_some, ◌==◌, if◌then◌else◌,
}
use agentlily_runtime.Common.Decimal.{split}
use agentlily_runtime.Common.Dict.{has, set, add}
use agentlily_runtime.Common.Value.{Unknown, str, not_str}
use agentlily_runtime.Errors.{Result, ok, err, ◌>>=◌, ◌>>◌, range_error, type_error}
use agentlily_runtime.Actions.PaymentPrep.{stellar_asset_code_re, is_native}
use agentlily_runtime.Actions.PaymentPrep.Account.{stellar_account_id_re}
use agentlily_runtime.Actions.PaymentPrep.Amount.{
  decimal_amount_re, stroops_of_parts, checked_stroops,
}

pub record StellarPaymentAssetPolicy : Type 0 where
  pub asset_code : Unknown
  pub asset_issuer : Option Unknown

-- `allowedRecipientIds`: not given, a string, or an iterable.
pub data RecipientIds : Type 0 where
  no_ids one_string : RecipientIds
  ids : List Unknown → RecipientIds

-- A flag: not given, a boolean, or another value.
pub data Flag : Type 0 where
  no_flag bad_flag : Flag
  flag : Bool → Flag

-- An entry that is null or no object is `none` in the lists that follow.
pub record StellarPaymentWalletPolicy : Type 0 where
  pub wallet_id : Unknown
  pub max_amount : Option Text
  pub allowed_recipient_ids : RecipientIds
  pub allowed_assets : Option (List (Option StellarPaymentAssetPolicy))
  pub require_recipient : Flag
  pub require_memo : Flag

pub record CompiledWalletPolicy : Type 0 where
  pub max_amount_stroops : Option ℕ
  pub allowed_recipient_ids : Option (List Text)
  pub allowed_assets : Option (List Text)
  pub require_recipient : Bool
  pub require_memo : Bool

unfoldable pub require_config_string : Unknown → Result Text
require_config_string not_str = err type_error
require_config_string (str value) =
    if length value == 0 || not (text_eq (trim value) value) then err type_error else ok value

-- `parseExactStroops`, which repeats the tests of the tool on an amount.
unfoldable pub parse_exact_stroops : Text → Option ℕ
unfolding decimal_amount_re split stroops_of_parts checked_stroops
parse_exact_stroops value =
    if not (decimal_amount_re value)
    then none
    else checked_stroops (stroops_of_parts (split b'.' value))

unfoldable pub parse_configured_max_amount : Option Text → Result (Option ℕ)
unfolding parse_exact_stroops
parse_configured_max_amount none = ok none
parse_configured_max_amount (some value) = elim (parse_exact_stroops value) [
  | none ↦ err range_error
  | some stroops ↦ ok (some stroops)
]

-- The parts are joined by a NUL.
unfoldable pub asset_identity : Text → Option Text → Text
asset_identity asset_code asset_issuer = asset_code ++ 0 ∷ get_or asset_issuer []

unfoldable pub configured_issuer : Option Unknown → Result (Option Text)
unfolding require_config_string stellar_account_id_re
configured_issuer none = ok none
configured_issuer (some value) = do
  asset_issuer ← require_config_string value
  if not (stellar_account_id_re asset_issuer) then err range_error else ok (some asset_issuer)

-- One round of the loop over the assets.
unfoldable pub compile_asset : Option StellarPaymentAssetPolicy → Result (Text × Option Text)
unfolding require_config_string stellar_asset_code_re configured_issuer
compile_asset none = err type_error
compile_asset (some asset) = do
  asset_code ← require_config_string asset.asset_code
  if not (stellar_asset_code_re asset_code) then err range_error else ok tt
  asset_issuer ← configured_issuer asset.asset_issuer
  if is_native asset_code && is_some asset_issuer
      then err range_error
      else (if not (is_native asset_code) && not (is_some asset_issuer)
          then err range_error
          else ok (asset_code, asset_issuer))

unfoldable pub add_assets : List Text → List (Option StellarPaymentAssetPolicy) → Result (List Text)
unfolding compile_asset asset_identity
add_assets snapshot [] = ok snapshot
add_assets snapshot (asset ∷ assets) = do
  (asset_code, asset_issuer) ← compile_asset asset
  add_assets (add (asset_identity asset_code asset_issuer) snapshot) assets

unfoldable pub compile_asset_allowlist :
    Option (List (Option StellarPaymentAssetPolicy)) → Result (Option (List Text))
unfolding add_assets
compile_asset_allowlist none = ok none
compile_asset_allowlist (some assets) = do snapshot ← add_assets [] assets; ok (some snapshot)

unfoldable pub add_recipients : List Text → List Unknown → Result (List Text)
unfolding require_config_string
add_recipients snapshot [] = ok snapshot
add_recipients snapshot (id ∷ rest) = do
  recipient_id ← require_config_string id
  add_recipients (add recipient_id snapshot) rest

unfoldable pub compile_recipient_allowlist : RecipientIds → Result (Option (List Text))
unfolding add_recipients
compile_recipient_allowlist no_ids = ok none
compile_recipient_allowlist one_string = err type_error
compile_recipient_allowlist (ids recipient_ids) = do
  snapshot ← add_recipients [] recipient_ids
  ok (some snapshot)

-- `flag ?? false`, after the test that it is a boolean or not given.
unfoldable pub compile_flag : Flag → Result Bool
compile_flag no_flag = ok false
compile_flag bad_flag = err type_error
compile_flag (flag b) = ok b

abbrev pub WalletPolicies : Type 0
WalletPolicies = List (Text × CompiledWalletPolicy)

-- One round of the constructor's loop.
unfoldable pub add_wallet :
    Option StellarPaymentWalletPolicy → WalletPolicies → Result WalletPolicies
unfolding require_config_string compile_flag parse_configured_max_amount compile_recipient_allowlist
    compile_asset_allowlist
add_wallet none policies = err type_error
add_wallet (some rule) policies = do
  wallet_id ← require_config_string rule.wallet_id
  if has wallet_id policies then err range_error else ok tt
  require_recipient ← compile_flag rule.require_recipient
  require_memo ← compile_flag rule.require_memo
  max_amount_stroops ← parse_configured_max_amount rule.max_amount
  allowed_recipient_ids ← compile_recipient_allowlist rule.allowed_recipient_ids
  allowed_assets ← compile_asset_allowlist rule.allowed_assets
  ok (
      set wallet_id
        (record {
          max_amount_stroops = max_amount_stroops;
          allowed_recipient_ids = allowed_recipient_ids;
          allowed_assets = allowed_assets;
          require_recipient = require_recipient;
          require_memo = require_memo;
        })
        policies)

unfoldable pub add_wallets :
    WalletPolicies → List (Option StellarPaymentWalletPolicy) → Result WalletPolicies
unfolding add_wallet
add_wallets policies [] = ok policies
add_wallets policies (rule ∷ rules) = do more ← add_wallet rule policies; add_wallets more rules

-- The constructor; `none` is options that are no object.
unfoldable pub stellar_payment_intent_policy :
    Option (List (Option StellarPaymentWalletPolicy)) → Result WalletPolicies
unfolding add_wallets
stellar_payment_intent_policy none = err type_error
stellar_payment_intent_policy (some wallets) = add_wallets [] wallets
