-- ===== src/Actions/PaymentPrep/Amount.antt =====
-- src/actions/payment-prep-action.ts, lines 7-10 and 45-107: the amount of a payment. A JavaScript
-- number is a value of a type `N` whose operations are those of the platform.
pub mod RoundTrip
use agentlily_runtime.Common.{
  ℕ, ◌+◌, ◌*◌, ◌≤◌, Bool, true, false, ◌&&◌, ◌||◌, not, List, [], ◌∷◌, Option, none, some, Text,
  any, all, length, ltb, leb, ◌==◌, if◌then◌else◌,
}
use agentlily_runtime.Common.Decimal.{is_digit, split, pad_end, big_int}
use agentlily_runtime.Errors.{Result, ok, err, ◌>>=◌, runtime_error, invalid_task}
use mathlib.Core.List.{reverse}

abbrev pub stroops_per_unit : ℕ
stroops_per_unit = 10000000

abbrev pub max_stellar_amount_stroops : ℕ
max_stellar_amount_stroops = 9223372036854775807

-- `(?:\.\d{1,7})?$`
unfoldable pub is_fraction_end : Text → Bool
unfolding is_digit
is_fraction_end [] = true
is_fraction_end (c ∷ s) = c == b'.' && leb 1 (length s) && leb (length s) 7 && all is_digit s

-- `\d*(?:\.\d{1,7})?$`, where a digit was read before if `seen`.
unfoldable pub is_decimal_from : Bool → Text → Bool
unfolding is_digit is_fraction_end
is_decimal_from seen [] = seen
is_decimal_from seen (c ∷ s) =
    let rest = is_decimal_from true s in
    if is_digit c then rest else (seen && is_fraction_end (c ∷ s))

-- `DECIMAL_AMOUNT_RE.test(value)`
unfoldable pub decimal_amount_re : Text → Bool
unfolding is_decimal_from
decimal_amount_re value = is_decimal_from false value

-- `value || "0"`
abbrev pub or_zero : Text → Text
or_zero [] = b'0' ∷ []
or_zero (c ∷ s) = c ∷ s

-- `[wholePart, fractionalPart = ""]`, and the sum in stroops.
unfoldable pub stroops_of_parts : List Text → Option ℕ
unfolding big_int pad_end
stroops_of_parts [] = none
stroops_of_parts (whole_part ∷ []) =
    some (big_int whole_part * stroops_per_unit + big_int (or_zero (pad_end [] 7 b'0')))
stroops_of_parts (whole_part ∷ fractional_part ∷ _) =
    some
      (big_int whole_part * stroops_per_unit + big_int (or_zero (pad_end fractional_part 7 b'0')))

unfoldable pub in_range : ℕ → Option ℕ
in_range stroops =
    if leb stroops 0 || ltb max_stellar_amount_stroops stroops then none else some stroops

unfoldable pub checked_stroops : Option ℕ → Option ℕ
unfolding in_range
checked_stroops none = none
checked_stroops (some stroops) = in_range stroops

-- From the test of the regular expression on; `none` is `invalidAmount`.
unfoldable pub exact_stroops : Text → Option ℕ
unfolding decimal_amount_re split stroops_of_parts checked_stroops
exact_stroops value =
    if decimal_amount_re value then checked_stroops (stroops_of_parts (split b'.' value)) else none

-- What the program asks of the platform's numbers.
pub record JsNumber (N : Type 0) : Type 0 where
  -- `Number.isFinite(x)`, `x <= 0`, `Number.isInteger(x)`, `Number.isSafeInteger(x)`
  pub is_finite : N → Bool
  pub is_not_positive : N → Bool
  pub is_integer : N → Bool
  pub is_safe_integer : N → Bool
  -- `x * n`, `String(x)`, `x.toFixed(n)`, `Number(s)`, `x === y`
  pub times : N → ℕ → N
  pub to_text : N → Text
  pub to_fixed : N → ℕ → Text
  pub parse : Text → N
  pub same : N → N → Bool

-- `amount: string | number`
pub data PaymentAmount (N : Type 0) : Type 0 where
  text : Text → PaymentAmount N
  number : N → PaymentAmount N

unfoldable pub drop_zeros : Text → Text
drop_zeros [] = []
drop_zeros (c ∷ s) = let rest = drop_zeros s in if c == b'0' then rest else c ∷ s

abbrev pub drop_dot : Text → Text
drop_dot [] = []
drop_dot (c ∷ s) = if c == b'.' then s else c ∷ s

abbrev pub drop_fraction_zeros : Text → Text
drop_fraction_zeros [] = []
drop_fraction_zeros (c ∷ s) = if c == b'0' then drop_dot (drop_zeros s) else c ∷ s

-- `fixed.replace(/\.?(?:0+)$/, "")`
unfoldable pub strip_zeros : Text → Text
unfolding drop_zeros
strip_zeros fixed = reverse (drop_fraction_zeros (reverse fixed))

-- What `normalizeStellarAmount` returns.
pub record NormalizedAmount : Type 0 where
  pub amount : Text
  pub stroops : ℕ

unfoldable pub with_stroops : Text → Option ℕ → Result NormalizedAmount
with_stroops amount_str none = err (runtime_error invalid_task)
with_stroops amount_str (some stroops) = ok (record { amount = amount_str; stroops = stroops })

module _ {N : Type 0} (js : JsNumber N) where
  -- `/e/i.test(amountStr)`
  unfoldable pub plain_notation : N → Result Text
  unfolding strip_zeros
  plain_notation amount =
      let amount_str = js.to_text amount in
      let fixed = js.to_fixed amount 7 in
      if any (λ c. c == b'e' || c == b'E') amount_str
      then (if not (js.same (js.parse fixed) amount)
          then err (runtime_error invalid_task)
          else ok (strip_zeros fixed))
      else ok amount_str

  unfoldable pub normalize_numeric_amount : N → Result Text
  unfolding plain_notation
  normalize_numeric_amount amount =
      if not (js.is_finite amount) || js.is_not_positive amount
      then err (runtime_error invalid_task)
      else (if not (js.is_integer amount)
            && not (js.is_safe_integer (js.times amount stroops_per_unit))
          then err (runtime_error invalid_task)
          else plain_notation amount)

  unfoldable pub amount_text : PaymentAmount N → Result Text
  unfolding normalize_numeric_amount
  amount_text (text s) = ok s
  amount_text (number x) = normalize_numeric_amount x

  unfoldable pub normalize_stellar_amount : PaymentAmount N → Result NormalizedAmount
  unfolding amount_text with_stroops exact_stroops
  normalize_stellar_amount amount = do
    amount_str ← amount_text amount
    with_stroops amount_str (exact_stroops amount_str)
