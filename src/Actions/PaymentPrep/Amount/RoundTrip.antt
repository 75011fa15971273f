-- ===== src/Actions/PaymentPrep/Amount/RoundTrip.antt =====
-- Amounts in stroops printed as decimals, and read back.
use mathlib.Core.List.{append-nil}
use agentlily_runtime.Common.{
  ℕ, suc, ◌+◌, ◌-◌, ◌*◌, ◌/◌, ◌%◌, ◌^◌, ◌≤◌, ◌≡◌, ◌≢◌, refl, sym, ◌∙◌, ap, true, not, [], ◌∷◌, ◌++◌,
  some, Text, all, length, ◌==◌, arith,
}
use agentlily_runtime.Common.Decimal.{
  is_digit, pad_end, big_int, value_from, replicate, decimal, fixed_digits, digits_within,
}
use agentlily_runtime.Common.Decimal.Laws.{
  big_int-decimal, split-append, split-none, length-fixed_digits, fixed_digits-digits,
  digits_within-digits, value_from-append, value_from-zeros, value_from-fixed_digits,
}
use agentlily_runtime.Errors.{ok}
use agentlily_runtime.Actions.PaymentPrep.Amount.{
  stroops_per_unit, max_stellar_amount_stroops, is_fraction_end, is_decimal_from, decimal_amount_re,
  stroops_of_parts, in_range, PaymentAmount, JsNumber, normalize_stellar_amount, with_stroops,
  checked_stroops, exact_stroops, or_zero,
}

-- Digits are skipped.
is_decimal_from-digits :
    (w t : Text) → all is_digit w ≡ true → is_decimal_from true (w ++ t) ≡ is_decimal_from true t
unfolding is_decimal_from
is_decimal_from-digits [] t h = refl
is_decimal_from-digits (c ∷ w) t h = ground (arith, is_decimal_from-digits w t)

decimal_amount_re-append :
    (w t : Text)
    → w ≢ []
    → all is_digit w ≡ true
    → decimal_amount_re (w ++ t) ≡ is_decimal_from true t
unfolding decimal_amount_re is_decimal_from
decimal_amount_re-append [] t ne h = absurd (ne refl)
decimal_amount_re-append (c ∷ w) t ne h = ground (arith, is_decimal_from-digits w t)

no_dot : (s : Text) → all is_digit s ≡ true → all (λ c. not (c == b'.')) s ≡ true
unfolding is_digit
no_dot [] h = refl
no_dot (c ∷ s) h = ground (arith, no_dot s)

-- The value of a padded fraction.
padded_value : (f : Text) → big_int (or_zero (pad_end f 7 b'0')) ≡ big_int f * 10 ^ (7 - length f)
unfolding big_int pad_end
padded_value f =
    ap big_int (never_empty f)
    ∙ value_from-append 0 f _
    ∙ value_from-zeros (value_from 0 f) (7 - length f)
  where
    never_empty :
        (f : Text)
        → or_zero (f ++ replicate (7 - length f) b'0') ≡ f ++ replicate (7 - length f) b'0'
    never_empty [] = refl
    never_empty (c ∷ f) = refl

fraction_accepted :
    (f : Text)
    → all is_digit f ≡ true
    → 1 ≤ length f
    → length f ≤ 7
    → is_decimal_from true (b'.' ∷ f) ≡ true
unfolding is_decimal_from is_fraction_end is_digit
fraction_accepted f df lo hi = ground arith

-- A whole part and a fraction of one to seven digits are worth what the decimal point says.
pub exact_stroops-fraction :
    (w f : Text)
    → w ≢ []
    → all is_digit w ≡ true
    → all is_digit f ≡ true
    → 1 ≤ length f
    → length f ≤ 7
    → exact_stroops (w ++ b'.' ∷ f)
      ≡ in_range (big_int w * stroops_per_unit + big_int f * 10 ^ (7 - length f))
unfolding exact_stroops is_decimal_from is_fraction_end stroops_of_parts checked_stroops is_digit
exact_stroops-fraction w f ne dw df lo hi =
    rw
      (
        decimal_amount_re-append w (b'.' ∷ f) ne dw,
        split-append b'.' w f (no_dot w dw),
        split-none b'.' f (no_dot f df),
      )
      (rw (padded_value f, fraction_accepted f df lo hi) refl)

-- A whole number of units.
pub exact_stroops-whole :
    (w : Text)
    → w ≢ []
    → all is_digit w ≡ true
    → exact_stroops w ≡ in_range (big_int w * stroops_per_unit)
unfolding exact_stroops stroops_of_parts checked_stroops in_range pad_end big_int value_from
exact_stroops-whole w ne dw = rw (accepted, split-none b'.' w (no_dot w dw)) (ground arith)
  where
    accepted : decimal_amount_re w ≡ true
    accepted =
        sym (ap decimal_amount_re (append-nil w))
        ∙ decimal_amount_re-append w [] ne dw
        ∙ unfold is_decimal_from in refl

decimal-ne-nil : (n : ℕ) → decimal n ≢ []
unfolding decimal digits_within
decimal-ne-nil n h = snoc-ne-nil _ _ h
  where
    snoc-ne-nil : (c : ℕ) (s : Text) → s ++ c ∷ [] ≢ []
    snoc-ne-nil c [] h = cc
    snoc-ne-nil c (d ∷ s) h = cc

decimal-digits : (n : ℕ) → all is_digit (decimal n) ≡ true
unfolding decimal
decimal-digits n = digits_within-digits (suc n) n

-- An amount in stroops, printed with seven fractional digits.
unfoldable pub print_stroops : ℕ → Text
print_stroops n = decimal (n / stroops_per_unit) ++ b'.' ∷ fixed_digits 7 (n % stroops_per_unit)

pub exact_stroops-print :
    (n : ℕ) → 1 ≤ n → n ≤ max_stellar_amount_stroops → exact_stroops (print_stroops n) ≡ some n
unfolding print_stroops in_range big_int
exact_stroops-print n lo hi =
    rw
      (
        exact_stroops-fraction (decimal (n / stroops_per_unit))
            (fixed_digits 7 (n % stroops_per_unit)) (decimal-ne-nil _) (decimal-digits _)
            (fixed_digits-digits 7 _) (omega (arith, length-fixed_digits 7 (n % stroops_per_unit)))
            (omega (arith, length-fixed_digits 7 (n % stroops_per_unit))),
        big_int-decimal,
        length-fixed_digits 7 (n % stroops_per_unit),
        value_from-fixed_digits 7 0 (n % stroops_per_unit) (omega arith),
      )
      (ground arith)

-- Every amount of 1 to 2^63 - 1 stroops, printed with seven fractional digits, is accepted, and
-- normalises to itself and to its stroops.
pub normalize-print :
    {N : Type 0} (js : JsNumber N) (n : ℕ)
    → 1 ≤ n
    → n ≤ max_stellar_amount_stroops
    → normalize_stellar_amount js (PaymentAmount.text (print_stroops n))
      ≡ ok (record { amount = print_stroops n; stroops = n })
unfolding normalize_stellar_amount with_stroops
normalize-print js n lo hi = rw (exact_stroops-print n lo hi) refl
